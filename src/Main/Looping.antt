-- ===== src/Main/Looping.antt =====
-- When the master's loop ends, and when it goes on.
use dbl_service.Prelude.{
  ℕ, String, Bool, true, false, not, ◌||◌, Option, none, some, List, [], ◌∷◌, if◌then◌else◌, ◌≡◌,
  refl, any, ap, ◌∙◌,
}
use dbl_service.Fallible.{ok, pure, ◌>>=◌}
use dbl_service.Storage.{Tables}
use dbl_service.Manager.Domains.{count_blocked}
use dbl_service.Manager.DomainLists.{count}
use dbl_service.Daemon
use dbl_service.Daemon.{Signal, WaitStatus, save_pidfile, start_dns_proxy}
use dbl_service.Daemon.Processes.{process_master}
use dbl_service.Daemon.Returns.{has_started, is_exit, has_crashed}
use dbl_service.Daemon.Ending.{process_master-ends}
use dbl_service.Main.Parts.{daemon_config}
use dbl_service.Main.{set_up, fill_status, run_service, run_counted, turn, loop}
use dbl_service.Main.Setting.{Machine, Round, master, State, returned, next}

-- Whatever statements fail, a count is given.
count-returns :
    (t : Tables) (fs : List (Option String))
    → (n : ℕ) × ((count (record { tables = t; faults = fs })).0 ≡ ok n)
unfolding count
count-returns t [] = (_, refl)
count-returns t (some m ∷ fs) = (_, refl)
count-returns t (none ∷ []) = (_, refl)
count-returns t (none ∷ some m ∷ fs) = (_, refl)
count-returns t (none ∷ none ∷ []) = (_, refl)
count-returns t (none ∷ none ∷ some m ∷ fs) = (_, refl)
count-returns t (none ∷ none ∷ none ∷ fs) = (_, refl)

count_blocked-returns :
    (t : Tables) (fs : List (Option String))
    → (n : ℕ) × ((count_blocked (record { tables = t; faults = fs })).0 ≡ ok n)
unfolding count_blocked
count_blocked-returns t [] = (_, refl)
count_blocked-returns t (some m ∷ fs) = (_, refl)
count_blocked-returns t (none ∷ []) = (_, refl)
count_blocked-returns t (none ∷ some m ∷ fs) = (_, refl)
count_blocked-returns t (none ∷ none ∷ []) = (_, refl)
count_blocked-returns t (none ∷ none ∷ some m ∷ fs) = (_, refl)
count_blocked-returns t (none ∷ none ∷ none ∷ fs) = (_, refl)

module _ {S : Type 0} (machine : Machine S) where
  open machine use {config, host}

  -- The state after the counts.
  counted : Round → State S → State S
  counted round s = (fill_status machine round.uname s).1

  run_counted-master :
      (round : Round) (signals : List Signal) (status : WaitStatus) (s : State S) (u : Daemon.State)
      → round.side ≡ master signals status
      → save_pidfile host (daemon_config config s.config_path) s.service ≡ (ok tt, u)
      → run_counted machine round s ≡ (
        ok next,
        record (counted round s) {
          service =
              (process_master host (daemon_config config s.config_path) signals status s.service).1;
        },
      )
  unfolding run_counted fill_status run_service counted ◌>>=◌ pure count count-returns
      count_blocked-returns
  run_counted-master round signals status s u side saved =
      rw
        (
          side,
          (count-returns s.store.tables s.store.faults).1,
          (count_blocked-returns (count s.store).1.tables (count s.store).1.faults).1,
          (process_master-ends host (daemon_config config s.config_path) signals status s.service u
              saved).0,
        )
        refl

  ended : Round → List Signal → WaitStatus → State S → State S
  ended round signals status t = record (counted round t) {
    service = (process_master host (daemon_config config t.config_path) signals status t.service).1;
    has_service = false;
  }

  turn-master :
      (round : Round) (signals : List Signal) (status : WaitStatus) (s t : State S)
      (u : Daemon.State)
      → config.is_test ≡ false
      → round.side ≡ master signals status
      → set_up machine round s ≡ (ok next, t)
      → save_pidfile host (daemon_config config t.config_path) t.service ≡ (ok tt, u)
      → turn machine round s ≡ (ok next, ended round signals status t)
  unfolding turn ended counted fill_status ◌>>=◌ pure
  turn-master round signals status s t u serves side ready saved =
      rw (ready, serves, run_counted-master round signals status t u side saved) refl

  loop-once :
      (round : Round) (s v : State S)
      → s.service.signaled_exit ≡ false
      → turn machine round s ≡ (ok next, v)
      → (loop machine (round ∷ []) s).0 ≡ ok (if v.service.signaled_exit then returned 0 else next)
  unfolding loop ◌>>=◌ pure
  loop-once round s v going turned = simp (going, turned) (either v.service.signaled_exit)
    where
      either :
          (b : Bool)
          → ((if b then pure (returned 0) else pure next) v).0 ≡ ok (if b then returned 0 else next)
      either true = refl
      either false = refl

  -- In a round of the master where the service is set up and its pid file written, the program ends with
  -- EXIT_SUCCESS if SIGINT or SIGTERM came, the DNS proxy could not be started, the worker was killed by
  -- another signal, or an exit was already asked for; in all other cases a further round starts.
  pub loop-master :
      (round : Round) (signals : List Signal) (status : WaitStatus) (s t : State S)
      (u : Daemon.State)
      → config.is_test ≡ false
      → round.side ≡ master signals status
      → s.service.signaled_exit ≡ false
      → set_up machine round s ≡ (ok next, t)
      → save_pidfile host (daemon_config config t.config_path) t.service ≡ (ok tt, u)
      → (loop machine (round ∷ []) s).0
        ≡ ok (
            if (((u.signaled_exit
                  || not
                      (has_started (start_dns_proxy host (daemon_config config t.config_path) u).0))
                || any is_exit signals)
              || has_crashed status)
            then returned 0
            else next)
  unfolding ended counted fill_status ◌>>=◌
  loop-master round signals status s t u serves side going ready saved =
      loop-once round s _ going (turn-master round signals status s t u serves side ready saved)
      ∙ ap (λ b. ok (if b then returned 0 else next))
          (process_master-ends host (daemon_config config t.config_path) signals status t.service u
            saved).3
