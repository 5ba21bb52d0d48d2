-- ===== src/Worker/Safety.antt =====
-- The order of the servers, dropping the privileges, and the first look at the site.
use dbl_service.Prelude.{ℕ, Bool, true, false, ◌⊎◌, inl, inr, List, ◌≡◌, refl}
use dbl_service.Prelude.Integers.{ℤ, is_positive}
use dbl_service.Fallible.{Result, ok, err, pure, ◌>>◌}
use dbl_service.Fallible.Keeps.{Keeps, Keeps-pure, Keeps-if, Keeps-bind, Keeps-then}
use dbl_service.Fallible.Triples.{
  Outcome, Triple, Triple-pure, Triple-if, Triple-bind, Triple-then, Triple-weaken, Triple-keeps,
}
use dbl_service.Storage.{Store}
use dbl_service.Updater.{Source}
use dbl_service.Worker.{
  Config, State, Turn, exited, on_process, change, run_servers, run_unix, stop, stop_servers,
}
use dbl_service.Worker.Privileges.{Os, drop_privileges}
use dbl_service.Worker.Dropping.{IsUnix, IsDropped, IsAny, drop_privileges-IsDropped}
use dbl_service.Worker.Stopping.{Keeps-change, IsAside, run-Keeps}

on_state :
    {S : Type 0} (Q : S → Type 0) (R : State S → Type 0) (r : Result (Unit {0})) (s : State S)
    → R s
    → Outcome (λ _. Q) IsAny r s.process
    → Outcome (λ _ s. Q s.process) R r s
on_state Q R (ok a) s h q = q
on_state Q R (err e) s h q = h

module _ {S : Type 0} (config : Config) (os : Os S) (uid gid : S → ℕ) (t : Store) where
  HasStore : State S → Type 0
  HasStore s = s.store ≡ t

  opens :
      (f : State S → State S)
      → ((s : State S) → HasStore s → HasStore (f s))
      → Keeps HasStore (do change f; pure true)
  opens f h = Keeps-then HasStore _ _ (Keeps-change f h) (Keeps-pure true)

  run_servers-Keeps : (listens : ℤ → Bool) → Keeps HasStore (run_servers config listens)
  unfolding run_servers HasStore
  run_servers-Keeps listens =
      Keeps-bind HasStore _ _
        (Keeps-if (is_positive config.service_port) _ _
          (Keeps-if (listens config.service_port) _ _ (opens _ (λ s h. h)) (Keeps-pure false))
          (Keeps-pure true))
        (λ b.
          Keeps-if b _ _
            (Keeps-if config.http_responder_enable _ _
              (Keeps-if (listens config.http_responder_port) _ _ (opens _ (λ s h. h))
                (Keeps-pure false))
              (Keeps-pure true))
            (Keeps-pure false))

  abbrev pub HasDropped : State S → Type 0
  HasDropped s = IsDropped os uid gid config.service_user s.process

  HasDropped-IsAside : IsAside HasDropped
  unfolding stop stop_servers
  HasDropped-IsAside = record {
    stops = λ s h. h;
    ticks = λ s n h. h;
    stores = λ s u h. h;
    ends = λ s h. h;
  }

  module _ (unix : IsUnix os uid gid) where
    on_process-HasDropped :
        Triple HasStore
          (on_process (drop_privileges os config.service_user))
          (λ _. HasDropped)
          HasStore
    unfolding HasStore
    on_process-HasDropped = record {
      holds = λ s h.
          on_state _ _ (drop_privileges os config.service_user s.process).0 _ h
            ((drop_privileges-IsDropped os uid gid unix config.service_user).holds s.process tt);
    }

    -- The database is still the one that the run started with, or the privileges have been dropped.
    abbrev pub IsSafe : State S → Type 0
    IsSafe s = (s.store ≡ t) ⊎ HasDropped s

    run_unix-IsSafe :
        (listens : ℤ → Bool) (source : Source) (ts : List Turn)
        → config.is_foreground ≡ false
        → Triple
            (λ s. s.store ≡ t)
            (run_unix config os listens source ts)
            (λ p s. ((p ≡ exited) × (s.store ≡ t)) ⊎ HasDropped s)
            IsSafe
    unfolding run_unix HasStore
    run_unix-IsSafe listens source ts e =
        Triple-bind (λ b s. HasStore s) _ _
          (Triple-weaken _ (λ a s h. h) (λ s h. inl h)
            (Triple-keeps HasStore _ (run_servers-Keeps listens)))
          (λ b.
            Triple-if b _ _
              (λ h.
                Triple-then HasDropped _ _
                  (rw e (Triple-weaken _ (λ a s h. h) (λ s h. inl h) on_process-HasDropped))
                  (Triple-weaken _ (λ a s h. inr h) (λ s h. inr h)
                    (Triple-keeps HasDropped _
                      (run-Keeps config HasDropped HasDropped-IsAside source ts))))
              (λ h. Triple-pure exited (λ s k. inl (refl, k))))

module _ {S : Type 0} (config : Config) (os : Os S) (uid gid : S → ℕ) (unix : IsUnix os uid gid)
    (listens : ℤ → Bool) (source : Source) (ts : List Turn) (s : State S) where
  -- Not in the foreground, the privileges are dropped before the updater is run: where the run
  -- waits or is finished, the process has the ids of the service's user, which are not 0, and cannot
  -- set them back to 0; where it ends with _exit(0) or an exception, the process has those or the
  -- database is as it was.
  pub run_unix-drops :
      config.is_foreground ≡ false
      → Outcome
          (λ p u.
            ((p ≡ exited) × (u.store ≡ s.store))
            ⊎ IsDropped os uid gid config.service_user u.process)
          (λ u. (u.store ≡ s.store) ⊎ IsDropped os uid gid config.service_user u.process)
          (run_unix config os listens source ts s).0
          (run_unix config os listens source ts s).1
  run_unix-drops e =
      (run_unix-IsSafe config os uid gid s.store unix listens source ts e).holds s refl
