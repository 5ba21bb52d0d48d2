-- ===== src/Worker/Stopping.antt =====
-- The end of the worker's loop, and what it leaves of the servers.
use dbl_service.Prelude.{
  ℕ, Bool, true, false, Bool-cases, inl, inr, arith, List, [], ◌∷◌, any, if◌then◌else◌, ◌≡◌, refl,
  ◌||◌,
}
use dbl_service.Fallible.{Exec, pure, ◌>>=◌}
use dbl_service.Fallible.Keeps.{Keeps, Keeps-pure, Keeps-if, Keeps-bind, Keeps-then}
use dbl_service.Fallible.Triples.{
  Outcome, Triple, Triple-pure, Triple-if, Triple-bind, Triple-then, Triple-weaken, Triple-keeps,
}
use dbl_service.Storage.{Store}
use dbl_service.Updater
use dbl_service.Updater.{Source}
use dbl_service.Worker.{
  Config, State, Turn, Wake, timeout, notified, Progress, exited, waiting, finished, absent,
  on_store, change, is_stopping, stop, stop_servers, run_updater, wait_once, wait_loop, wake_up,
  finish, run,
}
use dbl_service.Worker.Dropping.{IsAny}

module _ {S : Type 0} {P : State S → Type 0} where
  pub Keeps-change : (f : State S → State S) → ((s : State S) → P s → P (f s)) → Keeps P (change f)
  Keeps-change f h = record { holds = h }

  Keeps-store :
      {A : Type 0} (m : Exec Store A)
      → ((s : State S) (t : Store) → P s → P (record s { store = t }))
      → Keeps P (on_store m)
  Keeps-store m h = record { holds = λ s. h s (m s.store).1 }

tail-called : (b c : Bool) → (b || c) ≡ true → b ≡ false → c ≡ true
tail-called true c h e = ground (arith, e)
tail-called false c h e = h

-- The worker has left its loop: both servers are deleted, and no thread is left.
abbrev pub IsOver : {S : Type 0} → Progress → State S → Type 0
IsOver p s = (p ≡ finished) × (s.server ≡ absent) × (s.responder ≡ absent) × (s.threads ≡ 0)

-- A condition on what the loop does not write, but for the flag.
pub record IsAside {S : Type 0} (P : State S → Type 0) : Type 0 where
  pub stops : (s : State S) → P s → P (stop s)
  pub ticks : (s : State S) (n : ℕ) → P s → P (record s { clock = n })
  pub stores : (s : State S) (t : Store) → P s → P (record s { store = t })
  pub ends : (s : State S) → P s → P (stop_servers s)

module _ {S : Type 0} (config : Config) where
  module _ (P : State S → Type 0) (aside : IsAside P) where
    run_updater-Keeps : (source : Source) → Keeps P (run_updater config source)
    unfolding run_updater
    run_updater-Keeps source =
        Keeps-if config.no_update _ _ (Keeps-pure false)
          (Keeps-store (Updater.run source) aside.stores)

    wake_up-Keeps : (w : Wake) → Keeps P (wake_up config w)
    unfolding wake_up
    wake_up-Keeps (timeout source) =
        Keeps-then P _ _ (Keeps-change _ (λ s. aside.ticks s _)) (run_updater-Keeps source)
    wake_up-Keeps (notified elapsed) =
        Keeps-then P _ _ (Keeps-change _ (λ s. aside.ticks s _)) (Keeps-pure false)

    stop-Keeps : (b : Bool) (s : State S) → P s → P (if b then stop s else s)
    stop-Keeps true s p = aside.stops s p
    stop-Keeps false s p = p

    wait_once-Keeps : (t : Turn) → Keeps P (wait_once config t)
    unfolding wait_once
    wait_once-Keeps t =
        Keeps-then P _ _ (Keeps-change _ (stop-Keeps t.stop_called)) (wake_up-Keeps t.wake)

    wait_loop-Keeps : (ts : List Turn) → Keeps P (wait_loop config ts)
    unfolding wait_loop
    wait_loop-Keeps [] =
        Keeps-bind P _ is_stopping (record { holds = λ s p. p })
          (λ b. Keeps-if b _ _ (Keeps-pure finished) (Keeps-pure waiting))
    wait_loop-Keeps (t ∷ ts) =
        Keeps-bind P _ is_stopping (record { holds = λ s p. p })
          (λ b. Keeps-if b _ _ (Keeps-pure finished) (
            Keeps-bind P _ _ (wait_once-Keeps t)
              (λ q. Keeps-if q _ _ (Keeps-pure finished) (wait_loop-Keeps ts))))

    finish-Keeps : (p : Progress) → Keeps P (finish config p)
    unfolding finish
    finish-Keeps finished = Keeps-then P _ _ (Keeps-change _ aside.ends) (Keeps-pure finished)
    finish-Keeps waiting = Keeps-pure waiting
    finish-Keeps exited = Keeps-pure exited

    pub run-Keeps : (source : Source) (ts : List Turn) → Keeps P (run config source ts)
    unfolding run
    run-Keeps source ts = Keeps-bind P _ _ (run_updater-Keeps source) (λ b.
        Keeps-bind P _ _ (Keeps-if b _ _ (Keeps-pure finished) (wait_loop-Keeps ts)) finish-Keeps)

  IsStopped : State S → Type 0
  IsStopped s = s.stop_flag ≡ true

  IsStopped-IsAside : IsAside IsStopped
  unfolding IsStopped stop stop_servers
  IsStopped-IsAside = record {
    stops = λ s h. refl;
    ticks = λ s n h. h;
    stores = λ s t h. h;
    ends = λ s h. h;
  }

  Triple-stop :
      (b : Bool)
      → b ≡ true
      → Triple IsAny (change (λ s. if b then stop s else s)) (λ _. IsStopped) IsAny
  unfolding IsStopped stop
  Triple-stop true e = record { holds = λ s h. refl }
  Triple-stop false e = record { holds = λ s h. ground (arith, e) }

  wait_once-stops :
      (t : Turn) → t.stop_called ≡ true → Triple IsAny (wait_once config t) (λ _. IsStopped) IsAny
  unfolding wait_once
  wait_once-stops t e = Triple-then IsStopped _ _ (Triple-stop t.stop_called e) (
      Triple-weaken _ (λ a s h. h) (λ s h. tt)
        (Triple-keeps IsStopped _ (wake_up-Keeps IsStopped IsStopped-IsAside t.wake)))

  IsFinished : Progress → State S → Type 0
  IsFinished p s = p ≡ finished

  IsStopped-ends : (ts : List Turn) → Triple IsStopped (wait_loop config ts) IsFinished IsAny
  unfolding wait_loop IsStopped IsFinished ◌>>=◌ pure
  IsStopped-ends [] = record { holds = λ s h. rw h refl }
  IsStopped-ends (t ∷ ts) = record { holds = λ s h. rw h refl }

  wait_loop-ends :
      (ts : List Turn)
      → any (λ t. t.stop_called) ts ≡ true
      → Triple IsAny (wait_loop config ts) IsFinished IsAny
  unfolding wait_loop any IsFinished
  wait_loop-ends [] h = ground (arith, h)
  wait_loop-ends (t ∷ ts) h =
      Triple-bind (λ _. IsAny) is_stopping _ (record { holds = λ s q. tt })
        (λ b.
          Triple-if b _ _ (λ e. Triple-pure finished (λ s q. refl))
            (λ e. elim (Bool-cases t.stop_called) [
              | inl c ↦
                  Triple-bind (λ _. IsStopped) _ _ (wait_once-stops t c)
                    (λ q.
                      Triple-if q _ _ (λ e. Triple-pure finished (λ s q. refl))
                        (λ e. IsStopped-ends ts))
              | inr c ↦
                  Triple-bind (λ _. IsAny) _ _ (Triple-keeps IsAny _ (record { holds = λ s q. tt }))
                    (λ q.
                      Triple-if q _ _ (λ e. Triple-pure finished (λ s q. refl))
                        (λ e. wait_loop-ends ts (tail-called t.stop_called _ h c)))
            ]))

  finish-IsOver : (p : Progress) → Triple (IsFinished p) (finish config p) IsOver IsAny
  unfolding finish IsFinished stop_servers
  finish-IsOver finished =
      Triple-then (λ s. (s.server ≡ absent) × (s.responder ≡ absent) × (s.threads ≡ 0)) _ _
        (record { holds = λ s h. (refl, refl, refl) })
        (Triple-pure finished (λ s h. (refl, h.0, h.1, h.2)))
  finish-IsOver waiting = record { holds = λ s h. cc }
  finish-IsOver exited = record { holds = λ s h. cc }

  run-IsOver :
      (source : Source) (ts : List Turn)
      → any (λ t. t.stop_called) ts ≡ true
      → Triple IsAny (run {S = S} config source ts) IsOver IsAny
  unfolding run IsFinished
  run-IsOver source ts h =
      Triple-bind (λ _. IsAny) _ _ (Triple-keeps IsAny _ (record { holds = λ s q. tt }))
        (λ b.
          Triple-bind IsFinished _ _
            (Triple-if b _ _ (λ e. Triple-pure finished (λ s q. refl)) (λ e. wait_loop-ends ts h))
            finish-IsOver)

  -- Once stop() is called during some wait, the run is over when that wait ends, if not before: it
  -- returns, unless an update throws, and then both servers are deleted and no thread is left.
  pub run-stops :
      (source : Source) (ts : List Turn) (s : State S)
      → any (λ t. t.stop_called) ts ≡ true
      → Outcome IsOver IsAny (run config source ts s).0 (run config source ts s).1
  run-stops source ts s h = (run-IsOver source ts h).holds s tt
