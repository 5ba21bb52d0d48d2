-- ===== src/Daemon/Processes.antt =====
-- src/dbl/service/unix.cxx: the master, the worker and the foreground process. The signals that the
-- master catches are those that come before waitpid() returns; the shared memory is taken to be there.
use dbl_service.Prelude.{ℕ, Bool, true, false, List, [], ◌∷◌, ◌+◌, if◌then◌else◌}
use dbl_service.Fallible.{Exec, pure, try_catch, ◌>>=◌, ◌>>◌}
use dbl_service.Worker.{Progress, waiting, finished}
use dbl_service.Worker
use dbl_service.Daemon.{
  Config, Host, State, Signal, sigint, sigterm, WaitStatus, failed, exited, killed, change, stop,
  catch_signals, save_pidfile, remove_pidfile, start_dns_proxy, stop_dns_proxy,
}

-- sig != SIGTERM && sig != SIGINT
abbrev pub is_crash : Signal → Bool
is_crash sigterm = false
is_crash sigint = false
is_crash s = true

unfoldable pub judge : WaitStatus → State → State
judge (killed sig) s = if is_crash sig then record s { signaled_exit = true } else s
judge (exited n) s = s
judge failed s = s

module _ (host : Host) (config : Config) where
  -- The try block of the master, and its catch clause: `Startup failed. disable restart`
  unfoldable pub start_up : Exec State (Unit {0})
  unfolding start_dns_proxy stop
  start_up =
      try_catch
        (do start_dns_proxy host config; change (λ s. record s { semaphore = s.semaphore + 1 }))
        (λ e. change (λ s. stop (record s { signaled_exit = true })))

  unfoldable pub process_master : List Signal → WaitStatus → Exec State (Unit {0})
  unfolding save_pidfile start_up catch_signals judge stop_dns_proxy remove_pidfile
  process_master signals status = do
    save_pidfile host config
    start_up
    change (catch_signals signals)
    change (judge status)
    stop_dns_proxy host config
    change (remove_pidfile host config)

-- How the worker's wait for the semaphore ends: timed_wait() gives true or false, or throws.
pub data Sync : Type 0 where
  posted : Sync
  timed_out : Sync
  thrown : Sync

-- The status that the worker's process leaves with, where it leaves.
pub data Leaving : Type 0 where
  running : Leaving
  status : ℕ → Leaving

abbrev pub leave_after : Progress → Leaving
leave_after waiting = running
leave_after finished = status 0
leave_after Worker.exited = status 0

module _ {W : Type 0} (run_worker : Exec W Progress) where
  unfoldable pub process_worker : Sync → Exec W Leaving
  unfolding ◌>>=◌
  process_worker posted = do p ← run_worker; pure (leave_after p)
  process_worker timed_out = pure (status 1)
  process_worker thrown = pure (status 1)

-- The handler of the foreground process sets signaled_exit; signal_stop() reaches the worker as a turn.
abbrev pub note_signal : Signal → State → State
note_signal sigterm s = record s { signaled_exit = true }
note_signal sigint s = record s { signaled_exit = true }
note_signal sig s = s

unfoldable pub note_signals : List Signal → State → State
note_signals [] s = s
note_signals (x ∷ xs) s = note_signals xs (note_signal x s)

module _ (host : Host) (config : Config) {W : Type 0} (run_worker : Exec W Progress) where
  abbrev pub on_service : {A : Type 0} → Exec State A → Exec (State × W) A
  on_service m (s, w) = let (r, s') = m s in (r, (s', w))

  abbrev pub on_worker : {A : Type 0} → Exec W A → Exec (State × W) A
  on_worker m (s, w) = let (r, w') = m w in (r, (s, w'))

  unfoldable pub process_foreground : List Signal → Exec (State × W) Progress
  unfolding start_dns_proxy note_signals stop_dns_proxy
  process_foreground signals = do
    on_service (start_dns_proxy host config)
    p ← on_worker run_worker
    on_service (change (note_signals signals))
    elim p [
      | finished ↦ do on_service (stop_dns_proxy host config); pure finished
      | waiting ↦ pure waiting
      | Worker.exited ↦ pure Worker.exited
    ]
