-- ===== src/Worker.antt =====
-- src/dbl/service/worker: the servers, the loop that waits for the next update, and its end. A wait
-- on the condition variable is a turn, which says what happened meanwhile. The site, the sockets and
-- the users of the operating system are parameters.
pub mod Privileges
pub mod Dropping
pub mod Stopping
pub mod Safety
use dbl_service.Prelude.{ℕ, String, Bool, true, false, List, [], ◌∷◌, ltb, if◌then◌else◌, ◌+◌}
use dbl_service.Prelude.Integers.{ℤ, pos, negsuc, is_positive}
use dbl_service.Fallible.{Result, ok, err, Exec, pure, throw, ◌>>=◌, ◌>>◌}
use dbl_service.Storage.{Store}
use dbl_service.Updater
use dbl_service.Updater.{Source}
use dbl_service.Worker.Privileges.{Os, drop_privileges}

-- The fields of config::Config that are read here.
pub record Config : Type 0 where
  pub update_interval : ℤ
  pub no_update : Bool
  pub service_port : ℤ
  pub http_responder_enable : Bool
  pub http_responder_port : ℤ
  pub is_foreground : Bool
  pub service_user : String

-- What server_ptr_ and http_responder_ptr_ point to.
pub data Listener : Type 0 where
  absent : Listener
  running : Listener
  stopped : Listener

-- The database, the members of Worker, the ids of the process, and the clock.
pub record State (S : Type 0) : Type 0 where
  pub store : Store
  pub stop_flag : Bool
  pub server : Listener
  pub responder : Listener
  pub threads : ℕ
  pub process : S
  pub clock : ℕ

-- How a wait ends: after the interval, with what the site then answers; or notified, some seconds later.
pub data Wake : Type 1 where
  timeout : Source → Wake
  notified : ℕ → Wake

-- One wait, and whether stop() was called since the loop tested the flag.
pub record Turn : Type 1 where
  pub stop_called : Bool
  pub wake : Wake

-- Where run() stands when no further turn is known.
pub data Progress : Type 0 where
  exited : Progress
  waiting : Progress
  finished : Progress

-- update_interval > min_intval ? update_interval : min_intval
unfoldable pub interval : ℤ → ℕ
interval (pos n) = if ltb 3600 n then n else 3600
interval (negsuc n) = 3600

abbrev pub stop_listener : Listener → Listener
stop_listener running = stopped
stop_listener l = l

module _ {S : Type 0} where
  abbrev pub on_store : {A : Type 0} → Exec Store A → Exec (State S) A
  on_store m s = let (r, t) = m s.store in (r, record s { store = t })

  abbrev pub on_process : {A : Type 0} → Exec S A → Exec (State S) A
  on_process m s = let (r, p) = m s.process in (r, record s { process = p })

  abbrev pub change : (State S → State S) → Exec (State S) (Unit {0})
  change f s = (ok tt, f s)

  -- stop_flag_
  abbrev pub is_stopping : Exec (State S) Bool
  is_stopping s = (ok s.stop_flag, s)

  -- Worker::stop()
  unfoldable pub stop : State S → State S
  stop s = record s { stop_flag = true }

  -- Every server is stopped, its thread joined, and the server deleted.
  unfoldable pub stop_servers : State S → State S
  stop_servers s =
      let asked = record s {
        server = stop_listener s.server;
        responder = stop_listener s.responder;
      } in
      let joined = record asked { threads = 0 } in
      record joined { server = absent; responder = absent }

  module _ (config : Config) where
    -- Whether an update is ready.
    unfoldable pub run_updater : Source → Exec (State S) Bool
    unfolding Updater.run
    run_updater source = if config.no_update then pure false else on_store (Updater.run source)

    unfoldable pub wake_up : Wake → Exec (State S) Bool
    unfolding run_updater interval
    wake_up (timeout source) = do
      change (λ s. record s { clock = s.clock + interval config.update_interval })
      run_updater source
    wake_up (notified elapsed) = do change (λ s. record s { clock = s.clock + elapsed }); pure false

    -- The body of the loop: whether it is left.
    unfoldable pub wait_once : Turn → Exec (State S) Bool
    unfolding stop wake_up
    wait_once t = do change (λ s. if t.stop_called then stop s else s); wake_up t.wake

    -- while(!stop_flag_)
    unfoldable pub wait_loop : List Turn → Exec (State S) Progress
    unfolding wait_once
    wait_loop [] = do stopping ← is_stopping; if stopping then pure finished else pure waiting
    wait_loop (t ∷ ts) =
        let rest = wait_loop ts in
        (do
          stopping ← is_stopping
          if stopping
              then pure finished
              else (do quit ← wait_once t; if quit then pure finished else rest))

    unfoldable pub finish : Progress → Exec (State S) Progress
    unfolding stop_servers
    finish finished = do change stop_servers; pure finished
    finish p = pure p

    -- Worker::run: the update at the start, the loop, and the end of the servers
    unfoldable pub run : Source → List Turn → Exec (State S) Progress
    unfolding run_updater wait_loop finish
    run source ts = do
      updated ← run_updater source
      p ← if updated then pure finished else wait_loop ts
      finish p

    -- Worker::run_servers: false where the process leaves with _exit(0). The parameter says
    -- whether a server can listen on a port.
    unfoldable pub run_servers : (ℤ → Bool) → Exec (State S) Bool
    run_servers listens = do
      opened ←
          if is_positive config.service_port
          then (if listens config.service_port
              then (do
                change (λ s. record s { server = running; threads = s.threads + 1 })
                pure true)
              else pure false)
          else pure true
      if opened
          then (if config.http_responder_enable
              then (if listens config.http_responder_port
                  then (do
                    change (λ s. record s { responder = running; threads = s.threads + 1 })
                    pure true)
                  else pure false)
              else pure true)
          else pure false

    -- Unix::run
    unfoldable pub run_unix : Os S → (ℤ → Bool) → Source → List Turn → Exec (State S) Progress
    unfolding drop_privileges run_servers run
    run_unix os listens source ts = do
      opened ← run_servers listens
      if opened
          then (do
            if config.is_foreground
                then pure tt
                else on_process (drop_privileges os config.service_user)
            run source ts)
          else pure exited
