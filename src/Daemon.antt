-- ===== src/Daemon.antt =====
-- src/dbl/service/unix.cxx: the pid file, the start and the stop of the DNS proxy, and the processes of the
-- service. The commands given to the shell are kept in order; what a command does is a parameter,
-- as are the file system's directories, kill(), and how waitpid() ends.
pub mod Commands
pub mod Processes
pub mod Starting
pub mod Returns
pub mod Ending
use Prim.Native.String.{◌++◌}
use dbl_service.Prelude.{
  ℕ, zero, suc, String, Bool, true, false, ◌||◌, not, Option, none, some, List, [], ◌∷◌, ◌==◌,
  if◌then◌else◌, ◌+◌, Assoc, lookup, put, without,
}
use dbl_service.Prelude.Integers.{ℤ, pos, negsuc, is_positive, is_negative, equals}
use dbl_service.Fallible.{
  Error, Result, ok, err, runtime_error, Exec, pure, throw, try_catch, ◌>>=◌, ◌>>◌,
}
use dbl_service.Fallible.Results.{lift}
use dbl_service.Network
use dbl_service.Network.{get_proxy_executable_name, find_proxy_executable}

-- The fields of config::Config that are read here, the configurator's, and get_config_path() of the proxy.
pub record Config : Type 0 where
  pub network : Network.Config
  pub service_pidfile : String
  pub no_system_dns_proxy : Bool
  pub dns_proxy_generate_config : Bool
  pub proxy_config_path : String

-- What a command prints if its status is 0, given the commands before it, the last one first; trim()
-- and atoi(); the parent of a path; whether it is a directory, and the error of creating it; whether a
-- file can be opened for writing; whether kill(pid, 0) returns 0; getpid() as text; whether
-- stat() finds a file that its owner may run; whether unlink() removes a file.
pub record Host : Type 0 where
  pub shell : List String → String → Option String
  pub trim : String → String
  pub atoi : String → ℤ
  pub parent_path : String → String
  pub is_directory : String → Bool
  pub create_directories : String → Option String
  pub can_write : String → Bool
  pub is_alive : ℤ → Bool
  pub getpid : String
  pub is_executable : String → Bool
  pub unlinks : String → Bool

-- The commands that were run, the files written here, signaled_exit, system_proxy_was_running_, the value of
-- the semaphore, and how often the worker was sent SIGTERM.
pub record State : Type 0 where
  pub commands : List String
  pub files : Assoc String
  pub signaled_exit : Bool
  pub system_proxy_was_running : Bool
  pub semaphore : ℕ
  pub terminations : ℕ

pub data Signal : Type 0 where
  sighup : Signal
  sigint : Signal
  sigterm : Signal
  other : ℕ → Signal

-- waitpid() fails, which it does when a signal is caught; or the worker has exited, or been killed.
pub data WaitStatus : Type 0 where
  failed : WaitStatus
  exited : ℕ → WaitStatus
  killed : Signal → WaitStatus

abbrev pub change : (State → State) → Exec State (Unit {0})
change f s = (ok tt, f s)

-- kill(worker_pid_, SIGTERM), whose failure is only logged
unfoldable pub stop : State → State
stop s = record s { terminations = s.terminations + 1 }

-- act.sa_sigaction of setup_master_signals
unfoldable pub catch_signal : Signal → State → State
unfolding stop
catch_signal sighup s = stop s
catch_signal sigint s = stop (record s { signaled_exit = true })
catch_signal sigterm s = stop (record s { signaled_exit = true })
catch_signal (other n) s = s

unfoldable pub catch_signals : List Signal → State → State
unfolding catch_signal
catch_signals [] s = s
catch_signals (x ∷ xs) s = catch_signals xs (catch_signal x s)

abbrev pub succeeded : Option String → Bool
succeeded none = false
succeeded (some output) = true

unfoldable pub rc_commands : String → String → List String
rc_commands proxy action =
    ("/usr/sbin/service " ++ proxy ++ " " ++ action)
    ∷ ("/etc/init.d/" ++ proxy ++ " " ++ action)
    ∷ ("/etc/rc.d/" ++ proxy ++ " " ++ action)
    ∷ ("/usr/local/etc/rc.d/" ++ proxy ++ " " ++ action)
    ∷ ("/usr/sbin/systemctl " ++ action ++ " " ++ proxy)
    ∷ []

abbrev pub created : Option String → Exec State (Unit {0})
created none = pure tt
created (some message) = throw (runtime_error message)

-- unlink(), whose result is ignored or only logged
unfoldable pub unlink : Host → String → State → State
unlink host path s = if host.unlinks path then record s { files = without path s.files } else s

unfoldable pub remove_pidfile : Host → Config → State → State
unfolding unlink
remove_pidfile host config = unlink host config.service_pidfile

-- The generated configuration
unfoldable pub remove_config : Host → Config → State → State
unfolding unlink
remove_config host config s =
    if config.dns_proxy_generate_config then unlink host config.proxy_config_path s else s

module _ (host : Host) where
  -- system(), or sys::run_command()
  unfoldable pub command : String → Exec State (Option String)
  command c s = (ok (host.shell s.commands c), record s { commands = c ∷ s.commands })

  abbrev pub pid_of_output : Option String → ℤ
  pid_of_output none = negsuc 0
  pid_of_output (some output) = host.atoi (host.trim output)

  -- pidof_bin_ is what find_executable finds when the service is created.
  unfoldable pub get_pid_of : String → Exec State ℤ
  unfolding command Network.find_executable
  get_pid_of program = do
    output ← command (Network.find_executable host.is_executable "pidof" ++ " " ++ program)
    pure (pid_of_output output)

  unfoldable pub run_first : List String → Exec State Bool
  unfolding command
  run_first [] = pure false
  run_first (c ∷ cs) =
      let rest = run_first cs in
      (do output ← command c; if succeeded output then pure true else rest)

  -- while(new_pid < 1 && wait_counter)
  unfoldable pub wait_for_pid : ℕ → String → ℤ → Exec State ℤ
  unfolding get_pid_of
  wait_for_pid zero program pid = pure pid
  wait_for_pid (suc n) program pid =
      let again = wait_for_pid n program in
      if is_positive pid then pure pid else (do new_pid ← get_pid_of program; again new_pid)

  -- `ifh >> pid` is taken to read what atoi() reads.
  unfoldable pub is_already_running : Config → State → Bool
  is_already_running config s = elim (lookup config.service_pidfile s.files) [
    | none ↦ false
    | some content ↦ host.is_alive (host.atoi content)
  ]

  unfoldable pub save_pidfile : Config → Exec State (Unit {0})
  unfolding ◌>>=◌ without put
  save_pidfile config =
      let path = config.service_pidfile in
      let parent = host.parent_path path in
      (do
        if host.is_directory parent then pure tt else created (host.create_directories parent)
        change (λ s. record s { files = without path s.files })
        if host.can_write path
            then change (λ s. record s { files = put path host.getpid s.files })
            else throw (runtime_error "Unable to write pid file."))

  module _ (config : Config) where
    unfoldable pub run_rc : String → Exec State Bool
    unfolding run_first rc_commands
    run_rc action = run_first (rc_commands config.network.dns_proxy action)

    abbrev pub not_started : Exec State (Unit {0})
    not_started = throw (runtime_error ("Unable to start service: " ++ config.network.dns_proxy))

    unfoldable pub start_system_proxy : String → Exec State (Unit {0})
    unfolding get_pid_of run_rc wait_for_pid
    start_system_proxy program = do
      current_pid ← get_pid_of program
      change (λ s. record s { system_proxy_was_running = is_positive current_pid })
      success ← run_rc "restart"
      if success
          then (do
            first_pid ← get_pid_of program
            new_pid ← wait_for_pid 30 program first_pid
            if equals new_pid current_pid || is_negative new_pid then not_started else pure tt)
          else throw (runtime_error "Unable to start system dns proxy service")

    unfoldable pub start_own_proxy : String → Exec State (Unit {0})
    unfolding command
    start_own_proxy executable =
        if executable == ""
        then throw (runtime_error "Unable to find dns proxy executable")
        else (do
          output ← command (executable ++ " -v " ++ " -c " ++ config.proxy_config_path)
          if succeeded output
              then pure tt
              else throw (
                  runtime_error (
                    "Unable to start dns proxy. Command: " ++ executable ++ " -v " ++ " -c "
                    ++ config.proxy_config_path)))

    unfoldable pub start_dns_proxy : Exec State (Unit {0})
    unfolding start_system_proxy start_own_proxy get_proxy_executable_name find_proxy_executable
        lift
    start_dns_proxy =
        if config.no_system_dns_proxy
        then (do
          executable ← lift (find_proxy_executable config.network host.is_executable)
          start_own_proxy executable)
        else (do
          program ← lift (get_proxy_executable_name config.network)
          start_system_proxy program)

    unfoldable pub stop_dns_proxy : Exec State (Unit {0})
    unfolding run_rc remove_config ◌>>=◌
    stop_dns_proxy s =
        (do done ← run_rc (if s.system_proxy_was_running then "restart" else "stop"); pure tt)
          (remove_config host config s)
