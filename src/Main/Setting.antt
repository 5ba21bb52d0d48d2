-- ===== src/Main/Setting.antt =====
-- What main.cxx works on: the machine and its configuration, the state, a round of the loop, and actions of the parts
-- of the program as actions on that state.
use Prim.Native.String.{◌++◌}
use dbl_service.Prelude.{
  ℕ, String, Bool, true, false, Option, none, some, List, [], ◌∷◌, if◌then◌else◌, put,
}
use dbl_service.Prelude.Integers.{ℤ}
use dbl_service.Fallible.{ok, Exec}
use dbl_service.Config.{Config}
use dbl_service.Validator.{Resolution}
use dbl_service.Json.{Json}
use dbl_service.Json.Convert.{Status}
use dbl_service.Storage.{Store}
use dbl_service.Updater.{Source}
use dbl_service.Options.{Variables}
use dbl_service.Network.{Network}
use dbl_service.DnsProxy
use dbl_service.DnsProxy.{Proxy}
use dbl_service.Worker
use dbl_service.Worker.{Turn, Progress, waiting, finished, absent, run_unix}
use dbl_service.Worker.Privileges.{Os}
use dbl_service.Daemon
use dbl_service.Daemon.{Signal, WaitStatus, is_already_running}
use dbl_service.Daemon.Processes.{Sync}

-- The process that is followed after run() has forked, and what reaches it; or the foreground process.
pub data Side : Type 1 where
  foreground : Source → List Turn → List Signal → Side
  not_forked : Side
  worker : Sync → Source → List Turn → Side
  master : List Signal → WaitStatus → Side

-- The fields of struct utsname that are read.
pub record Uname : Type 0 where
  pub sysname : String
  pub release : String
  pub machine : String
  pub nodename : String

-- The error of creating the directory of the database, what uname() gives, the network, and the process.
pub record Round : Type 1 where
  pub directory_error : Option String
  pub uname : Option Uname
  pub network : Network
  pub side : Side

-- The configuration, the options, and the libraries.
pub record Machine (S : Type 0) : Type 1 where
  pub config : Config
  pub options : Variables
  pub host : Daemon.Host
  pub proxy_host : DnsProxy.Host
  pub decimal : ℤ → String
  pub show : Option String → String
  pub json : Json
  pub getaddrinfo : String → Resolution
  pub os : Os S
  pub listens : ℤ → Bool

-- The database, api's status, the process, the clock, what the service writes, whether service_ptr is set, its
-- config_file_path_, and the lines written to the terminal.
pub record State (S : Type 0) : Type 0 where
  pub store : Store
  pub status : Status
  pub process : S
  pub clock : ℕ
  pub service : Daemon.State
  pub has_service : Bool
  pub config_path : String
  pub printed : List String

-- The program has ended with a status, or the loop goes on, or the process is still in run().
pub data Step : Type 0 where
  returned : ℕ → Step
  next : Step
  inside : Step

-- EXIT_SUCCESS and EXIT_FAILURE
abbrev pub exit_status : Bool → Step
exit_status true = returned 0
exit_status false = returned 1

abbrev pub unlines : List String → String
unlines [] = ""
unlines (l ∷ ls) = l ++ "\n" ++ unlines ls

-- The status of a new core::Api; its start_tstamp is not initialized, and written before it is read.
abbrev pub new_status : Status
new_status = record {
  start_tstamp = 0;
  os = "";
  nodename = "";
  version = "";
  total_lists = 0;
  total_blocked_domains = 0;
}

-- Status::init, given time(nullptr) and uname()
unfoldable pub init_status : ℕ → Option Uname → Status → Status
init_status now none s = record s { start_tstamp = now; version = "0.0.1" }
init_status now (some u) s = record s {
  start_tstamp = now;
  version = "0.0.1";
  os = u.sysname ++ " " ++ u.release ++ " " ++ u.machine;
  nodename = s.nodename ++ u.nodename ++ " ";
}

module _ {S : Type 0} where
  abbrev pub change : (State S → State S) → Exec (State S) (Unit {0})
  change f s = (ok tt, f s)

  abbrev pub on_store : {A : Type 0} → Exec Store A → Exec (State S) A
  on_store m s = let (r, t) = m s.store in (r, record s { store = t })

  abbrev pub on_service : {A : Type 0} → Exec Daemon.State A → Exec (State S) A
  on_service m s = let (r, d) = m s.service in (r, record s { service = d })

  -- A new worker, on the process and the database.
  abbrev pub new_worker : State S → Worker.State S
  new_worker s = record {
    store = s.store;
    stop_flag = false;
    server = absent;
    responder = absent;
    threads = 0;
    process = s.process;
    clock = s.clock;
  }

  abbrev pub after_worker : Worker.State S → State S → State S
  after_worker w s = record s { store = w.store; process = w.process; clock = w.clock }

  abbrev pub on_worker : {A : Type 0} → Exec (Worker.State S) A → Exec (State S) A
  on_worker m s = let (r, w) = m (new_worker s) in (r, after_worker w s)

  abbrev pub on_both : {A : Type 0} → Exec (Daemon.State × Worker.State S) A → Exec (State S) A
  on_both m s =
      let (r, (d, w)) = m (s.service, new_worker s) in
      (r, after_worker w (record s { service = d }))

  -- A new service: system_proxy_was_running_ is false, and the semaphore, which run() creates, is 0.
  abbrev pub new_service : State S → State S
  new_service s = record s {
    service = record s.service { system_proxy_was_running = false; semaphore = 0 };
    has_service = true;
    config_path = "";
  }

  -- The generated file is written, and config_file_path_ set.
  unfoldable pub write_files : List (String × List String) → State S → State S
  unfolding put
  write_files [] s = s
  write_files ((path, lines) ∷ more) s = write_files more (record s {
    service = record s.service { files = put path (unlines lines) s.service.files };
    config_path = path;
  })

  -- if(service_ptr) service_ptr->stop()
  unfoldable pub stop_service : State S → State S
  unfolding Daemon.stop
  stop_service s = if s.has_service then record s { service = Daemon.stop s.service } else s
