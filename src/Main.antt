-- ===== src/Main.antt =====
-- src/dbl/main.cxx: the options, and the loop that starts the service again until it is told to stop. What
-- --help and --debug print of the options is left out. A round says what the calls of the system do in one turn of the loop, and which process is followed.
pub mod Parts
pub mod Setting
pub mod Requests
pub mod Blocking
pub mod Reporting
pub mod Looping
use Prim.Native.String.{◌++◌}
use dbl_service.Prelude.{
  ℕ, String, Bool, true, false, not, Option, none, some, List, [], ◌∷◌, ◌==◌, if◌then◌else◌, put,
  lookup,
}
use dbl_service.Prelude.Integers.{ℤ}
use dbl_service.Fallible.{
  Error, Result, ok, err, runtime_error, Exec, pure, throw, try_catch_any, ◌>>=◌, ◌>>◌,
}
use dbl_service.Fallible.Results.{lift}
use dbl_service.Config.{Config}
use dbl_service.Validator.{Resolution}
use dbl_service.Json.{Json}
use dbl_service.Storage.{Store}
use dbl_service.Storage.Session.{init}
use dbl_service.Manager.Domains.{count_blocked}
use dbl_service.Manager.DomainLists.{count}
use dbl_service.Updater.{Source}
use dbl_service.Mgmt
use dbl_service.Query
use dbl_service.Network
use dbl_service.Network.{Network}
use dbl_service.DnsProxy
use dbl_service.DnsProxy.{Proxy}
use dbl_service.DnsProxy.Lines.{create_config}
use dbl_service.Worker
use dbl_service.Worker.{Turn, Progress, waiting, finished, absent, run_unix}
use dbl_service.Worker.Privileges.{Os}
use dbl_service.Daemon
use dbl_service.Daemon.{Signal, WaitStatus, is_already_running}
use dbl_service.Daemon.Processes.{
  Sync, Leaving, running, status, process_master, process_worker, process_foreground,
}
use dbl_service.Options.{Variables, Parser, has_help, get_flag}
use dbl_service.Main.Requests.{parse_options, query_request, management_request}
use dbl_service.Main.Parts.{worker_config, network_config, daemon_config, proxy_config}
use dbl_service.Main.Setting.{
  Side, Uname, new_status, init_status, foreground, not_forked, worker, master, Round, Machine,
  State, Step, returned, next, inside, exit_status, change, on_store, on_service, on_worker,
  on_both, new_service, write_files, stop_service,
}

module _ {S : Type 0} where
  module _ (machine : Machine S) where
    open machine use {config, host}

    abbrev pub print_and_return : Exec Store (Bool × List String) → Exec (State S) Step
    print_and_return m = do
      result ← on_store m
      change (λ s. record s { printed = result.1 })
      pure (exit_status result.0)

    -- Service::configure(), on the service's dns_proxy_
    unfoldable pub configure : Network → Proxy → Exec (State S) (Unit {0})
    unfolding Network.configure create_config lift write_files
    configure net proxy = do
      configured ← lift (Network.configure (network_config config) net proxy)
      generated ←
          on_store
            (create_config machine.proxy_host (proxy_config machine.decimal config) configured)
      change (write_files generated.0)
      lift generated.1

    abbrev pub is_running : Exec (State S) Bool
    unfolding is_already_running
    is_running s = (ok (is_already_running host (daemon_config config s.config_path) s.service), s)

    -- service_ptr.reset(new ServiceImplementation_t(api)) and what follows it in the try block
    unfoldable pub begin : Network → Exec (State S) Step
    unfolding DnsProxy.create lift is_running configure
    begin net = do
      proxy ← lift (DnsProxy.create machine.proxy_host (proxy_config machine.decimal config))
      change new_service
      already ← is_running
      if already then pure (returned 1) else (do configure net proxy; pure next)

    unfoldable pub query : Query.Request → Exec (State S) Step
    unfolding Query.run
    query request = print_and_return (Query.run machine.show request)

    unfoldable pub manage : Mgmt.Request → Network → Exec (State S) Step
    unfolding Mgmt.manage Mgmt.has_work begin
    manage request net =
        if Mgmt.has_work request
        then print_and_return (Mgmt.manage machine.json machine.getaddrinfo request)
        else begin net

    -- The try block and its catch clauses, of which the first is for the directory.
    unfoldable pub set_up : Round → Exec (State S) Step
    unfolding init get_flag query_request management_request query manage stop_service lift
    set_up round = elim round.directory_error [
      | some message ↦ pure (returned 1)
      | none ↦
          try_catch_any
            (do
              on_store (init 5)
              queried ← lift (get_flag "query" machine.options)
              if queried
                  then (do request ← lift (query_request machine.options); query request)
                  else (do
                    request ← lift (management_request config machine.options)
                    manage request round.network))
            (λ e. do change stop_service; pure (returned 1))
    ]

    abbrev pub after_progress : Progress → Step
    after_progress finished = next
    after_progress waiting = inside
    after_progress Worker.exited = returned 0

    abbrev pub after_leaving : Leaving → Step
    after_leaving (status n) = returned n
    after_leaving running = inside

    -- Service::run()
    unfoldable pub run_service : Side → String → Exec (State S) Step
    unfolding process_foreground process_worker process_master run_unix
    run_service (foreground source turns signals) path = do
      p ← on_both (
          process_foreground host (daemon_config config path)
            (run_unix (worker_config config) machine.os machine.listens source turns) signals)
      pure (after_progress p)
    run_service not_forked path = throw (runtime_error "Daemonizing failed")
    run_service (worker sync source turns) path = do
      l ← on_worker (
          process_worker (run_unix (worker_config config) machine.os machine.listens source turns)
            sync)
      pure (after_leaving l)
    run_service (master signals ended) path = do
      on_service (process_master host (daemon_config config path) signals ended)
      pure next

    -- Filling api's status, which a new api has empty.
    unfoldable pub fill_status : Option Uname → Exec (State S) (Unit {0})
    unfolding init_status
    fill_status uname = do
      change (λ s. record s { status = init_status s.clock uname new_status })
      total_lists ← on_store count
      change (λ s. record s { status = record s.status { total_lists = total_lists } })
      total_blocked_domains ← on_store count_blocked
      change (λ s. record s {
        status = record s.status { total_blocked_domains = total_blocked_domains };
      })

    -- The status, and run().
    unfoldable pub run_counted : Round → Exec (State S) Step
    unfolding fill_status run_service
    run_counted round = do fill_status round.uname; λ s. run_service round.side s.config_path s

    abbrev pub goes_on : Step → Bool
    goes_on next = true
    goes_on s = false

    -- One turn of the loop; api, db and service_ptr are reset at its end.
    unfoldable pub turn : Round → Exec (State S) Step
    unfolding set_up run_counted
    turn round = do
      ready ← set_up round
      if goes_on ready
          then (do
            step ← if config.is_test then pure next else run_counted round
            change (λ s. if goes_on step then record s { has_service = false } else s)
            pure step)
          else pure ready

    abbrev pub is_exiting : Exec (State S) Bool
    is_exiting s = (ok s.service.signaled_exit, s)

    -- while(!Service::signaled_exit); `next` where more rounds follow
    unfoldable pub loop : List Round → Exec (State S) Step
    unfolding turn
    loop [] = do exiting ← is_exiting; if exiting then pure (returned 0) else pure next
    loop (round ∷ rounds) =
        let rest = loop rounds in
        (do
          exiting ← is_exiting
          if exiting
              then pure (returned 0)
              else (do step ← turn round; if goes_on step then rest else pure step))

module _ {S : Type 0} (parser : Parser) (machine : Machine S) where
  abbrev pub after_options : List Round → Result (Variables × Config) → Exec (State S) Step
  after_options rounds (err e) = pure (returned 1)
  after_options rounds (ok (vm, config)) =
      if has_help vm
      then pure (returned 0)
      else loop (record machine { config = config; options = vm }) rounds

  -- main(): the configuration and the options of the machine are those that are parsed.
  unfoldable pub main : List Round → Exec (State S) Step
  unfolding parse_options has_help loop
  main rounds = after_options rounds (parse_options parser machine.proxy_host.to_lower)
