-- ===== src/Tests/Rounds.antt =====
-- One round of the program's loop, requests over HTTP, and a sequence of management commands.
use dbl_service.Prelude.{
  arith, select, eqb, ◌≡◌, refl, true, false, any, contains, Option, none, some, List, [], ◌∷◌,
  lookup, ◌==◌, if◌then◌else◌,
}
use dbl_service.Fallible.{ok}
use dbl_service.Validator.{is_valid}
use dbl_service.Storage.Session.{healthy}
use dbl_service.Storage.Statements.{id_of}
use dbl_service.Config.{Config, unix_config}
use dbl_service.Options.{Variables, Parser, notify, has_help, get_flag}
use dbl_service.Options.Table.{flag, text, texts}
use dbl_service.Options.Groups.{all_options}
use dbl_service.Storage.Statements.{select_blocked, count_active}
use dbl_service.Storage.Integrity.Queries.{has_domain}
use dbl_service.Main.Requests.{parse_options, management_request}
use dbl_service.Main.Reporting.{counted_status, with_status, status-reports}
use dbl_service.Json.Convert.{status_from_json}
use dbl_service.Service.Handlers.{handle_status}
use dbl_service.Tests.Client.{sample_IsLawful}
use dbl_service.Tests.Lists.{sample_HasItems}
use dbl_service.Main.Blocking.{main-blocks}
use dbl_service.Daemon
use dbl_service.Daemon.{sigterm, exited, save_pidfile, start_dns_proxy}
use dbl_service.Main.{fill_status, set_up, loop, main}
use dbl_service.Main.Setting.{
  init_status, Uname, new_status, Machine, Round, State, master, returned,
}
use dbl_service.Main.Looping.{loop-master}
use dbl_service.Http.{Text}
use dbl_service.Http.Request.{Curl, CurlOption, head, set_if_modified_since, new_request}
use dbl_service.Http.Request.Fetching.{site, site-ignores_mtime}
use dbl_service.Manager.Blocking.Lists.{after}
use dbl_service.Manager.Blocking.Promise.{
  Command, block, unblock, mark, view, IsReady, perform_all, promise_all,
}
use dbl_service.Manager.Blocking.Refinement.{perform_all-refines}
use dbl_service.Tests.Sample.{
  Tree, object, none_left, sample_env, sample_connection, sample_tables, sample_json,
  sample_resolver,
}
use dbl_service.Tests.Managers.{sample_IsConsistent}
use dbl_service.Tests.Workers.{Ids, sample_os}
use dbl_service.Tests.Daemons.{sample_host, sample_network, text_host, idle_state}

abbrev sample_machine : Machine Ids
sample_machine = record {
  config = unix_config;
  options = [];
  host = sample_host;
  proxy_host = text_host;
  decimal = λ n. "53";
  show = λ o. "";
  json = sample_json;
  getaddrinfo = sample_resolver;
  os = sample_os;
  listens = λ p. true;
}

abbrev sample_round : Round
sample_round = record {
  directory_error = none;
  uname = none;
  network = sample_network;
  side = master (sigterm ∷ []) (exited 0);
}

abbrev first_state : State Ids
first_state = record {
  store = healthy sample_tables;
  status = new_status;
  process = (0, 0);
  clock = 0;
  service = idle_state;
  has_service = false;
  config_path = "";
  printed = [];
}

abbrev ready_state : State Ids
ready_state = record first_state { has_service = true }

abbrev saved_service : Daemon.State
saved_service = record idle_state { files = ("/var/run/dnsblocker/service.pid", "5") ∷ [] }

loop-master_example : (loop sample_machine (sample_round ∷ []) first_state).0 ≡ ok (returned 0)
unfolding set_up save_pidfile start_dns_proxy any lookup
loop-master_example =
    loop-master sample_machine sample_round (sigterm ∷ []) (exited 0) first_state ready_state
      saved_service refl refl refl refl refl

-- A request of one line.
abbrev pub sample_text : Text
sample_text = record {
  split = λ s. s ∷ [];
  trim = λ s. if s == " ads.example" then "ads.example" else s;
}

-- The handle keeps the options that are set, and the server answers with one header.
abbrev sample_curl : Curl (List CurlOption)
sample_curl = record {
  init = [];
  setopt = λ o h. (true, o ∷ h);
  perform = λ h. (
    record {
      failure = none;
      header_chunks = "Last-Modified: 5" ∷ [];
      body_chunks = "{}" ∷ [];
      code = 200;
    },
    h,
  );
  format_time = λ n. if eqb n 5 then "five" else "other";
}

site-ignores_mtime_example :
    let source =
      site sample_curl sample_text (λ d. some 5) sample_json sample_resolver false [] 9 in
    (source.fetch_first "http://ads.example" 5 ≡ source.fetch_first "http://ads.example" 7)
    × (source.fetch_again "http://ads.example" 5 ≡ source.fetch_again "http://ads.example" 7)
    × ((head sample_curl sample_text
          (set_if_modified_since sample_curl 5 (new_request sample_curl "http://ads.example"))).0
        ≡ (head sample_curl sample_text
            (set_if_modified_since sample_curl 7 (new_request sample_curl "http://ads.example"))).0)
site-ignores_mtime_example =
    site-ignores_mtime sample_curl sample_text (λ d. some 5) sample_json sample_resolver false [] 9
      5 7 "http://ads.example"

abbrev sample_commands : List Command
sample_commands =
    block ("ads.example" ∷ []) ∷ unblock ("track.example" ∷ []) ∷ block ("track.example" ∷ []) ∷ []

sample_IsReady : IsReady 1 2 sample_tables
unfolding id_of any
sample_IsReady = record {
  consistent = sample_IsConsistent;
  custom_id = refl;
  custom_blocks = refl;
  whitelist_id = refl;
  whitelist_allows = refl;
}

-- A domain that was unblocked cannot be blocked again.
perform_all-refines_example :
    ((perform_all sample_resolver sample_commands (healthy sample_tables)).0 ≡ ok tt)
    × (view (after (perform_all sample_resolver sample_commands) sample_tables) "track.example"
        ≡ mark false true)
unfolding promise_all contains is_valid
perform_all-refines_example =
    perform_all-refines sample_resolver sample_commands 1 2 sample_tables "track.example"
      sample_IsReady

abbrev block_new : Variables
block_new =
    ("block", texts ("new.example" ∷ []))
    ∷ ("dns-proxy", text "unbound")
    ∷ ("no-config", flag true)
    ∷ []

abbrev block_parser : Parser
block_parser = record {
  platform = some "linux";
  store_command_line = λ declared vm. ok block_new;
  store_config_file = λ declared content vm. ok vm;
  exists = λ p. false;
  read_file = λ p. none;
}

abbrev block_config : Config
block_config = notify (all_options "linux") block_new unix_config

main-blocks_example :
    let s' = main block_parser sample_machine (sample_round ∷ []) first_state in
    (s'.0 ≡ ok (returned 0)) × (has_domain "new.example" (select_blocked s'.1.store.tables) ≡ true)
unfolding parse_options has_help get_flag management_request contains is_valid
main-blocks_example =
    main-blocks ("new.example" ∷ []) [] refl block_parser sample_machine sample_round [] block_new
      block_config "new.example" 1 2 first_state sample_tables refl refl refl refl refl refl refl
      sample_IsReady

abbrev sample_uname : Option Uname
sample_uname =
    some (record { sysname = "Linux"; release = "4.1"; machine = "x86_64"; nodename = "localhost" })

status-reports_example :
    let r = fill_status sample_machine sample_uname first_state in
    (r.0 ≡ ok tt)
    × (r.1.store ≡ healthy sample_tables)
    × (v : Tree) × (handle_status
          (with_status sample_env r.1.status)
          (object none_left)
          sample_connection
        ≡ (ok v, sample_connection))
    × (status_from_json sample_json v ≡ ok (counted_status 0 sample_uname sample_tables))
unfolding init_status count_active select
status-reports_example =
    status-reports sample_env sample_IsLawful sample_HasItems sample_machine sample_uname
      first_state sample_tables sample_connection refl sample_IsConsistent
      (record { start = omega arith; lists = omega arith; blocked = omega arith })
