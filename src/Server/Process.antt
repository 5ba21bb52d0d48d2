-- ===== src/Server/Process.antt =====
-- What runs in the worker process beside each other: the management server, the HTTP responder, and the
-- updates, on one database. A handler of a server and an update are a step each.
use dbl_service.Prelude.{String, Bool, true, false, ◌||◌, if◌then◌else◌, Assoc, List, [], ◌∷◌}
use dbl_service.Storage.{Store}
use dbl_service.Updater
use dbl_service.Updater.{Source}
use dbl_service.Service.{Env}
use dbl_service.Http.{Text}
use dbl_service.Server.{State, Mode, crashed, Event, step}
use dbl_service.Server.Management.{Shared, Member, management}
use dbl_service.Server.Responder.{responder}

pub record Process : Type 0 where
  pub management_server : State Shared Member
  pub http_responder : State Store (Unit {0})

pub data Activity : Type 1 where
  manage : Event → Activity
  respond : Event → Activity
  update : Source → Activity

abbrev pub with_store : Store → State Shared Member → State Shared Member
with_store store m = record m { shared = record m.shared { store = store } }

abbrev pub has_crashed : Mode → Bool
has_crashed crashed = true
has_crashed m = false

module _ (env : Env) (library : Text) (domains_seen : Assoc Bool) (code text : String) where
  abbrev responded : State Shared Member → State Store (Unit {0}) → Process
  responded m r = record { management_server = with_store r.shared m; http_responder = r }

  -- A server finds the database as the activity before has left it.
  abbrev pub perform : Activity → Process → Process
  perform (manage e) p = record p {
    management_server = step (management env) e p.management_server;
  }
  perform (respond e) p = responded p.management_server (
      step (responder library domains_seen code text env.is_debug) e
        (record p.http_responder { shared = p.management_server.shared.store }))
  perform (update source) p = record p {
    management_server =
        with_store (Updater.run source p.management_server.shared.store).1 p.management_server;
  }

  -- Where an exception ends the process, nothing more happens.
  abbrev pub proceed : Mode → Mode → Activity → Process → Process
  proceed m n a p = if has_crashed m || has_crashed n then p else perform a p

  unfoldable pub run_activities : List Activity → Process → Process
  run_activities [] p = p
  run_activities (a ∷ activities) p =
      run_activities activities (proceed p.management_server.mode p.http_responder.mode a p)
