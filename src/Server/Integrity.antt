-- ===== src/Server/Integrity.antt =====
-- The constraints of the tables, while the servers and the updates share the database.
use dbl_service.Prelude.{String, Bool, Assoc}
use dbl_service.Fallible.Keeps.{Keeps}
use dbl_service.Storage.Integrity.Transactions.{IsSound}
use dbl_service.Service.{Env}
use dbl_service.Http.{Text}
use dbl_service.Server.{Server}
use dbl_service.Server.Responder.{respond}
use dbl_service.Server.Process.{Process, respond as respond_to, update as update_lists}

module _ (env : Env) (library : Text) (seen : Assoc Bool) (code text : String) where
  abbrev IsSoundProcess : Process → Type 0
  IsSoundProcess p = IsSound p.management_server.shared.store
