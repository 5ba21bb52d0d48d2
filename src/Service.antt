-- ===== src/Service.antt =====
-- src/dbl/service/server: what a connection to the management port keeps, and the environment that it
-- runs in. `Handlers` has the commands, `Dispatch` the dispatch and the connection's loop.
pub mod Handlers
pub mod Dispatch
pub mod Reads
pub mod Gate
pub mod Conversations
pub mod Admission
pub mod Commands
pub mod Integrity
pub mod Replies
use dbl_service.Prelude.{ℕ, String, Bool, Option}
use dbl_service.Fallible.{Result, Exec}
use dbl_service.Validator.{Resolution}
use dbl_service.Storage.{Store}
use dbl_service.Json.{Json}
use dbl_service.Json.Convert.{Status}

-- The third-party functions that the server calls, the time, the token of the connection, and the
-- status record that the process filled when it started.
pub record Env : Type 1 where
  pub json : Json
  pub getaddrinfo : String → Resolution
  pub md5 : String → String
  -- boost::algorithm::to_lower
  pub to_lower : String → String
  pub now : ℕ
  pub token : String
  pub status : Status
  -- what cancel(), shutdown() or close() throws on the connection's socket, if one does; a peer that is gone
  -- makes shutdown() throw
  pub close_error : Option String
  -- config.is_debug
  pub is_debug : Bool

-- One ServiceConnection: the database that it shares, whether its peer is authenticated, whether its
-- socket is open, and whether it has asked the service to stop.
pub record Connection : Type 0 where
  pub store : Store
  pub is_authenticated : Bool
  pub is_open : Bool
  pub stop_signaled : Bool

module _ {A : Type 0} where
  -- A manager's operation, on behalf of a connection.
  unfoldable pub on_store : Exec Store A → Exec Connection A
  on_store m c = let (r, s) = m c.store in (r, record c { store = s })
