-- ===== src/Server/Responder.antt =====
-- Server<HTTPResponderConnection>: its connections share the database and have no members of their own.
use Prim.Native.String.{◌++◌}
use dbl_service.Prelude.{String, Bool, true, Assoc, if◌then◌else◌}
use dbl_service.Fallible.{
  Error, logic_error, try_catch_any, ok, runtime_error, operation_error, null_pointer, Exec, pure,
  throw,
}
use dbl_service.Storage.{Store}
use dbl_service.Http.{Text, process_request}
use dbl_service.Server.{ConnectionType}

module _ (library : Text) (domains_seen : Assoc Bool) (code text : String) (is_debug : Bool) where
  -- What read() answers if processing throws.
  abbrev failed_text : String → String
  failed_text message =
      if is_debug then "Processing failed." ++ "\n" ++ message else "Processing failed."

  abbrev pub failed : Error → Exec Store String
  failed (runtime_error message) = pure (failed_text message)
  failed (operation_error message errors) = pure (failed_text message)
  failed (logic_error m) = pure (failed_text m)
  failed null_pointer = throw null_pointer

  unfoldable pub respond : String → Exec Store String
  unfolding process_request
  respond request = try_catch_any (process_request library domains_seen code text request) failed

  abbrev without_members : Exec Store String → Exec (Store × Unit) String
  without_members m (s, u) = let (r, t) = m s in (r, (t, u))

  abbrev construct : String → Exec Store (Unit {0})
  construct token s = (ok tt, s)

  abbrev pub responder : ConnectionType Store
  responder = record {
    Member = Unit;
    construct = construct;
    reply = λ request. without_members (respond request);
    is_open = λ m. true;
  }
