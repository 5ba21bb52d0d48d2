-- ===== src/Service/Dispatch.antt =====
-- src/dbl/service/server/service_connection.cxx (constructor, dispatch, process_request) and
-- connection.cxx (read and respond).
use Prim.Native.String.{◌++◌}
use dbl_service.Prelude.{
  String, Bool, true, false, not, Option, none, some, List, [], ◌∷◌, ◌==◌, if◌then◌else◌,
}
use dbl_service.Fallible.{
  Error, logic_error, try_catch_any, runtime_error, operation_error, null_pointer, Exec, pure,
  throw, try_catch, ◌>>=◌,
}
use dbl_service.Fallible.Results.{lift}
use dbl_service.Auth.{auth}
use dbl_service.Storage.{Store}
use dbl_service.Service.{Env, Connection, on_store}
use dbl_service.Service.Handlers
use dbl_service.Service.Handlers.{Handler}

module _ (env : Env) where
  open env use {json, md5, to_lower, token}
  open env.json use {
    Value, parse, messages, member, as_string, array_value, object_value, text, flag, assign,
    append, print,
  }

  -- The constructor: without a password the peer counts as authenticated from the start.
  unfoldable pub connect : Exec Store Connection
  unfolding ◌>>=◌ auth
  connect s =
      (do
        open_to_all ← auth md5 token ""
        (λ s'.
            pure
              (record {
                store = s';
                is_authenticated = open_to_all;
                is_open = true;
                stop_signaled = false;
              })
              s'))
        s

  -- is_authenticated_ = true, or the error
  abbrev pub accept : Bool → Value → Handler env
  accept true response c = pure response (record c { is_authenticated = true })
  accept false response c = throw (operation_error "Invalid auth" []) c

  unfoldable pub handle_auth : Value → Value → Handler env
  handle_auth data_value response = do
    hash ← lift (member data_value "hash")
    hash_text ← lift (as_string hash)
    accepted ← on_store (auth md5 token hash_text)
    accept accepted response

  unfoldable pub handle_get_token : Value → Handler env
  handle_get_token response = pure (assign response "token" (text token))

  -- The commands of an authenticated peer.
  unfoldable pub run_command : String → Value → Value → Handler env
  run_command cmd data_value response =
      if cmd == "status"
      then Handlers.handle_status env response
      else if cmd == "set_service_password"
      then Handlers.handle_set_service_password env data_value response
      else if cmd == "remove_service_password"
      then Handlers.handle_remove_service_password env response
      else if cmd == "flush_dns"
      then Handlers.handle_flush_dns env
      else if cmd == "block"
      then Handlers.handle_block env data_value response
      else if cmd == "unblock"
      then Handlers.handle_unblock env data_value response
      else if cmd == "import_domain_list"
      then Handlers.handle_import_domain_list env data_value response
      else if cmd == "get_domain_lists"
      then Handlers.handle_get_domain_lists env
      else if cmd == "get_domain_list"
      then Handlers.handle_get_domain_list env data_value response
      else if cmd == "delete_domain_list"
      then Handlers.handle_delete_domain_list env
      else if cmd == "get_version"
      then Handlers.handle_get_version env
      else if cmd == "get_domain"
      then Handlers.handle_get_domain env data_value
      else if cmd == "get_domains"
      then Handlers.handle_get_domains env data_value
      else if cmd == "reload"
      then Handlers.handle_reload env response
      else throw (runtime_error "Unknown command")

  unfoldable pub dispatch : String → Value → Value → Handler env
  unfolding ◌>>=◌
  dispatch cmd data_value response c =
      if cmd == "get_token"
      then handle_get_token response c
      else if cmd == "auth"
      then handle_auth data_value response c
      else if not c.is_authenticated
      then throw (operation_error "Not authenticated" []) c
      else run_command cmd data_value response c

  unfoldable pub append_texts : List String → Value → Value
  append_texts [] arr = arr
  append_texts (e ∷ es) arr = append_texts es (append arr (text e))

  -- What the two catch clauses make of `response_json`: "success" is written again.
  abbrev pub failure : String → Value
  failure message =
      assign (assign object_value "success" (flag false)) "error_message" (text message)

  abbrev pub with_details : List String → Value → Value
  with_details [] v = v
  with_details (e ∷ es) v = assign v "error_details" (append_texts (e ∷ es) array_value)

  abbrev pub report : Error → Handler env
  report (runtime_error message) = pure (failure message)
  report (operation_error message errors) = pure (with_details errors (failure message))
  report (logic_error message) = throw (logic_error message)
  report null_pointer = throw null_pointer

  abbrev pub success_with : Value → Value
  success_with response = assign (assign object_value "success" (flag true)) "data" response

  abbrev pub answer_root : Value → Handler env
  answer_root root = do
    command ← lift (member root "command")
    command_text ← lift (as_string command)
    data_value ← lift (member root "data")
    response ← dispatch (to_lower command_text) data_value object_value
    pure (success_with response)

  abbrev pub answer_parsed : String → Option Value → Handler env
  answer_parsed request none = throw (operation_error "Invalid format" (messages request ∷ []))
  answer_parsed request (some root) = answer_root root

  unfoldable pub answer : String → Handler env
  unfolding ◌>>=◌ lift append_texts
  answer request = try_catch (answer_parsed request (parse request)) report

  unfoldable pub process_request : String → Exec Connection String
  unfolding answer
  process_request request = do response ← answer request; pure (print response)

  -- What read() answers if processing throws.
  abbrev pub failed_text : String → String
  failed_text message =
      if env.is_debug then "Processing failed." ++ "\n" ++ message else "Processing failed."

  abbrev pub failed : Error → Exec Connection String
  failed (runtime_error message) = pure (failed_text message)
  failed (operation_error message errors) = pure (failed_text message)
  failed (logic_error message) = pure (failed_text message)
  failed null_pointer = throw null_pointer

  unfoldable pub read : String → Exec Connection String
  unfolding process_request
  read request = try_catch_any (process_request request) failed

  -- Requests that are read one after another. A response ends with "\r\n"; after a write to a closed
  -- socket nothing more is read.
  unfoldable pub serve : List String → Exec Connection (List String)
  unfolding read
  serve [] = pure []
  serve (request ∷ requests) = do
    response ← read request
    λ c.
        let rest = serve requests in
        (if c.is_open
            then (do responses ← rest; pure ((response ++ "\r\n") ∷ responses))
            else pure [])
          c
