-- ===== src/Client/Login.antt =====
-- A client's authenticate() against the server's connection: src/dblclient/session.cxx with
-- src/dbl/service/server/service_connection.cxx.
pub mod Messages
use Prim.Native.String.{◌++◌}
use dbl_service.Prelude.{
  List, [], ◌∷◌, All, String, ◌≡◌, ◌≢◌, refl, Bool, true, false, ◌==◌, eq_iff, if◌then◌else◌,
  Bool-cases, inl, inr, ◌∙◌, ◌||◌,
}
use dbl_service.Fallible.{Result, ok, pure, throw, ◌>>=◌, try_catch}
use dbl_service.Fallible.Results.{lift}
use dbl_service.Storage.{Tables}
use dbl_service.Storage.Session.{healthy}
use dbl_service.Auth.{verdict}
use dbl_service.Auth.Laws.{password, auth-healthy}
use dbl_service.Json.{IsLawful, Carries}
use dbl_service.Service.{Env, Connection, on_store}
use dbl_service.Service.Dispatch.{
  accept, handle_auth, handle_get_token, dispatch, answer, process_request, read, success_with,
  failure, report,
}
use dbl_service.Client.{Tools, Response, new_response, request_text}
use dbl_service.Client.Session.{Session, authenticate, execute, transmit}
use dbl_service.Client.Login.Messages.{
  tools_for, object_with, payload-command, payload-data, payload, answer-request, success-member,
  failure-member, accepted, refused, new_response-success, new_response-failure,
}

module _ (env : Env) (partial : String → env.json.Value) (lawful : IsLawful env.json) where
  open env use {json, md5, to_lower, token}
  open json use {
    Value, parse, member, as_string, as_bool, text, flag, assign, object_value, null_value, print,
  }

  abbrev tools : Tools
  tools = tools_for env partial

  execute-answers :
      (cmd : String) (params v : Value) (r : Response tools) (e : String) (c c' : Connection)
      → read env (request_text tools cmd params) c ≡ (ok (print v), c')
      → new_response tools (print v) ≡ ok r
      → execute tools (read env) cmd params (record { error = e; peer = c })
        ≡ (ok r, record { error = r.error_msg; peer = c' })
  unfolding execute transmit ◌>>=◌ lift pure
  execute-answers cmd params v r e c c' h g = rw (h, g) refl

  read-get_token :
      (c : Connection)
      → to_lower "get_token" ≡ "get_token"
      → Carries json (payload env partial lawful "get_token" null_value)
      → read env (request_text tools "get_token" null_value) c
        ≡ (ok (print (success_with env (assign object_value "token" (text token)))), c)
  unfolding read process_request ◌>>=◌ pure try_catch dispatch handle_get_token
  read-get_token c low wire =
      rw (answer-request env partial lawful "get_token" null_value c wire, low) refl

  -- How the server answers a presented hash.
  abbrev reply_to : Bool → Value
  reply_to true = success_with env object_value
  reply_to false = failure env "Invalid auth"

  abbrev settled : Bool → Connection → Connection
  settled true c = record c { is_authenticated = true }
  settled false c = c

  abbrev response_to : Bool → Response tools
  response_to true = (accepted env partial lawful) object_value
  response_to false = (refused env partial lawful) "Invalid auth"

  new_response-reply :
      (b : Bool)
      → Carries json (success_with env object_value)
      → Carries json (failure env "Invalid auth")
      → new_response tools (print (reply_to b)) ≡ ok (response_to b)
  new_response-reply true yes_wire no_wire =
      (new_response-success env partial lawful) object_value yes_wire
  new_response-reply false yes_wire no_wire =
      (new_response-failure env partial lawful) "Invalid auth" no_wire

  settle-reply :
      (b : Bool) (c : Connection)
      → try_catch
          (do response ← accept env b object_value; pure (success_with env response))
          (report env)
          c
        ≡ (ok (reply_to b), settled b c)
  unfolding try_catch ◌>>=◌ pure throw
  settle-reply true c = refl
  settle-reply false c = refl

  dispatch-auth :
      (h : String) (t : Tables) (c : Connection)
      → c.store ≡ healthy t
      → dispatch env "auth" (assign null_value "hash" (text h)) object_value c
        ≡ accept env (verdict md5 token (password t) h) object_value c
  unfolding dispatch handle_auth ◌>>=◌ lift on_store
  dispatch-auth h t c up =
      let sent : member (assign null_value "hash" (text h)) "hash" ≡ ok (text h) =
        rw (lawful.assign-null "hash" (text h))
          (lawful.member-assign object_value "hash" "hash" (text h) lawful.object-IsObject) in
      rw (sent, lawful.as_string-text h, up, auth-healthy md5 token h t) refl

  read-auth :
      (h : String) (t : Tables) (c : Connection)
      → to_lower "auth" ≡ "auth"
      → c.store ≡ healthy t
      → Carries json (payload env partial lawful "auth" (assign null_value "hash" (text h)))
      → read env (request_text tools "auth" (assign null_value "hash" (text h))) c ≡ (
        ok (print (reply_to (verdict md5 token (password t) h))),
        settled (verdict md5 token (password t) h) c,
      )
  unfolding read process_request ◌>>=◌ pure try_catch
  read-auth h t c low up wire =
      let same = settle-reply (verdict md5 token (password t) h) c in
      rw
        (
          (answer-request env partial lawful) "auth" (assign null_value "hash" (text h)) c wire,
          low,
          dispatch-auth h t c up,
        )
        (rw same refl)

  given_token : token ≢ "" → (token == "") ≡ false
  given_token given = elim (Bool-cases (token == "")) [
    | inl e ↦ absurd (given ((eq_iff token "").0 e))
    | inr e ↦ e
  ]

  presented :
      (b : Bool) (c : Connection)
      → ◌≡◌ {A = Result Bool × Session Connection}
          (
            ok (response_to b).is_ok,
            record { error = (response_to b).error_msg; peer = settled b c },
          )
          (
            ok b,
            record {
              error = if b then "" else "Invalid auth";
              peer = record c { is_authenticated = b || c.is_authenticated };
            },
          )
  presented true c = refl
  presented false c = refl

  -- The messages of one authentication.
  abbrev pub exchanged : String → List Value
  exchanged hash =
      (payload env partial lawful) "get_token" null_value
      ∷ success_with env (assign object_value "token" (text token))
      ∷ (payload env partial lawful) "auth" (assign null_value "hash" (text hash))
      ∷ success_with env object_value
      ∷ failure env "Invalid auth"
      ∷ []

  -- authenticate() over a connection that carries its messages, to a server whose database answers: it
  -- returns what the server decides of the hash of the password's hash and the connection's token. The
  -- connection is then authenticated if it was before or if that is true; the error is empty if it is
  -- true, and "Invalid auth" if not.
  pub authenticate-healthy :
      (passwd error : String) (t : Tables) (c : Connection)
      → to_lower "get_token" ≡ "get_token"
      → to_lower "auth" ≡ "auth"
      → token ≢ ""
      → c.store ≡ healthy t
      → All (Carries json) (exchanged (md5 (md5 passwd ++ token)))
      → authenticate tools (read env) passwd (record { error = error; peer = c }) ≡ (
          let b = verdict md5 token (password t) (md5 (md5 passwd ++ token)) in
          (
            ok b,
            record {
              error = if b then "" else "Invalid auth";
              peer = record c { is_authenticated = b || c.is_authenticated };
            },
          ))
  unfolding authenticate ◌>>=◌ lift pure
  authenticate-healthy passwd error t c low_token low_auth given up wires =
      let h = md5 (md5 passwd ++ token) in
      let told =
        (success-member env partial lawful) "data" (assign object_value "token" (text token)) _
          refl in
      let token_is =
        lawful.member-assign object_value "token" "token" (text token) lawful.object-IsObject in
      let first =
        execute-answers "get_token" null_value _ _ error c c (read-get_token c low_token wires.0)
          (new_response-success env partial lawful _ wires.1.0) in
      let second =
        execute-answers "auth" (assign null_value "hash" (text h)) _ _ "" c _
          (read-auth h t c low_auth up wires.1.1.0)
          (new_response-reply _ wires.1.1.1.0 wires.1.1.1.1.0) in
      rw (first, told, token_is, lawful.as_string-text token, given_token given, second)
        (presented (verdict md5 token (password t) h) c)
