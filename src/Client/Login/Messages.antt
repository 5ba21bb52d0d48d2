-- ===== src/Client/Login/Messages.antt =====
-- Requests of the client as the server reads them, and replies of the server as the client reads them.
use dbl_service.Prelude.{String, ◌≡◌, refl, true, false, ◌==◌, if◌then◌else◌, ◌∙◌}
use dbl_service.Fallible.{ok, pure, ◌>>=◌, try_catch}
use dbl_service.Fallible.Results.{lift}
use dbl_service.Json.{IsLawful, Carries}
use dbl_service.Service.{Env, Connection}
use dbl_service.Service.Dispatch.{dispatch, answer, success_with, failure, report}
use dbl_service.Client.{Tools, Response, new_response, request_text}

-- A client that uses the same libraries as the server.
abbrev pub tools_for : (env : Env) → (String → env.json.Value) → Tools
tools_for env partial = record {
  json = env.json;
  md5 = env.md5;
  getaddrinfo = env.getaddrinfo;
  partial = partial;
}

module _ (env : Env) (partial : String → env.json.Value) (lawful : IsLawful env.json) where
  open env use {json, md5, to_lower, token}
  open json use {
    Value, parse, member, as_string, as_bool, text, flag, assign, object_value, null_value, print,
  }

  abbrev pub payload : String → Value → Value
  payload cmd params = assign (assign null_value "command" (text cmd)) "data" params

  pub object_with : (k : String) (v : Value) → json.is_object (assign object_value k v) ≡ true
  object_with k v = lawful.assign-IsObject object_value k v lawful.object-IsObject

  pub payload-command :
      (cmd : String) (params : Value) → member (payload cmd params) "command" ≡ ok (text cmd)
  payload-command cmd params =
      rw (lawful.assign-null "command" (text cmd), payload)
        (lawful.member-assign (assign object_value "command" (text cmd)) "data" "command" params
            (object_with _ _)
          ∙ lawful.member-assign object_value "command" "command" (text cmd) lawful.object-IsObject)

  pub payload-data :
      (cmd : String) (params : Value) → member (payload cmd params) "data" ≡ ok params
  payload-data cmd params =
      rw (lawful.assign-null "command" (text cmd), payload)
        (lawful.member-assign (assign object_value "command" (text cmd)) "data" "data" params
          (object_with _ _))

  -- What the server makes of a request that the client writes.
  pub answer-request :
      (cmd : String) (params : Value) (c : Connection)
      → Carries json (payload cmd params)
      → answer env (request_text (tools_for env partial) cmd params) c
        ≡ try_catch
            (do
              response ← dispatch env (to_lower cmd) params object_value
              pure (success_with env response))
            (report env)
            c
  unfolding answer request_text lift ◌>>=◌
  answer-request cmd params c wire =
      rw (wire, payload-command cmd params, payload-data cmd params, lawful.as_string-text cmd) refl

  abbrev pub tools : Tools
  tools = tools_for env partial

  pub success-member :
      (k : String) (d v : Value)
      → (if "data" == k
          then ok d
          else if "success" == k
          then ok (flag true)
          else member object_value k)
        ≡ ok v
      → member (success_with env d) k ≡ ok v
  success-member k d v e =
      lawful.member-assign (assign object_value "success" (flag true)) "data" k d (object_with _ _)
      ∙ rw (lawful.member-assign object_value "success" k (flag true) lawful.object-IsObject) e

  pub failure-member :
      (k m : String) (v : Value)
      → (if "error_message" == k
          then ok (text m)
          else if "success" == k
          then ok (flag false)
          else member object_value k)
        ≡ ok v
      → member (failure env m) k ≡ ok v
  failure-member k m v e =
      lawful.member-assign (assign object_value "success" (flag false)) "error_message" k (text m)
        (object_with _ _)
      ∙ rw (lawful.member-assign object_value "success" k (flag false) lawful.object-IsObject) e

  -- What the client makes of a response.
  abbrev pub accepted : Value → Response tools
  accepted d = record { data_value = success_with env d; is_ok = true; error_msg = "" }

  abbrev pub refused : String → Response tools
  refused m = record { data_value = failure env m; is_ok = false; error_msg = m }

  pub new_response-success :
      (d : Value)
      → Carries json (success_with env d)
      → new_response tools (print (success_with env d)) ≡ ok (accepted d)
  unfolding new_response
  new_response-success d wire =
      rw (wire, success-member "success" d (flag true) refl, lawful.as_bool-flag true) refl

  pub new_response-failure :
      (m : String)
      → Carries json (failure env m)
      → new_response tools (print (failure env m)) ≡ ok (refused m)
  unfolding new_response
  new_response-failure m wire =
      rw
        (
          wire,
          failure-member "success" m (flag false) refl,
          lawful.as_bool-flag false,
          failure-member "error_message" m (text m) refl,
          lawful.as_string-text m,
        )
        refl
