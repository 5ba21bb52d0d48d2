-- ===== src/Client.antt =====
-- src/dblclient: a session with the management port. The socket is a parameter: `exchange` writes one
-- request to a peer and reads one response, or throws.
pub mod Connection
pub mod Session
pub mod Login
use dbl_service.Prelude.{String, Bool, true, false, Option, none, some}
use dbl_service.Fallible.{Result, ok, Exec}
use dbl_service.Fallible.Results.{◌>>=◌}
use dbl_service.Validator.{Resolution}
use dbl_service.Json.{Json}

-- The third-party functions that the client calls. `partial` is what Reader::parse leaves in a value when
-- it fails.
pub record Tools : Type 1 where
  pub json : Json
  pub md5 : String → String
  pub getaddrinfo : String → Resolution
  pub partial : String → json.Value

module _ (tools : Tools) where
  open tools use {json, partial}
  open json use {Value, parse, member, as_string, as_bool, null_value, assign, text, print}

  -- net::ServiceResponse, with data_["data"] read when it is asked for
  pub record Response : Type 0 where
    pub data_value : Value
    pub is_ok : Bool
    pub error_msg : String

  abbrev pub error_of : Value → Bool → Result Response
  error_of root true = ok (record { data_value = root; is_ok = true; error_msg = "" })
  error_of root false = do
    message ← member root "error_message"
    message_text ← as_string message
    ok (record { data_value = root; is_ok = false; error_msg = message_text })

  abbrev pub response_of : String → Option Value → Result Response
  response_of raw none = ok (record { data_value = partial raw; is_ok = false; error_msg = "" })
  response_of raw (some root) = do
    success ← member root "success"
    is_ok ← as_bool success
    error_of root is_ok

  -- ServiceResponse(raw_response)
  unfoldable pub new_response : String → Result Response
  new_response raw = response_of raw (parse raw)

  -- ServiceRequest::to_string
  unfoldable pub request_text : String → Value → String
  request_text cmd params = print (assign (assign null_value "command" (text cmd)) "data" params)
