-- ===== src/Client/Session.antt =====
-- src/dblclient/session.cxx
use Prim.Native.String.{◌++◌}
use dbl_service.Prelude.{String, Bool, true, false, List, [], ◌∷◌, ◌==◌, if◌then◌else◌}
use dbl_service.Fallible.{Exec, pure, ◌>>=◌, ◌>>◌}
use dbl_service.Fallible.Results.{lift, map_each}
use dbl_service.Types.{Domain, DomainList, new_domain, new_list}
use dbl_service.Json.Convert.{
  Status, list_value, list_from_json, domain_from_json, status_from_json,
}
use dbl_service.Client.{Tools, Response, new_response, request_text}

-- The last error, and the peer at the other end of the connection.
pub record Session (W : Type 0) : Type 0 where
  pub error : String
  pub peer : W

module _ (tools : Tools) {W : Type 0} (exchange : String → Exec W String) where
  open tools use {json, md5, getaddrinfo}
  open json use {
    Value, member, as_string, elements, null_value, array_value, text, flag, assign, append,
  }

  abbrev pub Action : Type 0 → Type 0
  Action A = Exec (Session W) A

  -- connection_->write and read
  unfoldable pub transmit : String → Action String
  transmit request s = let (r, w) = exchange request s.peer in (r, record s { peer = w })

  abbrev pub set_error : Response tools → Action Unit
  set_error response s = pure tt (record s { error = response.error_msg })

  -- connection_->execute(req), then set_error(*response)
  unfoldable pub execute : String → Value → Action (Response tools)
  execute cmd params = do
    raw ← transmit (request_text tools cmd params)
    response ← lift (new_response tools raw)
    set_error response
    pure response

  -- response->get_data()
  abbrev pub get_data : Response tools → Action Value
  get_data response = lift (member response.data_value "data")

  unfoldable pub get_raw_data : String → Action String
  get_raw_data cmd s =
      (do response ← execute cmd null_value; found ← get_data response; lift (as_string found))
        (record s { error = "" })

  unfoldable pub get_server_version : Action String
  get_server_version = do
    response ← execute "get_version" null_value
    (if response.is_ok then (do found ← get_data response; lift (as_string found)) else pure "")

  -- get_data()["token"].asString()
  abbrev pub token_of : Response tools → Action String
  token_of response = do
    found ← get_data response
    token ← lift (member found "token")
    lift (as_string token)

  abbrev pub present_hash : String → String → Action Bool
  present_hash passwd token = if token == "" then pure false else (do
    response ← execute "auth" (assign null_value "hash" (text (md5 (md5 passwd ++ token))))
    pure response.is_ok)

  unfoldable pub authenticate : String → Action Bool
  authenticate passwd = do
    response ← execute "get_token" null_value
    (if response.is_ok
        then (do token ← token_of response; present_hash passwd token)
        else pure false)

  abbrev pub present_password : String → String → Action Bool
  present_password passwd token = if token == "" then pure false else (do
    let passwd_hash = md5 passwd
    let hashed_token = md5 (passwd_hash ++ token)
    response ← execute "set_service_password" (
        assign (assign null_value "password_hash" (text passwd_hash)) "token_hash"
          (text hashed_token))
    pure response.is_ok)

  unfoldable pub set_service_password : String → Action Bool
  set_service_password passwd = do
    response ← execute "get_token" null_value
    (if response.is_ok
        then (do token ← token_of response; present_password passwd token)
        else pure false)

  unfoldable pub import_domain_list : DomainList → Action Bool
  import_domain_list lst = do
    response ← execute "import_domain_list" (assign null_value "domain_list" (list_value json lst))
    pure response.is_ok

  -- The lists that are read are appended to the argument.
  abbrev pub none_read {ℓ} : {A : Type ℓ} → Bool × List A
  none_read = (false, [])

  unfoldable pub get_domain_lists : Action (Bool × List DomainList)
  get_domain_lists = do
    response ← execute "get_domain_lists" null_value
    (if response.is_ok
        then (do
          found ← get_data response
          lists ← lift (map_each (list_from_json json getaddrinfo new_list) (elements found))
          pure (true, lists))
        else pure none_read)

  -- The record that is read into is the argument, and returned.
  unfoldable pub get_domain_list : DomainList → Action (Bool × DomainList)
  get_domain_list lst = do
    response ←
        execute "get_domain_list"
          (assign (assign null_value "name" (text lst.name)) "with_domains" (flag true))
    (if response.is_ok
        then (do
          found ← get_data response
          l ← lift (list_from_json json getaddrinfo lst found)
          pure (true, l))
        else pure (false, lst))

  unfoldable pub get_domain : Domain → Action (Bool × Domain)
  get_domain domain = do
    response ← execute "get_domain" (assign null_value "name" (text domain.name))
    (if response.is_ok
        then (do
          found ← get_data response
          d ← lift (domain_from_json json getaddrinfo domain found)
          pure (true, d))
        else pure (false, domain))

  unfoldable pub get_domains : Bool → Action (Bool × List Domain)
  get_domains blocked = do
    response ←
        execute "get_domains"
          (assign null_value "type" (text (if blocked then "blocked" else "whitelisted")))
    (if response.is_ok
        then (do
          found ← get_data response
          domains ← lift (map_each (domain_from_json json getaddrinfo new_domain) (elements found))
          pure (true, domains))
        else pure none_read)

  unfoldable pub get_blocked_domains : Action (Bool × List Domain)
  unfolding get_domains
  get_blocked_domains = get_domains true

  unfoldable pub get_whitelisted_domains : Action (Bool × List Domain)
  unfolding get_domains
  get_whitelisted_domains = get_domains false

  unfoldable pub append_names : List String → Value → Value
  append_names [] arr = arr
  append_names (n ∷ ns) arr = append_names ns (append arr (text n))

  unfoldable pub manage_domains : List String → Bool → Action Bool
  manage_domains names block = do
    response ←
        execute (if block then "block" else "unblock")
          (assign null_value "domains" (append_names names array_value))
    pure response.is_ok

  unfoldable pub block_domain : String → Action Bool
  unfolding manage_domains
  block_domain name = manage_domains (name ∷ []) true

  unfoldable pub unblock_domain : String → Action Bool
  unfolding manage_domains
  unblock_domain name = manage_domains (name ∷ []) false

  unfoldable pub get_status : Status → Action (Bool × Status)
  get_status status = do
    response ← execute "status" null_value
    (if response.is_ok
        then (do found ← get_data response; s ← lift (status_from_json json found); pure (true, s))
        else pure (false, status))
