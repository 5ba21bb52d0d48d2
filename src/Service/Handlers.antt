-- ===== src/Service/Handlers.antt =====
-- src/dbl/service/server/service_connection.cxx, the handle_ functions. Each returns the response data.
use dbl_service.Prelude.{
  ℕ, zero, suc, String, Bool, true, false, Option, none, some, List, [], ◌∷◌, ◌==◌, if◌then◌else◌,
}
use dbl_service.Fallible.{
  runtime_error, operation_error, null_pointer, Exec, pure, throw, ◌>>=◌, ◌>>◌,
}
use dbl_service.Fallible.Results.{lift, map_each}
use dbl_service.Types.{Domain, DomainList, new_list}
use dbl_service.Json.Convert.{
  domain_value, list_value, list_to_json, status_to_json, list_from_json,
}
use dbl_service.Storage.{Store}
use dbl_service.Manager.Domains
use dbl_service.Manager.DomainLists
use dbl_service.Manager.Blocking.{block_domains, unblock_domains}
use dbl_service.Auth.{set_password, remove_password}
use dbl_service.Service.{Env, Connection, on_store}

-- src/dbl/core/constants.hxx
abbrev pub version : String
version = "0.0.1"

module _ (env : Env) where
  open env use {json, getaddrinfo, md5, now, token, status, close_error}
  open env.json use {
    Value, member, as_string, as_bool, as_int, is_array, is_object, elements, array_value, text,
    append,
  }

  abbrev pub Handler : Type 0
  Handler = Exec Connection Value

  -- data[key].asString() and the like
  abbrev field : {A : Type 0} → Value → String → (Value → Exec Connection A) → Exec Connection A
  field v key f = do x ← lift (member v key); f x

  abbrev string_field : Value → String → Exec Connection String
  string_field v key = field v key (λ x. lift (as_string x))

  unfoldable pub handle_status : Value → Handler
  handle_status response = pure (status_to_json json status response)

  unfoldable pub handle_flush_dns : Handler
  handle_flush_dns = throw (operation_error "not implemented" [])

  -- The names of data["domains"], and what the manager does with them; its answer is not looked at.
  abbrev name_list : String → (List String → Exec Store Bool) → Value → Value → Handler
  name_list message act data_value response = field data_value "domains" λ domains.
      if is_array domains
      then (do
        names ← lift (map_each as_string (elements domains))
        on_store (act names)
        pure response)
      else throw (operation_error message [])

  unfoldable pub handle_block : Value → Value → Handler
  handle_block = name_list "Domains must be an array" (λ names. block_domains getaddrinfo names 0)

  unfoldable pub handle_unblock : Value → Value → Handler
  handle_unblock = name_list "Expected array of domains" (unblock_domains getaddrinfo)

  abbrev pub unless_refused : Bool × List String → Value → Handler
  unless_refused (true, errors) response = pure response
  unless_refused (false, errors) response = throw (operation_error "Could not set password" errors)

  unfoldable pub handle_set_service_password : Value → Value → Handler
  handle_set_service_password data_value response = do
    password_hash ← string_field data_value "password_hash"
    token_hash ← string_field data_value "token_hash"
    outcome ← on_store (set_password md5 token password_hash token_hash)
    unless_refused outcome response

  unfoldable pub handle_remove_service_password : Value → Handler
  handle_remove_service_password response = do on_store remove_password; pure response

  unfoldable pub handle_import_domain_list : Value → Value → Handler
  handle_import_domain_list data_value response = field data_value "domain_list" λ domain_list.
      if is_object domain_list
      then (do
        lst ← lift (list_from_json json getaddrinfo new_list domain_list)
        custom ← field data_value "custom" (λ x. lift (as_bool x))
        on_store (DomainLists.import_list now lst custom)
        pure response)
      else throw (operation_error "Invalid data." [])

  unfoldable pub append_lists : List DomainList → Value → Value
  append_lists [] arr = arr
  append_lists (l ∷ ls) arr = append_lists ls (append arr (list_value json l))

  unfoldable pub append_each : List Domain → Value → Value
  append_each [] arr = arr
  append_each (d ∷ ds) arr = append_each ds (append arr (domain_value json d))

  unfoldable pub handle_get_domain_lists : Handler
  handle_get_domain_lists = do
    lists ← on_store DomainLists.get_all
    pure (append_lists lists array_value)

  abbrev pub list_at : Option DomainList → Value → Handler
  list_at none response = throw null_pointer
  list_at (some l) response = pure (list_to_json json l response)

  unfoldable pub handle_get_domain_list : Value → Value → Handler
  handle_get_domain_list data_value response = do
    name ← string_field data_value "name"
    (if name == "" then throw (operation_error "No name given." []) else (do
      with_domains ← field data_value "with_domains" (λ x. lift (as_bool x))
      result ← on_store (DomainLists.get name with_domains)
      list_at result response))

  unfoldable pub handle_get_version : Handler
  handle_get_version = pure (text version)

  abbrev pub domain_at : Option Domain → Handler
  domain_at none = throw null_pointer
  domain_at (some d) = pure (domain_value json d)

  unfoldable pub handle_get_domain : Value → Handler
  handle_get_domain data_value = do
    name ← string_field data_value "name"
    (if name == ""
        then throw (operation_error "No domain name given" [])
        else (do result ← on_store (Domains.get_by_name name); domain_at result))

  abbrev pub by_list_id : ℕ → Exec Connection (List Domain)
  by_list_id zero = throw (operation_error "Need type." [])
  by_list_id (suc id) = on_store (Domains.get (suc id))

  -- The null test after the three branches cannot succeed: each of them sets the pointer or throws.
  unfoldable pub handle_get_domains : Value → Handler
  handle_get_domains data_value = do
    type ← string_field data_value "type"
    domains ←
        if type == "blocked"
        then on_store Domains.get_blocked
        else if type == "whitelisted"
        then on_store Domains.get_whitelisted
        else field data_value "list_id" (λ x. do id ← lift (as_int x); by_list_id id)
    pure (append_each domains array_value)

  unfoldable pub handle_delete_domain_list : Handler
  handle_delete_domain_list = throw (operation_error "not implemented" [])

  -- The socket is closed, and the service told to stop its worker, unless closing throws a system_error, which
  -- is a runtime_error.
  unfoldable pub handle_reload : Value → Handler
  handle_reload response c = elim close_error [
    | none ↦ pure response (record c { is_open = false; stop_signaled = true })
    | some message ↦ throw (runtime_error message) c
  ]
