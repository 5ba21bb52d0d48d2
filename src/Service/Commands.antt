-- ===== src/Service/Commands.antt =====
-- That every command of a connection keeps the constraints of the tables.
use dbl_service.Prelude.{
  ℕ, zero, suc, String, Bool, true, false, Option, none, some, List, [], Option-cases, inl, inr,
}
use dbl_service.Fallible.{Result, Exec, pure, throw, ◌>>=◌}
use dbl_service.Fallible.Keeps.{Keeps, Keeps-pure, Keeps-throw, Keeps-if, Keeps-bind, keeps_rules}
use dbl_service.Fallible.Results.{lift}
use dbl_service.Types.{Domain, DomainList}
use dbl_service.Storage.{Store}
use dbl_service.Storage.Integrity.Transactions.{IsSound}
use dbl_service.Manager.Settings
use dbl_service.Manager.Integrity.{
  get-IsSound, set-IsSound, remove-IsSound, get_domains-IsSound, get_by_name-IsSound,
  get_blocked-IsSound, get_whitelisted-IsSound, get_list-IsSound, get_all-IsSound,
  import_list-IsSound, block_domains-IsSound, unblock_domains-IsSound,
}
use dbl_service.Auth.{auth, set_password, remove_password}
use dbl_service.Service.{Env, Connection, on_store}
use dbl_service.Service.Handlers
use dbl_service.Service.Handlers.{unless_refused, list_at, domain_at, by_list_id}
use dbl_service.Service.Dispatch.{accept, handle_auth, handle_get_token}
use dbl_service.Service.Reads.{Keeps-lift}

abbrev pub OnSound : Connection → Type 0
OnSound c = IsSound c.store

on_store-OnSound : {A : Type 0} (m : Exec Store A) → Keeps IsSound m → Keeps OnSound (on_store m)
unfolding on_store
on_store-OnSound m k = record { holds = λ c p. k.holds c.store p }

pub auth-IsSound :
    (md5 : String → String) (token hash : String) → Keeps IsSound (auth md5 token hash)
unfolding auth
auth-IsSound md5 token hash = search (keeps_rules, get-IsSound)

saved-IsSound :
    (hash : String)
    → Keeps {A = Bool × List String} IsSound
        (do success ← Settings.set "service_password" hash; pure (success, []))
saved-IsSound hash = Keeps-bind _ _ _ (set-IsSound "service_password" hash) (λ b. Keeps-pure _)

set_password-IsSound :
    (md5 : String → String) (token a b : String) → Keeps IsSound (set_password md5 token a b)
unfolding set_password
set_password-IsSound md5 token a b = search (keeps_rules, saved-IsSound)

remove_password-IsSound : Keeps IsSound remove_password
unfolding remove_password
remove_password-IsSound = remove-IsSound "service_password"

module _ (env : Env) where
  open env use {json, getaddrinfo, md5, token}
  open env.json use {Value}

  -- Reading a field of the data, then going on.
  lift_then :
      {A B : Type 0} (r : Result A) (f : A → Exec Connection B)
      → ((a : A) → Keeps OnSound (f a))
      → Keeps OnSound (lift r >>= f)
  lift_then r f k = Keeps-bind OnSound f (lift r) (Keeps-lift OnSound r) k

  store_then :
      {A B : Type 0} (m : Exec Store A) (f : A → Exec Connection B)
      → Keeps IsSound m
      → ((a : A) → Keeps OnSound (f a))
      → Keeps OnSound (on_store m >>= f)
  store_then m f k l = Keeps-bind OnSound f (on_store m) (on_store-OnSound m k) l

  pub handle_block-OnSound : (d r : Value) → Keeps OnSound (Handlers.handle_block env d r)
  unfolding Handlers.handle_block
  handle_block-OnSound d r = lift_then _ _ λ ds.
      Keeps-if _ _ _
        (lift_then _ _
          λ names. store_then _ _ (block_domains-IsSound getaddrinfo names 0) (λ _. Keeps-pure r))
        (Keeps-throw _)

  pub handle_unblock-OnSound : (d r : Value) → Keeps OnSound (Handlers.handle_unblock env d r)
  unfolding Handlers.handle_unblock
  handle_unblock-OnSound d r = lift_then _ _ λ ds.
      Keeps-if _ _ _
        (lift_then _ _
          λ names. store_then _ _ (unblock_domains-IsSound getaddrinfo names) (λ _. Keeps-pure r))
        (Keeps-throw _)

  unless_refused-OnSound :
      (o : Bool × List String) (r : Value) → Keeps OnSound (unless_refused env o r)
  unless_refused-OnSound (true, es) r = Keeps-pure r
  unless_refused-OnSound (false, es) r = Keeps-throw _

  pub handle_set_service_password-OnSound :
      (d r : Value) → Keeps OnSound (Handlers.handle_set_service_password env d r)
  unfolding Handlers.handle_set_service_password
  handle_set_service_password-OnSound d r =
      Keeps-bind _ _ _ (lift_then _ _ (λ x. Keeps-lift _ _)) λ a.
        Keeps-bind _ _ _ (lift_then _ _ (λ x. Keeps-lift _ _))
          λ b. store_then _ _ (set_password-IsSound md5 token a b) (λ o. unless_refused-OnSound o r)

  pub handle_remove_service_password-OnSound :
      (r : Value) → Keeps OnSound (Handlers.handle_remove_service_password env r)
  unfolding Handlers.handle_remove_service_password
  handle_remove_service_password-OnSound r =
      store_then _ _ remove_password-IsSound (λ _. Keeps-pure r)

  pub handle_import_domain_list-OnSound :
      (d r : Value) → Keeps OnSound (Handlers.handle_import_domain_list env d r)
  unfolding Handlers.handle_import_domain_list
  handle_import_domain_list-OnSound d r = lift_then _ _ λ l.
      Keeps-if _ _ _
        (lift_then _ _ λ lst.
          Keeps-bind _ _ _ (lift_then _ _ (λ x. Keeps-lift _ _))
            λ custom. store_then _ _ (import_list-IsSound env.now lst custom) (λ _. Keeps-pure r))
        (Keeps-throw _)

  pub handle_get_domain_lists-OnSound : Keeps OnSound (Handlers.handle_get_domain_lists env)
  unfolding Handlers.handle_get_domain_lists
  handle_get_domain_lists-OnSound = store_then _ _ get_all-IsSound (λ ls. Keeps-pure _)

  list_at-OnSound : (o : Option DomainList) (r : Value) → Keeps OnSound (list_at env o r)
  list_at-OnSound none r = Keeps-throw _
  list_at-OnSound (some l) r = Keeps-pure _

  pub handle_get_domain_list-OnSound :
      (d r : Value) → Keeps OnSound (Handlers.handle_get_domain_list env d r)
  unfolding Handlers.handle_get_domain_list
  handle_get_domain_list-OnSound d r =
      Keeps-bind _ _ _ (lift_then _ _ (λ x. Keeps-lift _ _)) λ name.
        Keeps-if _ _ _ (Keeps-throw _) (
          Keeps-bind _ _ _ (lift_then _ _ (λ x. Keeps-lift _ _))
            λ b. store_then _ _ (get_list-IsSound name b) (λ o. list_at-OnSound o r))

  domain_at-OnSound : (o : Option Domain) → Keeps OnSound (domain_at env o)
  domain_at-OnSound none = Keeps-throw _
  domain_at-OnSound (some d) = Keeps-pure _

  pub handle_get_domain-OnSound : (d : Value) → Keeps OnSound (Handlers.handle_get_domain env d)
  unfolding Handlers.handle_get_domain
  handle_get_domain-OnSound d = Keeps-bind _ _ _ (lift_then _ _ (λ x. Keeps-lift _ _)) λ name.
      Keeps-if _ _ _ (Keeps-throw _) (store_then _ _ (get_by_name-IsSound name) domain_at-OnSound)

  by_list_id-OnSound : (i : ℕ) → Keeps OnSound (by_list_id env i)
  by_list_id-OnSound zero = Keeps-throw _
  by_list_id-OnSound (suc i) = on_store-OnSound _ (get_domains-IsSound (suc i))

  pub handle_get_domains-OnSound : (d : Value) → Keeps OnSound (Handlers.handle_get_domains env d)
  unfolding Handlers.handle_get_domains
  handle_get_domains-OnSound d = Keeps-bind _ _ _ (lift_then _ _ (λ x. Keeps-lift _ _)) λ type.
      Keeps-bind _ _ _
        (Keeps-if _ _ _ (on_store-OnSound _ get_blocked-IsSound) (
          Keeps-if _ _ _ (on_store-OnSound _ get_whitelisted-IsSound)
            (lift_then _ _ λ x. lift_then _ _ by_list_id-OnSound)))
        (λ ds. Keeps-pure _)

  pub handle_reload-OnSound : (r : Value) → Keeps OnSound (Handlers.handle_reload env r)
  unfolding Handlers.handle_reload
  handle_reload-OnSound r = elim (Option-cases env.close_error) [
    | inl e ↦ record { holds = λ c p. rw e (unfold pure in p) }
    | inr (m, e) ↦ record { holds = λ c p. rw e (unfold throw in p) }
  ]

  accept-OnSound : (b : Bool) (r : Value) → Keeps OnSound (accept env b r)
  unfolding pure throw
  accept-OnSound true r = record { holds = λ c p. p }
  accept-OnSound false r = record { holds = λ c p. p }

  pub handle_auth-OnSound : (d r : Value) → Keeps OnSound (handle_auth env d r)
  unfolding handle_auth
  handle_auth-OnSound d r =
      lift_then _ _
        λ v. lift_then _ _ λ h. store_then _ _ (auth-IsSound md5 token h) (λ b. accept-OnSound b r)

  pub handle_get_token-OnSound : (r : Value) → Keeps OnSound (handle_get_token env r)
  unfolding handle_get_token
  handle_get_token-OnSound r = Keeps-pure _

  pub handle_status-OnSound : (r : Value) → Keeps OnSound (Handlers.handle_status env r)
  unfolding Handlers.handle_status
  handle_status-OnSound r = Keeps-pure _

  pub handle_flush_dns-OnSound : Keeps OnSound (Handlers.handle_flush_dns env)
  unfolding Handlers.handle_flush_dns
  handle_flush_dns-OnSound = Keeps-throw _

  pub handle_delete_domain_list-OnSound : Keeps OnSound (Handlers.handle_delete_domain_list env)
  unfolding Handlers.handle_delete_domain_list
  handle_delete_domain_list-OnSound = Keeps-throw _

  pub handle_get_version-OnSound : Keeps OnSound (Handlers.handle_get_version env)
  unfolding Handlers.handle_get_version
  handle_get_version-OnSound = Keeps-pure _
