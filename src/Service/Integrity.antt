-- ===== src/Service/Integrity.antt =====
-- Every request, of any peer and whatever fails on the way, keeps the constraints of the tables.
use dbl_service.Prelude.{String, List, [], ◌∷◌, ◌==◌, All, Bool-cases, inl, inr}
use dbl_service.Fallible.{throw}
use dbl_service.Fallible.Keeps.{Keeps, Keeps-throw, Keeps-if}
use dbl_service.Storage.Integrity.{IsConsistent}
use dbl_service.Service.{Env, Connection}
use dbl_service.Service.Dispatch.{run_command, dispatch, answer, serve}
use dbl_service.Service.Gate.{answer-leaves}
use dbl_service.Service.Conversations.{serve-keeps}
use dbl_service.Service.Commands.{
  OnSound, handle_block-OnSound, handle_unblock-OnSound, handle_set_service_password-OnSound,
  handle_remove_service_password-OnSound, handle_import_domain_list-OnSound,
  handle_get_domain_lists-OnSound, handle_get_domain_list-OnSound, handle_get_domain-OnSound,
  handle_get_domains-OnSound, handle_reload-OnSound, handle_auth-OnSound, handle_get_token-OnSound,
  handle_status-OnSound, handle_flush_dns-OnSound, handle_delete_domain_list-OnSound,
  handle_get_version-OnSound,
}

module _ (env : Env) where
  open env use {json}
  open env.json use {Value}

  run_command-OnSound : (cmd : String) (d r : Value) → Keeps OnSound (run_command env cmd d r)
  unfolding run_command
  run_command-OnSound cmd d r = Keeps-if _ _ _ (handle_status-OnSound env r) (
      Keeps-if _ _ _ (handle_set_service_password-OnSound env d r) (
        Keeps-if _ _ _ (handle_remove_service_password-OnSound env r) (
          Keeps-if _ _ _ (handle_flush_dns-OnSound env) (
            Keeps-if _ _ _ (handle_block-OnSound env d r) (
              Keeps-if _ _ _ (handle_unblock-OnSound env d r) (
                Keeps-if _ _ _ (handle_import_domain_list-OnSound env d r) (
                  Keeps-if _ _ _ (handle_get_domain_lists-OnSound env) (
                    Keeps-if _ _ _ (handle_get_domain_list-OnSound env d r) (
                      Keeps-if _ _ _ (handle_delete_domain_list-OnSound env) (
                        Keeps-if _ _ _ (handle_get_version-OnSound env) (
                          Keeps-if _ _ _ (handle_get_domain-OnSound env d) (
                            Keeps-if _ _ _ (handle_get_domains-OnSound env d) (
                              Keeps-if _ _ _ (handle_reload-OnSound env r)
                                (Keeps-throw _))))))))))))))

  dispatch-OnSound :
      (cmd : String) (d r : Value) (c : Connection) → OnSound c → OnSound (dispatch env cmd d r c).1
  dispatch-OnSound cmd d r c p = elim (Bool-cases (cmd == "get_token")) [
    | inl e ↦ unfold dispatch in rw e ((handle_get_token-OnSound env r).holds c p)
    | inr e ↦ elim (Bool-cases (cmd == "auth")) [
      | inl f ↦ unfold dispatch in rw (e, f) ((handle_auth-OnSound env d r).holds c p)
      | inr f ↦ elim (Bool-cases c.is_authenticated) [
        | inr n ↦ unfold dispatch throw in rw (e, f) (simp n p)
        | inl n ↦ unfold dispatch in rw (e, f) (simp n ((run_command-OnSound cmd d r).holds c p))
      ]
    ]
  ]

  pub answer-OnSound :
      (request : String) (c : Connection) → OnSound c → OnSound (answer env request c).1
  answer-OnSound request c p =
      answer-leaves env OnSound request c p λ root cmd d e f. dispatch-OnSound cmd d _ c p

  each-OnSound :
      (requests : List String)
      → All (λ r. (c : Connection) → OnSound c → OnSound (answer env r c).1) requests
  each-OnSound [] = tt
  each-OnSound (r ∷ rs) = (answer-OnSound r, each-OnSound rs)

-- Whatever requests a peer sends, authenticated or not, and whatever statements fail on the way, the
-- conversation keeps the constraints of the tables.
pub serve-IsConsistent :
    (env : Env) (requests : List String) (c : Connection)
    → IsConsistent c.store.tables
    → IsConsistent (serve env requests c).1.store.tables
serve-IsConsistent env requests c p =
    serve-keeps env OnSound requests (each-OnSound env requests) c p
