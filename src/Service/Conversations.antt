-- ===== src/Service/Conversations.antt =====
-- What every request of a conversation with one connection keeps: read() and the loop around it in
-- src/dbl/service/server/connection.cxx.
use Prim.Native.String.{◌++◌}
use dbl_service.Prelude.{String, List, [], ◌∷◌, if◌then◌else◌, Bool-cases, inl, inr, All}
use dbl_service.Fallible.{
  handle_any, logic_error, runtime_error, operation_error, null_pointer, Result, ok, err, Exec,
  pure, throw, continue, ◌>>=◌,
}
use dbl_service.Service.{Env, Connection}
use dbl_service.Service.Dispatch.{answer, process_request, read, failed, serve}

module _ (env : Env) where
  -- What serve() does after a request.
  abbrev pub rest_of : List String → String → Exec Connection (List String)
  rest_of requests response c =
      let rest = serve env requests in
      (if c.is_open
          then (do responses ← rest; pure ((response ++ "\r\n") ∷ responses))
          else pure [])
        c

-- serve() keeps what each answer keeps.
module _ (env : Env) (P : Connection → Type 0) where
  printed :
      (r : Result env.json.Value) (c : Connection)
      → P c
      → P (continue r (λ v. pure (env.json.print v)) c).1
  unfolding pure
  printed (ok v) c p = p
  printed (err e) c p = p

  process_request-keeps :
      (request : String) (c : Connection)
      → P (answer env request c).1
      → P (process_request env request c).1
  unfolding process_request ◌>>=◌
  process_request-keeps request c p = let (r, c') = answer env request c in printed r c' p

  recovered : (r : Result String) (c : Connection) → P c → P (handle_any r (failed env) c).1
  unfolding pure throw
  recovered (ok v) c p = p
  recovered (err (runtime_error m)) c p = p
  recovered (err (operation_error m es)) c p = p
  recovered (err null_pointer) c p = p
  recovered (err (logic_error m)) c p = p

  pub read-keeps :
      (request : String) (c : Connection) → P (answer env request c).1 → P (read env request c).1
  unfolding read
  read-keeps request c p =
      let (r, c') = process_request env request c in
      recovered r c' (process_request-keeps request c p)

  gathered :
      (text : String) (rest : Result (List String)) (c : Connection)
      → P c
      → P (continue rest (λ rs. pure (text ∷ rs)) c).1
  unfolding pure
  gathered text (ok rs) c p = p
  gathered text (err e) c p = p

  resumed :
      (requests : List String) (r : Result String) (c : Connection)
      → P c
      → ((c : Connection) → P c → P (serve env requests c).1)
      → P (continue r (rest_of env requests) c).1
  unfolding ◌>>=◌
  resumed requests (err e) c p later = p
  resumed requests (ok response) c p later = elim (Bool-cases c.is_open) [
    | inr e ↦ simp e p
    | inl e ↦
        simp e
          (let (rs, c') = serve env requests c in gathered (response ++ "\r\n") rs c' (later c p))
  ]

  pub serve-keeps :
      (requests : List String)
      → All (λ r. (c : Connection) → P c → P (answer env r c).1) requests
      → (c : Connection) → P c
      → P (serve env requests c).1
  unfolding serve ◌>>=◌
  serve-keeps [] each c p = p
  serve-keeps (request ∷ requests) each c p =
      let (r, c') = read env request c in
      resumed requests r c' (read-keeps request c (each.0 c p)) (serve-keeps requests each.1)
