-- ===== src/Service/Admission.antt =====
-- Which request makes a connection authenticated, and what follows for a whole conversation.
use Prim.Native.String.{◌++◌}
use dbl_service.Prelude.{
  String, ◌≡◌, ◌≢◌, refl, Bool, true, false, some, List, [], ◌∷◌, arith, ◌==◌, eq_iff, Bool-cases,
  inl, inr, ◌⊎◌, ◌∙◌, All,
}
use dbl_service.Fallible.{Result, ok, err, pure, throw, continue, ◌>>=◌}
use dbl_service.Fallible.Results.{lift}
use dbl_service.Storage.{Store, Tables}
use dbl_service.Storage.Session.{healthy}
use dbl_service.Auth.{auth, verdict}
use dbl_service.Auth.Laws.{password, auth-healthy}
use dbl_service.Service.{Env, Connection, on_store}
use dbl_service.Service.Dispatch.{accept, handle_auth, handle_get_token, dispatch, answer, serve}
use dbl_service.Service.Conversations.{serve-keeps}
use dbl_service.Service.Gate.{answer-leaves, answer-healthy}

-- The request parses to an object whose data has, under "hash", the hash of the stored password hash
-- followed by the connection's token.
pub record Presents (env : Env) (t : Tables) (request : String) : Type 0 where
  pub root : env.json.Value
  pub data_value : env.json.Value
  pub hash_value : env.json.Value
  pub hash : String
  pub parses : env.json.parse request ≡ some root
  pub has_data : env.json.member root "data" ≡ ok data_value
  pub has_hash : env.json.member data_value "hash" ≡ ok hash_value
  pub is_text : env.json.as_string hash_value ≡ ok hash
  pub is_given : hash ≢ ""
  pub fits : env.md5 (password t ++ env.token) ≡ hash

module _ (env : Env) (t : Tables) (request : String) where
  open env use {json, md5, token}
  open env.json use {Value, parse, member, as_string}

  -- What an authenticated connection shows.
  abbrev pub Admits : Connection → Type 0
  Admits c = c.is_authenticated ≡ true → (password t ≡ "") ⊎ Presents env t request

  module _ (root d : Value) (parses : parse request ≡ some root)
      (has_data : member root "data" ≡ ok d) (c : Connection) (n : c.is_authenticated ≡ false)
      (up : c.store ≡ healthy t) where
    refused : Admits c
    refused y = absurd (cc (n, y))

    accepted :
        (v : Value) (h : String)
        → member d "hash" ≡ ok v
        → as_string v ≡ ok h
        → verdict md5 token (password t) h ≡ true
        → (password t ≡ "") ⊎ Presents env t request
    accepted v h e f g = elim (Bool-cases (password t == "")) [
      | inl p ↦ inl ((eq_iff (password t) "").0 p)
      | inr p ↦ inr (record {
        root = root;
        data_value = d;
        hash_value = v;
        hash = h;
        parses = parses;
        has_data = has_data;
        has_hash = e;
        is_text = f;
        is_given = ground (arith, eq_iff h "");
        fits = ground (arith, eq_iff (md5 (password t ++ token)) h, eq_iff h "");
      })
    ]

    accept-Admits :
        (v : Value) (h : String) (r : Value) (b : Bool) (s : Store)
        → member d "hash" ≡ ok v
        → as_string v ≡ ok h
        → verdict md5 token (password t) h ≡ b
        → Admits (accept env b r (record c { store = s })).1
    unfolding pure throw
    accept-Admits v h r true s e f g y = accepted v h e f g
    accept-Admits v h r false s e f g y = refused y

    with_hash :
        (v r : Value) (x : Result String)
        → member d "hash" ≡ ok v
        → as_string v ≡ x
        → Admits (continue x (λ h. on_store (auth md5 token h) >>= λ b. accept env b r) c).1
    unfolding ◌>>=◌ on_store
    with_hash v r (err z) e f = refused
    with_hash v r (ok h) e f =
        rw up (rw (auth-healthy md5 token h t) (accept-Admits v h r _ (healthy t) e f refl))

    with_member :
        (r : Value) (x : Result Value)
        → member d "hash" ≡ x
        → Admits
            (continue x
              (λ v. lift (as_string v) >>= λ h. on_store (auth md5 token h) >>= λ b. accept env b r)
              c).1
    unfolding ◌>>=◌ lift
    with_member r (err z) e = refused
    with_member r (ok v) e = with_hash v r (as_string v) e refl

    handle_auth-Admits : (r : Value) → Admits (handle_auth env d r c).1
    unfolding handle_auth ◌>>=◌ lift
    handle_auth-Admits r = with_member r (member d "hash") refl

    dispatch-Admits : (cmd : String) (r : Value) → Admits (dispatch env cmd d r c).1
    dispatch-Admits cmd r = elim (Bool-cases (cmd == "get_token")) [
      | inl e ↦ unfold dispatch handle_get_token pure in rw e refused
      | inr e ↦ elim (Bool-cases (cmd == "auth")) [
        | inl f ↦ unfold dispatch in rw (e, f) (handle_auth-Admits r)
        | inr f ↦ unfold dispatch throw in rw (e, f) (simp n (λ y. absurd (cc y)))
      ]
    ]

-- On a database that answers, a request that makes a connection authenticated presents the right hash, unless
-- no password is set.
pub answer-Presents :
    (env : Env) (t : Tables) (request : String) (c : Connection)
    → c.is_authenticated ≡ false
    → c.store ≡ healthy t
    → (answer env request c).1.is_authenticated ≡ true
    → (password t ≡ "") ⊎ Presents env t request
answer-Presents env t request c n up =
    answer-leaves env (Admits env t request) request c (λ y. absurd (cc (n, y)))
      λ root cmd d e f. dispatch-Admits env t request root d e f c n up cmd _

-- A connection that is not authenticated, on the given rows, with the service's stop flag as given.
pub record Outside (t : Tables) (q : Bool) (c : Connection) : Type 0 where
  pub not_authenticated : c.is_authenticated ≡ false
  pub same_store : c.store ≡ healthy t
  pub same_stop : c.stop_signaled ≡ q

pub answer-Outside :
    (env : Env) (t : Tables) (q : Bool) (request : String)
    → password t ≢ ""
    → ¬ Presents env t request
    → (c : Connection) → Outside t q c
    → Outside t q (answer env request c).1
answer-Outside env t q request set never c o =
    let u = answer-healthy env request t c o.not_authenticated o.same_store in
    record {
      not_authenticated = elim (Bool-cases (answer env request c).1.is_authenticated) [
        | inr e ↦ e
        | inl e ↦
            absurd (elim (answer-Presents env t request c o.not_authenticated o.same_store e) [
              | inl p ↦ set p
              | inr p ↦ never p
            ])
      ];
      same_store = u.same_store;
      same_stop = u.same_stop ∙ o.same_stop;
    }

never-Outside :
    (env : Env) (t : Tables) (q : Bool) (requests : List String)
    → password t ≢ ""
    → All (λ r. ¬ Presents env t r) requests
    → All (λ r. (c : Connection) → Outside t q c → Outside t q (answer env r c).1) requests
never-Outside env t q [] set never = tt
never-Outside env t q (r ∷ rs) set never =
    (answer-Outside env t q r set never.0, never-Outside env t q rs set never.1)

-- A peer that never presents the right hash, to a database that answers and has a password, ends its
-- conversation as it began it: not authenticated, with the same rows, and no stop of the service.
pub serve-Outside :
    (env : Env) (t : Tables) (q : Bool) (requests : List String) (c : Connection)
    → password t ≢ ""
    → All (λ r. ¬ Presents env t r) requests
    → Outside t q c
    → Outside t q (serve env requests c).1
serve-Outside env t q requests c set never o =
    serve-keeps env (Outside t q) requests (never-Outside env t q requests set never) c o
