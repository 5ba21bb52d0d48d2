-- ===== src/Service/Gate.antt =====
-- What a peer that is not authenticated can do: nothing but ask for its token and present a hash.
use dbl_service.Prelude.{
  String, ◌≡◌, refl, Bool, true, false, Option, none, some, ◌==◌, Bool-cases, inl, inr,
}
use dbl_service.Fallible.{
  runtime_error, operation_error, null_pointer, logic_error, Result, ok, err, Exec, pure, throw,
  handle, continue, ◌>>=◌,
}
use dbl_service.Fallible.Keeps.{Keeps, Keeps-bind, keeps_rules}
use dbl_service.Fallible.Results.{lift}
use dbl_service.Storage.{Store, Tables}
use dbl_service.Storage.Session.{query, healthy}
use dbl_service.Manager.Settings
use dbl_service.Auth.{auth}
use dbl_service.Service.{Env, Connection, on_store}
use dbl_service.Service.Dispatch.{
  accept, handle_auth, handle_get_token, dispatch, answer, answer_parsed, answer_root, report,
  success_with,
}
use dbl_service.Service.Reads.{Keeps-query_tables, Keeps-query-healthy, Keeps-lift}

-- The database is as a predicate says, the socket and the service's stop flag are as given.
pub record Untouched (Q : Store → Type 0) (o q : Bool) (c : Connection) : Type 0 where
  pub same_store : Q c.store
  pub same_open : c.is_open ≡ o
  pub same_stop : c.stop_signaled ≡ q

module _ (Q : Store → Type 0) (reads : (f : Tables → Option String) → Keeps Q (query f))
    (o q : Bool) where
  on_store-Untouched :
      {A : Type 0} (m : Exec Store A) → Keeps Q m → Keeps (Untouched Q o q) (on_store m)
  unfolding on_store
  on_store-Untouched m k = record {
    holds = λ c u. record {
      same_store = k.holds c.store u.same_store;
      same_open = u.same_open;
      same_stop = u.same_stop;
    };
  }

  setting_reads : (k d : String) → Keeps Q (Settings.get k d)
  unfolding Settings.get
  setting_reads k d = search (keeps_rules, reads)

  auth_reads : (md5 : String → String) (token hash : String) → Keeps Q (auth md5 token hash)
  unfolding auth
  auth_reads md5 token hash = search (keeps_rules, setting_reads)

  module _ (env : Env) where
    open env use {json, md5, to_lower, token}
    open env.json use {Value, parse, member, as_string, object_value}

    handle_get_token-Untouched : (r : Value) → Keeps (Untouched Q o q) (handle_get_token env r)
    unfolding handle_get_token
    handle_get_token-Untouched r = search keeps_rules

    accept-Untouched : (b : Bool) (r : Value) → Keeps (Untouched Q o q) (accept env b r)
    unfolding pure throw
    accept-Untouched true r = record {
      holds = λ c u. record {
        same_store = u.same_store;
        same_open = u.same_open;
        same_stop = u.same_stop;
      };
    }
    accept-Untouched false r = record { holds = λ c u. u }

    handle_auth-Untouched : (d r : Value) → Keeps (Untouched Q o q) (handle_auth env d r)
    unfolding handle_auth
    handle_auth-Untouched d r = Keeps-bind _ _ _ (Keeps-lift _ (member d "hash")) λ v.
        Keeps-bind _ _ _ (Keeps-lift _ (as_string v)) λ h.
          Keeps-bind _ _ _ (on_store-Untouched _ (auth_reads md5 token h)) λ b. accept-Untouched b r

    dispatch-Untouched :
        (cmd : String) (d r : Value) (c : Connection)
        → c.is_authenticated ≡ false
        → Untouched Q o q c
        → Untouched Q o q (dispatch env cmd d r c).1
    dispatch-Untouched cmd d r c n u = elim (Bool-cases (cmd == "get_token")) [
      | inl e ↦ unfold dispatch in rw e ((handle_get_token-Untouched r).holds c u)
      | inr e ↦ elim (Bool-cases (cmd == "auth")) [
        | inl f ↦ unfold dispatch in rw (e, f) ((handle_auth-Untouched d r).holds c u)
        | inr f ↦ unfold dispatch in rw (e, f) (simp n u)
      ]
    ]

-- What process_request leaves of a connection is what the dispatch of the request's command leaves.
module _ (env : Env) (P : Connection → Type 0) where
  open env use {json}
  open env.json use {Value, parse, member, as_string, object_value}

  reported : (r : Result Value) (c : Connection) → P c → P (handle r (report env) c).1
  unfolding pure throw
  reported (ok v) c p = p
  reported (err (runtime_error m)) c p = p
  reported (err (operation_error m es)) c p = p
  reported (err null_pointer) c p = p
  reported (err (logic_error m)) c p = p

  module _ (root : Value) (c : Connection) (p : P c)
      (each : (cmd : String) (d : Value)
        → member root "data" ≡ ok d
        → P (dispatch env cmd d object_value c).1) where
    settle :
        (m : Result Value × Connection)
        → P m.1
        → P (continue m.0 (λ v. pure (success_with env v)) m.1).1
    unfolding pure
    settle (ok v, c') h = h
    settle (err e, c') h = h

    with_data :
        (cmd : String) (r : Result Value)
        → member root "data" ≡ r
        → P
            (continue r
              (λ d. dispatch env cmd d object_value >>= λ v. pure (success_with env v))
              c).1
    unfolding ◌>>=◌
    with_data cmd (ok d) e = settle (dispatch env cmd d object_value c) (each cmd d e)
    with_data cmd (err x) e = p

    with_text :
        (r : Result String)
        → P
            (continue r
              (λ s. lift (member root "data") >>= λ d.
                dispatch env (env.to_lower s) d object_value >>= λ v. pure (success_with env v))
              c).1
    unfolding ◌>>=◌ lift
    with_text (ok s) = with_data (env.to_lower s) (member root "data") refl
    with_text (err x) = p

    with_command :
        (r : Result Value)
        → P
            (continue r
              (λ x. lift (as_string x) >>= λ s. lift (member root "data") >>= λ d.
                dispatch env (env.to_lower s) d object_value >>= λ v. pure (success_with env v))
              c).1
    unfolding ◌>>=◌ lift
    with_command (ok x) = with_text (as_string x)
    with_command (err x) = p

    answer_root-leaves : P (answer_root env root c).1
    unfolding ◌>>=◌ lift
    answer_root-leaves = with_command (member root "command")

  answer_parsed-leaves :
      (request : String) (o : Option Value) (c : Connection)
      → parse request ≡ o
      → P c
      → ((root : Value) (cmd : String) (d : Value)
          → parse request ≡ some root
          → member root "data" ≡ ok d
          → P (dispatch env cmd d object_value c).1)
      → P (answer_parsed env request o c).1
  unfolding throw
  answer_parsed-leaves request none c e p each = p
  answer_parsed-leaves request (some root) c e p each =
      answer_root-leaves root c p (λ cmd d. each root cmd d e)

  pub answer-leaves :
      (request : String) (c : Connection)
      → P c
      → ((root : Value) (cmd : String) (d : Value)
          → parse request ≡ some root
          → member root "data" ≡ ok d
          → P (dispatch env cmd d object_value c).1)
      → P (answer env request c).1
  unfolding answer
  answer-leaves request c p each =
      let (r, c') = answer_parsed env request (parse request) c in
      reported r c' (answer_parsed-leaves request (parse request) c refl p each)

pub answer-Untouched_of :
    (Q : Store → Type 0) (reads : (f : Tables → Option String) → Keeps Q (query f)) (env : Env)
    (request : String) (c : Connection)
    → c.is_authenticated ≡ false
    → Q c.store
    → Untouched Q c.is_open c.stop_signaled (answer env request c).1
answer-Untouched_of Q reads env request c n u =
    let here : Untouched Q c.is_open c.stop_signaled c = record {
      same_store = u;
      same_open = refl;
      same_stop = refl;
    } in
    answer-leaves env (Untouched Q c.is_open c.stop_signaled) request c here
      λ root cmd d e f. dispatch-Untouched Q reads _ _ env cmd d _ c n here

-- Whatever a peer that is not authenticated sends, and whatever statement fails, the database keeps its
-- rows, the socket stays open and the service is not told to stop.
pub answer-Untouched :
    (env : Env) (request : String) (c : Connection)
    → c.is_authenticated ≡ false
    → ((answer env request c).1.store.tables ≡ c.store.tables)
      × ((answer env request c).1.is_open ≡ c.is_open)
      × ((answer env request c).1.stop_signaled ≡ c.stop_signaled)
answer-Untouched env request c n =
    let u =
      answer-Untouched_of (λ s. s.tables ≡ c.store.tables) (Keeps-query_tables c.store.tables) env
        request c n refl in
    (u.same_store, u.same_open, u.same_stop)

-- On a database that answers, also its schedule of faults stays empty.
pub answer-healthy :
    (env : Env) (request : String) (t : Tables) (c : Connection)
    → c.is_authenticated ≡ false
    → c.store ≡ healthy t
    → Untouched (λ s. s ≡ healthy t) c.is_open c.stop_signaled (answer env request c).1
answer-healthy env request t c n u =
    answer-Untouched_of (λ s. s ≡ healthy t) (Keeps-query-healthy t) env request c n u
