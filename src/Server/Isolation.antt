-- ===== src/Server/Isolation.antt =====
-- Many peers of the management port at once: what those that are not authenticated can do together, and
-- which requests authenticate a connection.
use dbl_service.Prelude.{
  String, Bool, ◌≡◌, ◌≢◌, refl, ap, true, false, List, ◌==◌, eq_iff, Bool-cases, inl, inr,
}
use dbl_service.Fallible.{ok}
use dbl_service.Fallible.Triples.{Outcome}
use dbl_service.Storage.{Tables}
use dbl_service.Storage.Session.{healthy}
use dbl_service.Auth.{verdict}
use dbl_service.Auth.Laws.{password, or_default-empty}
use dbl_service.Service.{Env}
use dbl_service.Service.Dispatch.{connect}
use dbl_service.Service.Admission.{Presents, Outside, answer-Outside}
use dbl_service.Service.Conversations.{read-keeps}
use dbl_service.Server.{Server, Event, started, run}
use dbl_service.Server.Invariants.{Keeping, Held, AllFit, run-Held}
use dbl_service.Server.Management.{
  Shared, Member, with_token, connection_of, construct, reply, management,
}

module _ (env : Env) (t : Tables) (q : Bool) where
  abbrev pub Unchanged : Shared → Type 0
  Unchanged s = (s.store ≡ healthy t) × (s.stop_signaled ≡ q)

  abbrev pub IsOutside : Member → Type 0
  IsOutside m = m.is_authenticated ≡ false

  -- The request does not present the hash for the token of the connection that it comes to.
  abbrev pub Guesses : Shared → Member → String → Type 0
  Guesses s m request = ¬ Presents (with_token env m.token) t request

  abbrev Any : String → Type 0
  Any token = Unit

  -- A new connection is authenticated exactly if no password is set.
  construct-healthy :
      (token : String) (s : Shared)
      → s.store ≡ healthy t
      → construct env token s ≡ (
        ok (record {
          token = token;
          is_authenticated = verdict env.md5 token (password t) "";
          is_open = true;
        }),
        record s { store = healthy t },
      )
  unfolding construct connect
  construct-healthy token s up = rw up (
      ap
        (λ p. (
          ok (record {
            token = token;
            is_authenticated = verdict env.md5 token p "";
            is_open = true;
          }),
          record s { store = healthy t },
        ))
        (or_default-empty (password t)))

  locked : (token : String) → password t ≢ "" → verdict env.md5 token (password t) "" ≡ false
  locked token set = elim (Bool-cases (password t == "")) [
    | inl e ↦ absurd (set ((eq_iff (password t) "").0 e))
    | inr e ↦ rw e refl
  ]

  construct-Outside :
      (token : String) (s : Shared)
      → password t ≢ ""
      → Unchanged s
      → Outcome
          (λ m u. Unchanged u × IsOutside m)
          Unchanged
          (construct env token s).0
          (construct env token s).1
  construct-Outside token s set p =
      rw (construct-healthy token s p.0) ((refl, p.1), locked token set)

  reply-Outside :
      (request : String) (s : Shared) (m : Member)
      → password t ≢ ""
      → Guesses s m request
      → Unchanged s
      → IsOutside m
      → Unchanged (reply env request (s, m)).1.0 × IsOutside (reply env request (s, m)).1.1
  unfolding reply
  reply-Outside request s m set g p o =
      let own = with_token env m.token in
      let c = connection_of s m in
      let before : Outside t q c = record {
        not_authenticated = o;
        same_store = p.0;
        same_stop = p.1;
      } in
      let after =
        read-keeps own (Outside t q) request c (answer-Outside own t q request set g c before) in
      ((after.same_store, after.same_stop), after.not_authenticated)

  outsiders : password t ≢ "" → Keeping (management env) Unchanged IsOutside Any Guesses
  outsiders set = record {
    construct-keeps = λ token s a p. construct-Outside token s set p;
    reply-keeps = λ request s m g p o. reply-Outside request s m set g p o;
  }

  -- Any number of peers connect to the management port of a database that answers and has a password,
  -- and their requests, reads, writes and failures come in any order. Where no request presents the
  -- right hash for its own connection's token, no connection is ever authenticated, the database keeps
  -- its rows, and the service is not told to stop.
  pub run-Outside :
      (es : List Event) (s : Server (management env))
      → password t ≢ ""
      → AllFit (management env) Any Guesses es (started (management env) s)
      → Held (management env) Unchanged IsOutside s
      → Held (management env) Unchanged IsOutside (run (management env) es s)
  run-Outside es s set f h = run-Held (outsiders set) es s f h
