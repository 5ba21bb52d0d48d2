-- ===== src/Server/Authentication.antt =====
-- How a connection to the management port becomes authenticated, among others that are authenticated
-- already and change what they like.
use dbl_service.Prelude.{ℕ, String, ◌≡◌, ◌⊎◌, ap, true, false, some, get_elem?}
use dbl_service.Storage.{Tables}
use dbl_service.Storage.Session.{healthy}
use dbl_service.Auth.Laws.{password}
use dbl_service.Service.{Env}
use dbl_service.Service.Admission.{Presents, Admits, answer-Presents}
use dbl_service.Service.Conversations.{read-keeps}
use dbl_service.Server.{
  Server, Peer, Event, accepted, accepted_gone, accept_failed, received, read_failed, written,
  write_failed, stop_called, step,
}
use dbl_service.Server.Peers.{Answers, step-At}
use dbl_service.Server.Management.{Member, Shared, with_token, connection_of, reply, management}

module _ (env : Env) (t : Tables) (j : ℕ) (p : Peer Member)
    (n : p.member.is_authenticated ≡ false) where
  -- The event is a request of connection j that presents the right hash, unless no password is set.
  abbrev pub Proves : Event → Type 0
  Proves e =
      (request : String) × (e ≡ received j request)
      × ((password t ≡ "") ⊎ Presents (with_token env p.member.token) t request)

  abbrev Earns : Event → Member → Type 0
  Earns e m = m.is_authenticated ≡ true → Proves e

  reply-Admits :
      (request : String) (s : Shared)
      → s.store ≡ healthy t
      → (reply env request (s, p.member)).1.1.is_authenticated ≡ true
      → (password t ≡ "") ⊎ Presents (with_token env p.member.token) t request
  unfolding reply
  reply-Admits request s up =
      let own = with_token env p.member.token in
      let c = connection_of s p.member in
      read-keeps own (Admits own t request) request c (answer-Presents own t request c n up)

  answers :
      (e : Event) (s : Server (management env))
      → s.shared.store ≡ healthy t
      → Answers (management env) j p (Earns e) e s
  answers (received i request) s up =
      λ same y. (request, ap (λ k. received k request) same, reply-Admits request s.shared up y)
  answers (accepted token) s up = tt
  answers accepted_gone s up = tt
  answers accept_failed s up = tt
  answers (read_failed i) s up = tt
  answers (written i) s up = tt
  answers (write_failed i) s up = tt
  answers stop_called s up = tt

  -- An event of the management port, on a database that answers, authenticates a connection that was
  -- not authenticated only if it is a request of this very connection that presents the right hash for
  -- its own token, or no password is set.
  pub step-authenticates :
      (e : Event) (s : Server (management env)) (p' : Peer Member)
      → s.shared.store ≡ healthy t
      → get_elem? s.peers j ≡ some p
      → get_elem? (step (management env) e s).peers j ≡ some p'
      → p'.member.is_authenticated ≡ true
      → Proves e
  step-authenticates e s p' up h h' y =
      step-At (management env) j p (Earns e) (λ y. absurd (cc (n, y))) e s h (answers e s up) p' h'
        y
