-- ===== src/Server/Invariants.antt =====
-- What every server keeps, whatever its connections are: predicates on the shared state and on the
-- members of the connections.
use dbl_service.Prelude.{
  ℕ, String, Bool, true, false, none, some, List, [], ◌∷◌, ◌≡◌, All, All-append, All-get, All-set,
  get_elem?, Bool-cases, Option-cases, inl, inr,
}
use dbl_service.Fallible.{Result, ok, err, Exec, pure, continue, ◌>>=◌}
use dbl_service.Fallible.Triples.{Outcome}
use dbl_service.Server.{
  ConnectionType, Pending, reading, writing, nothing, Peer, Mode, idle, running, stopped, crashed,
  Event, connected, disconnected, unavailable, accepted, accepted_gone, accept_failed, received,
  read_failed, written, write_failed, stop_called, Server, add_peer, with_member, respond,
  accept_done, read_done, write_done, for_peer, settle, step_in, handle_event, step, run_events,
  started, run,
}

-- The predicates that a type of connections keeps, for the tokens that are drawn and the requests that
-- a connection gets.
pub record Keeping {S : Type 0} (kind : ConnectionType S) (P : S → Type 0)
    (Q : kind.Member → Type 0) (T : String → Type 0) (R : S → kind.Member → String → Type 0)
    : Type 0 where
  pub construct-keeps :
      (token : String) (s : S)
      → T token
      → P s
      → Outcome (λ m t. P t × Q m) P (kind.construct token s).0 (kind.construct token s).1
  pub reply-keeps :
      (request : String) (s : S) (m : kind.Member)
      → R s m request
      → P s
      → Q m
      → P (kind.reply request (s, m)).1.0 × Q (kind.reply request (s, m)).1.1

module _ {S : Type 0} (kind : ConnectionType S) where
  open kind use {Member}

  abbrev pub Held : (S → Type 0) → (Member → Type 0) → Server kind → Type 0
  Held P Q s = P s.shared × All (λ p. Q p.member) s.peers

  module _ (T : String → Type 0) (R : S → Member → String → Type 0) where
    -- What is assumed of an event, in the state that it meets.
    abbrev pub Fits : Event → Server kind → Type 0
    Fits (accepted token) s = T token
    Fits (received i request) s =
        (p : Peer Member) → get_elem? s.peers i ≡ some p → R s.shared p.member request
    Fits accepted_gone s = Unit
    Fits accept_failed s = Unit
    Fits (read_failed i) s = Unit
    Fits (written i) s = Unit
    Fits (write_failed i) s = Unit
    Fits stop_called s = Unit

    abbrev pub AllFit : List Event → Server kind → Type 0
    AllFit [] s = Unit
    AllFit (e ∷ es) s = Fits e s × AllFit es (step kind e s)

module _ {S : Type 0} {kind : ConnectionType S} {P : S → Type 0} {Q : kind.Member → Type 0}
    {T : String → Type 0} {R : S → kind.Member → String → Type 0} (k : Keeping kind P Q T R) where
  open kind use {Member}

  added-Held :
      (r : Result Member) (t : S) (s : Server kind)
      → Outcome (λ m t. P t × Q m) P r t
      → All (λ p. Q p.member) s.peers
      → Held kind P Q (continue r (add_peer kind) (record s { shared = t })).1
  added-Held (ok m) t s o h = (o.0, All-append _ s.peers _ h (o.1, tt))
  added-Held (err e) t s o h = (o, h)

  responded-Held :
      (r : Result String) (t : S) (m : Member) (i : ℕ) (p : Peer Member) (s : Server kind)
      → P t × Q m
      → All (λ p. Q p.member) s.peers
      → Held kind P Q
          (continue (with_member kind r m) (respond kind i p) (record s { shared = t })).1
  responded-Held (ok response) t m i p s o h = (o.0, All-set _ s.peers i _ h o.1)
  responded-Held (err e) t m i p s o h = (o.0, h)

  accept_done-Held :
      (b : Bool) (token : String) (s : Server kind)
      → T token
      → Held kind P Q s
      → Held kind P Q (accept_done kind b (connected token) s).1
  unfolding ◌>>=◌
  accept_done-Held false token s f h = h
  accept_done-Held true token s f h =
      let (r, t) = kind.construct token s.shared in
      added-Held r t (record s { is_accepting = false }) (k.construct-keeps token s.shared f h.0)
        h.1

  read_done-Held :
      (i : ℕ) (p : Peer Member) (w : Pending) (request : String) (s : Server kind)
      → R s.shared p.member request
      → Q p.member
      → Held kind P Q s
      → Held kind P Q (read_done kind i p w (some request) s).1
  unfolding ◌>>=◌
  read_done-Held i p reading request s f q h =
      let x = kind.reply request (s.shared, p.member) in
      responded-Held x.0 x.1.0 x.1.1 i p s (k.reply-keeps request s.shared p.member f h.0 q) h.1
  read_done-Held i p (writing response) request s f q h = h
  read_done-Held i p nothing request s f q h = h

  write_done-Held :
      (i : ℕ) (p : Peer Member) (w : Pending) (b : Bool) (s : Server kind)
      → Q p.member
      → Held kind P Q s
      → Held kind P Q (write_done kind i p w b s).1
  unfolding pure
  write_done-Held i p (writing response) true s q h = elim (Bool-cases (kind.is_open p.member)) [
    | inl e ↦ rw e (h.0, All-set _ s.peers i _ h.1 q)
    | inr e ↦ rw e (h.0, All-set _ s.peers i _ h.1 q)
  ]
  write_done-Held i p (writing response) false s q h = (h.0, All-set _ s.peers i _ h.1 q)
  write_done-Held i p reading b s q h = h
  write_done-Held i p nothing b s q h = h

  for_peer-Held :
      (s : Server kind) (i : ℕ) (f : Peer Member → Exec (Server kind) (Unit {0}))
      → Held kind P Q s
      → ((p : Peer Member) → get_elem? s.peers i ≡ some p → Q p.member → Held kind P Q (f p s).1)
      → Held kind P Q (for_peer kind (get_elem? s.peers i) f s).1
  unfolding pure
  for_peer-Held s i f h each = elim (Option-cases (get_elem? s.peers i)) [
    | inl e ↦ rw e h
    | inr (p, e) ↦ rw e (each p e (All-get _ s.peers i h.1 e))
  ]

  read_failed-Held :
      (i : ℕ) (p : Peer Member) (w : Pending) (s : Server kind)
      → Q p.member
      → Held kind P Q s
      → Held kind P Q (read_done kind i p w none s).1
  unfolding ◌>>=◌
  read_failed-Held i p reading s q h = (h.0, All-set _ s.peers i _ h.1 q)
  read_failed-Held i p (writing response) s q h = h
  read_failed-Held i p nothing s q h = h

  disconnected-Held :
      (b : Bool) (s : Server kind)
      → Held kind P Q s
      → Held kind P Q (accept_done kind b disconnected s).1
  unfolding ◌>>=◌
  disconnected-Held true s h = h
  disconnected-Held false s h = h

  accept_failed-Held :
      (b : Bool) (s : Server kind)
      → Held kind P Q s
      → Held kind P Q (accept_done kind b unavailable s).1
  unfolding ◌>>=◌
  accept_failed-Held true s h = h
  accept_failed-Held false s h = h

  handle_event-Held :
      (e : Event) (s : Server kind)
      → Fits kind T R e s
      → Held kind P Q s
      → Held kind P Q (handle_event kind e s).1
  unfolding handle_event
  handle_event-Held (accepted token) s f h = accept_done-Held s.is_accepting token s f h
  handle_event-Held accepted_gone s f h = disconnected-Held s.is_accepting s h
  handle_event-Held accept_failed s f h = accept_failed-Held s.is_accepting s h
  handle_event-Held (received i request) s f h =
      for_peer-Held s i _ h (λ p e q. read_done-Held i p p.pending request s (f p e) q h)
  handle_event-Held (read_failed i) s f h =
      for_peer-Held s i _ h (λ p e q. read_failed-Held i p p.pending s q h)
  handle_event-Held (written i) s f h =
      for_peer-Held s i _ h (λ p e q. write_done-Held i p p.pending true s q h)
  handle_event-Held (write_failed i) s f h =
      for_peer-Held s i _ h (λ p e q. write_done-Held i p p.pending false s q h)
  handle_event-Held stop_called s f h = h

  settled-Held :
      (r : Result (Unit {0})) (s : Server kind) → Held kind P Q s → Held kind P Q (settle kind r s)
  settled-Held (ok a) s h = h
  settled-Held (err e) s h = h

  step_in-Held :
      (m : Mode) (e : Event) (s : Server kind)
      → Fits kind T R e s
      → Held kind P Q s
      → Held kind P Q (step_in kind m e s)
  step_in-Held running e s f h =
      let (r, s') = handle_event kind e s in settled-Held r s' (handle_event-Held e s f h)
  step_in-Held idle e s f h = h
  step_in-Held stopped e s f h = h
  step_in-Held crashed e s f h = h

  pub step-Held :
      (e : Event) (s : Server kind)
      → Fits kind T R e s
      → Held kind P Q s
      → Held kind P Q (step kind e s)
  unfolding step
  step-Held e s f h = step_in-Held s.mode e s f h

  pub run_events-Held :
      (es : List Event) (s : Server kind)
      → AllFit kind T R es s
      → Held kind P Q s
      → Held kind P Q (run_events kind es s)
  unfolding run_events
  run_events-Held [] s f h = h
  run_events-Held (e ∷ es) s f h = run_events-Held es (step kind e s) f.1 (step-Held e s f.0 h)

  -- Server::run
  pub run-Held :
      (es : List Event) (s : Server kind)
      → AllFit kind T R es (started kind s)
      → Held kind P Q s
      → Held kind P Q (run kind es s)
  unfolding run
  run-Held es s f h = run_events-Held es (started kind s) f h
