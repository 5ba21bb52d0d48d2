-- ===== src/Server/Peers.antt =====
-- What an event of a server does to one of its connections: only the connection's own requests change
-- its members, whatever the others send in between.
use dbl_service.Prelude.{
  ℕ, String, Bool, true, false, none, some, ◌≡◌, inl, inr, sym, ap, ◌∙◌, get_elem?, set, eqb,
  eqb_iff, Bool-cases, Option-cases, get_elem?-append, get_elem?-set_self, get_elem?-set_other,
}
use mathlib.Core.Path.{subst}
use dbl_service.Fallible.{Result, ok, err, Exec, pure, continue, ◌>>=◌}
use dbl_service.Server.{
  ConnectionType, Pending, reading, writing, nothing, Peer, Mode, idle, running, stopped, crashed,
  Event, connected, disconnected, unavailable, accepted, accepted_gone, accept_failed, received,
  read_failed, written, write_failed, stop_called, Server, add_peer, with_member, respond,
  accept_done, read_done, write_done, for_peer, settle, step_in, handle_event, step,
}

module _ {S : Type 0} (kind : ConnectionType S) (j : ℕ) (p : Peer kind.Member)
    (X : kind.Member → Type 0) where
  -- What the connection's own request makes of its members.
  abbrev pub Answers : Event → Server kind → Type 0
  Answers (received i request) s = i ≡ j → X (kind.reply request (s.shared, p.member)).1.1
  Answers (accepted token) s = Unit
  Answers accepted_gone s = Unit
  Answers accept_failed s = Unit
  Answers (read_failed i) s = Unit
  Answers (written i) s = Unit
  Answers (write_failed i) s = Unit
  Answers stop_called s = Unit

module _ {S : Type 0} (kind : ConnectionType S) (j : ℕ) (p : Peer kind.Member)
    (X : kind.Member → Type 0) (unchanged : X p.member) where
  open kind use {Member}

  -- What becomes of the connection.
  abbrev pub At : Server kind → Type 0
  At s = (q : Peer Member) → get_elem? s.peers j ≡ some q → X q.member

  abbrev pub Present : Server kind → Type 0
  Present s = get_elem? s.peers j ≡ some p

  moved : (q r : Peer Member) → some q ≡ some r → X q.member → X r.member
  moved q r e x = let same : q ≡ r = cc e in subst (λ (y : Peer Member). X y.member) same x

  kept : (s : Server kind) → Present s → At s
  kept s h q e = moved p q (sym h ∙ e) unchanged

  at-set :
      (i : ℕ) (r : Peer Member) (s : Server kind)
      → Present s
      → (i ≡ j → X r.member)
      → (q : Peer Member) → get_elem? (set s.peers i r) j ≡ some q
      → X q.member
  at-set i r s h x q e = elim (Bool-cases (eqb i j)) [
    | inl d ↦
        let same : i ≡ j = (eqb_iff i j).0 d in
        let found : get_elem? (set s.peers i r) i ≡ some r =
          get_elem?-set_self s.peers i r (ap (get_elem? s.peers) same ∙ h) in
        let here : some r ≡ some q = sym found ∙ ap (get_elem? (set s.peers i r)) same ∙ e in
        moved r q here (x same)
    | inr d ↦ kept s h q (
        sym (get_elem?-set_other s.peers i j r (λ same. absurd (cc (d, (eqb_iff i j).1 same)))) ∙ e)
  ]

  added-At : (r : Result Member) (s : Server kind) → Present s → At (continue r (add_peer kind) s).1
  added-At (ok m) s h q e = kept s h q (h ∙ sym (get_elem?-append s.peers _ j h) ∙ e)
  added-At (err x) s h q e = kept s h q e

  accept_done-At :
      (b : Bool) (token : String) (s : Server kind)
      → Present s
      → At (accept_done kind b (connected token) s).1
  unfolding ◌>>=◌
  accept_done-At false token s h = kept s h
  accept_done-At true token s h =
      let (r, t) = kind.construct token s.shared in
      added-At r (record s { shared = t; is_accepting = false }) h

  responded-At :
      (r : Result String) (m : Member) (i : ℕ) (o : Peer Member) (s : Server kind)
      → Present s
      → (i ≡ j → X m)
      → At (continue (with_member kind r m) (respond kind i o) s).1
  responded-At (ok response) m i o s h x = at-set i _ s h x
  responded-At (err e) m i o s h x = kept s h

  read_done-At :
      (i : ℕ) (o : Peer Member) (w : Pending) (request : String) (s : Server kind)
      → Present s
      → (i ≡ j → X (kind.reply request (s.shared, o.member)).1.1)
      → At (read_done kind i o w (some request) s).1
  unfolding ◌>>=◌
  read_done-At i o reading request s h x =
      let y = kind.reply request (s.shared, o.member) in
      responded-At y.0 y.1.1 i o (record s { shared = y.1.0 }) h x
  read_done-At i o (writing response) request s h x = kept s h
  read_done-At i o nothing request s h x = kept s h

  read_failed-At :
      (i : ℕ) (o : Peer Member) (w : Pending) (s : Server kind)
      → Present s
      → (i ≡ j → X o.member)
      → At (read_done kind i o w none s).1
  unfolding ◌>>=◌
  read_failed-At i o reading s h x = at-set i _ s h x
  read_failed-At i o (writing response) s h x = kept s h
  read_failed-At i o nothing s h x = kept s h

  write_done-At :
      (i : ℕ) (o : Peer Member) (w : Pending) (b : Bool) (s : Server kind)
      → Present s
      → (i ≡ j → X o.member)
      → At (write_done kind i o w b s).1
  unfolding pure
  write_done-At i o (writing response) true s h x = elim (Bool-cases (kind.is_open o.member)) [
    | inl e ↦ rw e (at-set i _ s h x)
    | inr e ↦ rw e (at-set i _ s h x)
  ]
  write_done-At i o (writing response) false s h x = at-set i _ s h x
  write_done-At i o reading b s h x = kept s h
  write_done-At i o nothing b s h x = kept s h

  for_peer-At :
      (s : Server kind) (i : ℕ) (f : Peer Member → Exec (Server kind) (Unit {0}))
      → Present s
      → ((o : Peer Member) → (i ≡ j → p ≡ o) → At (f o s).1)
      → At (for_peer kind (get_elem? s.peers i) f s).1
  unfolding pure
  for_peer-At s i f h each = elim (Option-cases (get_elem? s.peers i)) [
    | inl e ↦ rw e (kept s h)
    | inr (o, e) ↦ rw e (
        each o (λ same.
          let both : some p ≡ some o = sym h ∙ ap (get_elem? s.peers) (sym same) ∙ e in cc both))
  ]

  own : (o : Peer Member) (i : ℕ) → (i ≡ j → p ≡ o) → i ≡ j → X o.member
  own o i f same = subst (λ (y : Peer Member). X y.member) (f same) unchanged

  disconnected-At :
      (b : Bool) (s : Server kind) → Present s → At (accept_done kind b disconnected s).1
  unfolding ◌>>=◌
  disconnected-At true s h = kept s h
  disconnected-At false s h = kept s h

  accept_failed-At :
      (b : Bool) (s : Server kind) → Present s → At (accept_done kind b unavailable s).1
  unfolding ◌>>=◌
  accept_failed-At true s h = kept s h
  accept_failed-At false s h = kept s h

  handle_event-At :
      (e : Event) (s : Server kind)
      → Present s
      → Answers kind j p X e s
      → At (handle_event kind e s).1
  unfolding handle_event
  handle_event-At (accepted token) s h a = accept_done-At s.is_accepting token s h
  handle_event-At accepted_gone s h a = disconnected-At s.is_accepting s h
  handle_event-At accept_failed s h a = accept_failed-At s.is_accepting s h
  handle_event-At (received i request) s h a = for_peer-At s i _ h λ o f.
      read_done-At i o o.pending request s h λ same.
        subst (λ (y : Peer Member). X (kind.reply request (s.shared, y.member)).1.1) (f same)
          (a same)
  handle_event-At (read_failed i) s h a =
      for_peer-At s i _ h (λ o f. read_failed-At i o o.pending s h (own o i f))
  handle_event-At (written i) s h a =
      for_peer-At s i _ h (λ o f. write_done-At i o o.pending true s h (own o i f))
  handle_event-At (write_failed i) s h a =
      for_peer-At s i _ h (λ o f. write_done-At i o o.pending false s h (own o i f))
  handle_event-At stop_called s h a = kept s h

  settled-At : (r : Result (Unit {0})) (s : Server kind) → At s → At (settle kind r s)
  settled-At (ok a) s h = h
  settled-At (err e) s h = h

  step_in-At :
      (m : Mode) (e : Event) (s : Server kind)
      → Present s
      → Answers kind j p X e s
      → At (step_in kind m e s)
  step_in-At running e s h a =
      let (r, s') = handle_event kind e s in settled-At r s' (handle_event-At e s h a)
  step_in-At idle e s h a = kept s h
  step_in-At stopped e s h a = kept s h
  step_in-At crashed e s h a = kept s h

  pub step-At :
      (e : Event) (s : Server kind) → Present s → Answers kind j p X e s → At (step kind e s)
  unfolding step
  step-At e s h a = step_in-At s.mode e s h a
