-- ===== src/Server/Listening.antt =====
-- accept() of server.hxx is called again by its own handler: a server goes on accepting for as long as it
-- runs.
use dbl_service.Prelude.{
  ℕ, String, Bool, true, false, Option, none, some, List, [], ◌∷◌, ◌≡◌, refl, push_back, get_elem?,
}
use dbl_service.Fallible.{Result, ok, err, Exec, pure, continue, ◌>>=◌}
use dbl_service.Server.{
  ConnectionType, Pending, reading, writing, nothing, Peer, Mode, idle, running, stopped, crashed,
  Event, Socket, connected, disconnected, unavailable, accepted, accepted_gone, accept_failed,
  received, read_failed, written, write_failed, stop_called, Server, add_peer, new_peer,
  with_member, respond, accept_done, read_done, write_done, for_peer, settle, step_in, handle_event,
  step, run_events, started, run,
}

module _ {S : Type 0} (kind : ConnectionType S) where
  open kind use {Member, construct}

  -- A handler that returns leaves an accept pending.
  abbrev Listens : Result (Unit {0}) × Server kind → Type 0
  Listens (ok _, s) = s.is_accepting ≡ true
  Listens (err e, s) = Unit

  added-Listens : (r : Result Member) (s : Server kind) → Listens (continue r (add_peer kind) s)
  added-Listens (ok m) s = refl
  added-Listens (err e) s = tt

  accept_done-Listens :
      (b : Bool) (socket : Socket) (s : Server kind)
      → s.is_accepting ≡ true
      → Listens (accept_done kind b socket s)
  unfolding ◌>>=◌
  accept_done-Listens true (connected token) s h = added-Listens (construct token s.shared).0 _
  accept_done-Listens true disconnected s h = tt
  accept_done-Listens true unavailable s h = refl
  accept_done-Listens false socket s h = h

  responded-Listens :
      (r : Result String) (m : Member) (i : ℕ) (p : Peer Member) (s : Server kind)
      → s.is_accepting ≡ true
      → Listens (continue (with_member kind r m) (respond kind i p) s)
  responded-Listens (ok response) m i p s h = h
  responded-Listens (err e) m i p s h = tt

  read_done-Listens :
      (i : ℕ) (p : Peer Member) (w : Pending) (o : Option String) (s : Server kind)
      → s.is_accepting ≡ true
      → Listens (read_done kind i p w o s)
  unfolding ◌>>=◌
  read_done-Listens i p reading (some request) s h =
      let x = kind.reply request (s.shared, p.member) in
      responded-Listens x.0 x.1.1 i p (record s { shared = x.1.0 }) h
  read_done-Listens i p reading none s h = h
  read_done-Listens i p (writing response) o s h = h
  read_done-Listens i p nothing o s h = h

  write_done-Listens :
      (i : ℕ) (p : Peer Member) (w : Pending) (b : Bool) (s : Server kind)
      → s.is_accepting ≡ true
      → Listens (write_done kind i p w b s)
  unfolding pure
  write_done-Listens i p (writing response) true s h = h
  write_done-Listens i p (writing response) false s h = h
  write_done-Listens i p reading b s h = h
  write_done-Listens i p nothing b s h = h

  for_peer-Listens :
      (o : Option (Peer Member)) (f : Peer Member → Exec (Server kind) (Unit {0})) (s : Server kind)
      → s.is_accepting ≡ true
      → ((p : Peer Member) → Listens (f p s))
      → Listens (for_peer kind o f s)
  unfolding pure
  for_peer-Listens none f s h each = h
  for_peer-Listens (some p) f s h each = each p

  handle_event-Listens :
      (e : Event) (s : Server kind) → s.is_accepting ≡ true → Listens (handle_event kind e s)
  unfolding handle_event
  handle_event-Listens (accepted token) s h =
      accept_done-Listens s.is_accepting (connected token) s h
  handle_event-Listens accepted_gone s h = accept_done-Listens s.is_accepting disconnected s h
  handle_event-Listens accept_failed s h = accept_done-Listens s.is_accepting unavailable s h
  handle_event-Listens (received i request) s h =
      for_peer-Listens (get_elem? s.peers i) _ s h
        (λ p. read_done-Listens i p p.pending (some request) s h)
  handle_event-Listens (read_failed i) s h =
      for_peer-Listens (get_elem? s.peers i) _ s h (λ p. read_done-Listens i p p.pending none s h)
  handle_event-Listens (written i) s h =
      for_peer-Listens (get_elem? s.peers i) _ s h (λ p. write_done-Listens i p p.pending true s h)
  handle_event-Listens (write_failed i) s h =
      for_peer-Listens (get_elem? s.peers i) _ s h (λ p. write_done-Listens i p p.pending false s h)
  handle_event-Listens stop_called s h = h

  abbrev IsListening : Server kind → Type 0
  IsListening s = s.mode ≡ running → s.is_accepting ≡ true

  settled-IsListening :
      (r : Result (Unit {0})) (s : Server kind) → Listens (r, s) → IsListening (settle kind r s)
  settled-IsListening (ok _) s h = λ m. h
  settled-IsListening (err e) s h = λ m. absurd (cc m)

  step_in-IsListening :
      (m : Mode) (e : Event) (s : Server kind)
      → s.mode ≡ m
      → IsListening s
      → IsListening (step_in kind m e s)
  step_in-IsListening running e s d h =
      let (r, s') = handle_event kind e s in
      settled-IsListening r s' (handle_event-Listens e s (h d))
  step_in-IsListening idle e s d h = h
  step_in-IsListening stopped e s d h = h
  step_in-IsListening crashed e s d h = h

  run_events-IsListening :
      (es : List Event) (s : Server kind) → IsListening s → IsListening (run_events kind es s)
  unfolding run_events step
  run_events-IsListening [] s h = h
  run_events-IsListening (e ∷ es) s h =
      run_events-IsListening es (step kind e s) (step_in-IsListening s.mode e s refl h)

  accepts :
      (token : String) (m : Member) (z : Server kind) (t : S)
      → z.is_accepting ≡ true
      → z.mode ≡ running
      → construct token z.shared ≡ (ok m, t)
      → step kind (accepted token) z ≡ record {
        shared = t;
        peers = push_back z.peers (new_peer kind m);
        is_accepting = true;
        mode = running;
      }
  unfolding step handle_event ◌>>=◌
  accepts token m z t a r c = simp (r, a, c) refl

  refuses :
      (z : Server kind)
      → z.is_accepting ≡ true
      → z.mode ≡ running
      → (step kind accepted_gone z).mode ≡ crashed
  unfolding step handle_event ◌>>=◌
  refuses z a r = simp (r, a) refl

  -- Whatever has happened since run(), failed accepts and connections included: while the server
  -- runs, the next peer is accepted. Where its connection can be constructed, the connections are
  -- those of before and the new one, which reads, and the server accepts again. But where the peer has
  -- gone before the handler asks for its address, the exception ends the process.
  pub run-accepts :
      (es : List Event) (s : Server kind) (token : String) (m : Member) (t : S)
      → (run kind es s).mode ≡ running
      → construct token (run kind es s).shared ≡ (ok m, t)
      → (step kind (accepted token) (run kind es s) ≡ record {
        shared = t;
        peers = push_back (run kind es s).peers (new_peer kind m);
        is_accepting = true;
        mode = running;
      })
        × ((step kind accepted_gone (run kind es s)).mode ≡ crashed)
  unfolding run
  run-accepts es s token m t r c =
      let a = run_events-IsListening es (started kind s) (λ d. refl) r in
      (accepts token m (run kind es s) t a r c, refuses (run kind es s) a r)
