-- ===== src/Server.antt =====
-- src/dbl/service/server/server.hxx with handle(), read() and respond() of connection.cxx: a server of
-- many connections. Its io_service runs one handler at a time, so that a handler is a step, and the
-- events are the completions of what was started: they come in any order.
pub mod Invariants
pub mod Peers
pub mod Management
pub mod Responder
pub mod Isolation
pub mod Authentication
pub mod Process
pub mod Integrity
pub mod Dialogue
pub mod Conversation
pub mod Listening
pub mod Reloading
use Prim.Native.String.{◌++◌}
use dbl_service.Prelude.{
  ℕ, String, Bool, true, false, Option, none, some, List, [], ◌∷◌, get_elem?, set, push_back,
  if◌then◌else◌,
}
use dbl_service.Fallible.{Result, ok, err, runtime_error, Exec, pure, throw, ◌>>=◌}

-- The template's ConnectionType, over the state that its connections share: the members of a
-- connection, the constructor (with what is drawn at random for a connection), process_request with
-- the catch clause of read(), and whether the socket is open.
pub record ConnectionType (S : Type 0) : Type 1 where
  pub Member : Type 0
  pub construct : String → Exec S Member
  pub reply : String → Exec (S × Member) String
  pub is_open : Member → Bool

-- The operation that a connection waits for; with none the last pointer to it is gone.
pub data Pending : Type 0 where
  reading : Pending
  writing : String → Pending
  nothing : Pending

-- A connection, and the texts that were written to its peer.
pub record Peer (M : Type 0) : Type 0 where
  pub member : M
  pub pending : Pending
  pub delivered : List String

-- Before run(), in it, after stop(), and after an exception that left a handler.
pub data Mode : Type 0 where
  idle : Mode
  running : Mode
  stopped : Mode
  crashed : Mode

pub record State (S M : Type 0) : Type 0 where
  pub shared : S
  pub peers : List (Peer M)
  pub is_accepting : Bool
  pub mode : Mode

-- What async_accept completes with: a socket (with what is drawn for its connection), a socket whose
-- peer has gone by the time the handler runs, or an error.
pub data Socket : Type 0 where
  connected : String → Socket
  disconnected : Socket
  unavailable : Socket

pub data Event : Type 0 where
  accepted : String → Event
  accepted_gone : Event
  accept_failed : Event
  received : ℕ → String → Event
  read_failed : ℕ → Event
  written : ℕ → Event
  write_failed : ℕ → Event
  stop_called : Event

module _ {S : Type 0} (kind : ConnectionType S) where
  open kind use {Member, construct, reply, is_open}

  abbrev pub Server : Type 0
  Server = State S Member

  abbrev change : (Server → Server) → Exec Server (Unit {0})
  change f s = (ok tt, f s)

  abbrev pub new_peer : Member → Peer Member
  new_peer m = record { member = m; pending = reading; delivered = [] }

  abbrev put_peer : ℕ → Peer Member → Server → Server
  put_peer i p s = record s { peers = set s.peers i p }

  -- Server::accept: async_accept
  abbrev pub accept : Server → Server
  accept s = record s { is_accepting = true }

  abbrev constructed : String → Exec Server Member
  constructed token s = let (r, t) = construct token s.shared in (r, record s { shared = t })

  abbrev pub add_peer : Member → Exec Server (Unit {0})
  add_peer m = change (λ s. accept (record s { peers = push_back s.peers (new_peer m) }))

  -- The lambda of accept(). remote_endpoint() throws for a peer that has gone.
  abbrev pub on_accept : Socket → Exec Server (Unit {0})
  unfolding ◌>>=◌
  on_accept unavailable = change accept
  on_accept disconnected = throw (runtime_error "remote_endpoint")
  on_accept (connected token) = do m ← constructed token; add_peer m

  abbrev pub with_member : Result String → Member → Result (String × Member)
  with_member (ok response) m = ok (response, m)
  with_member (err e) m = err e

  abbrev replied : String → Member → Exec Server (String × Member)
  replied request m s =
      let (r, x) = reply request (s.shared, m) in (with_member r x.1, record s { shared = x.0 })

  -- respond(response + "\r\n"): async_write
  abbrev pub respond : ℕ → Peer Member → String × Member → Exec Server (Unit {0})
  respond i p (response, m) =
      change (put_peer i (record p { member = m; pending = writing (response ++ "\r\n") }))

  -- The lambda of read(), for the connection that reads.
  abbrev pub on_read : ℕ → Peer Member → Option String → Exec Server (Unit {0})
  unfolding ◌>>=◌
  on_read i p none = change (put_peer i (record p { pending = nothing }))
  on_read i p (some request) = do x ← replied request p.member; respond i p x

  -- The lambda of respond(): it reads again, unless the write failed, as it does on a closed socket.
  abbrev pub on_write : ℕ → Peer Member → Option String → Exec Server (Unit {0})
  on_write i p none = change (put_peer i (record p { pending = nothing }))
  on_write i p (some response) = change (
      put_peer i (
        if is_open p.member
        then record p { pending = reading; delivered = push_back p.delivered response }
        else record p { pending = nothing }))

  -- The completion of a read finds the connection reading, or does not belong to it.
  abbrev pub read_done : ℕ → Peer Member → Pending → Option String → Exec Server (Unit {0})
  read_done i p reading result = on_read i p result
  read_done i p (writing response) result = pure tt
  read_done i p nothing result = pure tt

  abbrev pub write_done : ℕ → Peer Member → Pending → Bool → Exec Server (Unit {0})
  write_done i p (writing response) true = on_write i p (some response)
  write_done i p (writing response) false = on_write i p none
  write_done i p reading is_written = pure tt
  write_done i p nothing is_written = pure tt

  abbrev pub for_peer :
      Option (Peer Member) → (Peer Member → Exec Server (Unit {0})) → Exec Server (Unit {0})
  for_peer none f = pure tt
  for_peer (some p) f = f p

  abbrev pub accept_done : Bool → Socket → Exec Server (Unit {0})
  accept_done true socket s = on_accept socket (record s { is_accepting = false })
  accept_done false socket s = pure tt s

  abbrev pub stop : Server → Server
  stop s = record s { mode = elim s.mode [ crashed ↦ crashed | _ ↦ stopped ] }

  unfoldable pub handle_event : Event → Exec Server (Unit {0})
  unfolding pure
  handle_event (accepted token) s = accept_done s.is_accepting (connected token) s
  handle_event accepted_gone s = accept_done s.is_accepting disconnected s
  handle_event accept_failed s = accept_done s.is_accepting unavailable s
  handle_event (received i request) s =
      for_peer (get_elem? s.peers i) (λ p. read_done i p p.pending (some request)) s
  handle_event (read_failed i) s =
      for_peer (get_elem? s.peers i) (λ p. read_done i p p.pending none) s
  handle_event (written i) s = for_peer (get_elem? s.peers i) (λ p. write_done i p p.pending true) s
  handle_event (write_failed i) s =
      for_peer (get_elem? s.peers i) (λ p. write_done i p p.pending false) s
  handle_event stop_called s = change stop s

  -- An exception that leaves a handler leaves io_service::run() too, and ends the process.
  abbrev pub settle : Result (Unit {0}) → Server → Server
  settle (ok _) s = s
  settle (err e) s = record s { mode = crashed }

  abbrev pub step_in : Mode → Event → Server → Server
  step_in running e s = let (r, s') = handle_event e s in settle r s'
  step_in idle e s = s
  step_in stopped e s = s
  step_in crashed e s = s

  unfoldable pub step : Event → Server → Server
  unfolding handle_event
  step e s = step_in s.mode e s

  unfoldable pub run_events : List Event → Server → Server
  run_events [] s = s
  run_events (e ∷ es) s = run_events es (step e s)

  abbrev pub new_server : S → Server
  new_server shared = record { shared = shared; peers = []; is_accepting = false; mode = idle }

  abbrev pub started : Server → Server
  started s = accept (record s { mode = elim s.mode [ idle ↦ running | m ↦ m ] })

  -- Server::run
  unfoldable pub run : List Event → Server → Server
  unfolding run_events
  run es s = run_events es (started s)
