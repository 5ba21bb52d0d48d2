-- ===== src/Server/Dialogue.antt =====
-- A request of one peer of the management port and the write of its response, as two events.
use Prim.Native.String
use dbl_service.Prelude.{
  ℕ, String, Bool, some, List, [], ◌∷◌, ◌++◌, ◌≡◌, refl, ap, ◌∙◌, get_elem?, set, if◌then◌else◌,
  get_elem?-set_self, set-set,
}
use dbl_service.Fallible.{Error, ok, err, pure, ◌>>=◌}
use dbl_service.Service.{Env, Connection}
use dbl_service.Service.Dispatch.{read}
use dbl_service.Server.{
  Server, Pending, reading, writing, nothing, Peer, running, crashed, Event, received, written,
  step, run_events,
}
use dbl_service.Server.Management.{
  Shared, Member, with_token, connection_of, shared_of, member_of, reply, management,
}

abbrev pub dialogue : ℕ → List String → List Event
dialogue i [] = []
dialogue i (request ∷ requests) = received i request ∷ written i ∷ dialogue i requests

abbrev pub peer : Member → Pending → List String → Peer Member
peer m w ds = record { member = m; pending = w; delivered = ds }

module _ (env : Env) (i : ℕ) (b : Bool) where
  -- The running server, accepting or not.
  abbrev pub up : Shared → List (Peer Member) → Server (management env)
  up sh ps = record { shared = sh; peers = ps; is_accepting = b; mode = running }

  pub step-received :
      (sh : Shared) (ps : List (Peer Member)) (m : Member) (ds : List String)
      (request response : String) (c : Connection)
      → get_elem? ps i ≡ some (peer m reading ds)
      → read (with_token env m.token) request (connection_of sh m) ≡ (ok response, c)
      → step (management env) (received i request) (up sh ps)
        ≡ up
            (shared_of c)
            (set ps i (peer (member_of m.token c) (writing (String.◌++◌ response "\r\n")) ds))
  unfolding step reply ◌>>=◌
  step-received sh ps m ds request response c h e = rw h (rw e refl)

  step-written :
      (sh : Shared) (ps : List (Peer Member)) (m : Member) (ds : List String) (response : String)
      → get_elem? ps i ≡ some (peer m (writing response) ds)
      → step (management env) (written i) (up sh ps)
        ≡ up sh (
            set ps i
              (if m.is_open then peer m reading (ds ++ response ∷ []) else peer m nothing ds))
  unfolding step
  step-written sh ps m ds response h = rw h refl

  gone_reading :
      (request : String) (sh : Shared) (ps : List (Peer Member)) (m : Member) (ds : List String)
      → get_elem? ps i ≡ some (peer m nothing ds)
      → step (management env) (received i request) (up sh ps) ≡ up sh ps
  unfolding step pure
  gone_reading request sh ps m ds h = rw h refl

  gone_writing :
      (sh : Shared) (ps : List (Peer Member)) (m : Member) (ds : List String)
      → get_elem? ps i ≡ some (peer m nothing ds)
      → step (management env) (written i) (up sh ps) ≡ up sh ps
  unfolding step pure
  gone_writing sh ps m ds h = rw h refl

  -- Events for a connection that is gone do nothing.
  pub gone :
      (requests : List String) (sh : Shared) (ps : List (Peer Member)) (m : Member)
      (ds : List String)
      → get_elem? ps i ≡ some (peer m nothing ds)
      → run_events (management env) (dialogue i requests) (up sh ps) ≡ up sh ps
  unfolding run_events
  gone [] sh ps m ds h = refl
  gone (request ∷ requests) sh ps m ds h =
      ap
        (λ z.
          run_events (management env) (dialogue i requests) (step (management env) (written i) z))
        (gone_reading request sh ps m ds h)
      ∙ ap (run_events (management env) (dialogue i requests)) (gone_writing sh ps m ds h)
      ∙ gone requests sh ps m ds h

  -- A request and the write of its response.
  abbrev pub after_one :
      Connection → String → Member → List String → List (Peer Member) → Server (management env)
  after_one c response m ds ps = up (shared_of c) (
      set ps i (
        if c.is_open
        then peer (member_of m.token c) reading (ds ++ response ∷ [])
        else peer (member_of m.token c) nothing ds))

  pub one_request :
      (sh : Shared) (ps : List (Peer Member)) (m : Member) (ds : List String)
      (request response : String) (c : Connection)
      → get_elem? ps i ≡ some (peer m reading ds)
      → read (with_token env m.token) request (connection_of sh m) ≡ (ok response, c)
      → step (management env) (written i) (step (management env) (received i request) (up sh ps))
        ≡ after_one c (String.◌++◌ response "\r\n") m ds ps
  one_request sh ps m ds request response c h e =
      let waiting = peer (member_of m.token c) (writing (String.◌++◌ response "\r\n")) ds in
      rw (step-received sh ps m ds request response c h e) (
        step-written (shared_of c) (set ps i waiting) (member_of m.token c) ds _
          (get_elem?-set_self ps i waiting h)
        ∙ ap (up (shared_of c)) (set-set ps i waiting _))

  pub crashed_stays :
      (es : List Event) (z : Server (management env))
      → z.mode ≡ crashed
      → (run_events (management env) es z).mode ≡ crashed
  unfolding run_events step
  crashed_stays [] z h = h
  crashed_stays (e ∷ es) z h = crashed_stays es (step (management env) e z) (rw h refl)

  pub read_crashes :
      (sh : Shared) (ps : List (Peer Member)) (m : Member) (ds : List String) (request : String)
      (x : Error) (c : Connection)
      → get_elem? ps i ≡ some (peer m reading ds)
      → read (with_token env m.token) request (connection_of sh m) ≡ (err x, c)
      → (step (management env) (received i request) (up sh ps)).mode ≡ crashed
  unfolding step reply ◌>>=◌
  read_crashes sh ps m ds request x c h e = rw h (rw e refl)
