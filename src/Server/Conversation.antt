-- ===== src/Server/Conversation.antt =====
-- One peer of the management port: its requests, each followed by the completion of the write of the
-- response, are the conversation that Service/Dispatch writes as a loop.
use Prim.Native.String
use mathlib.Core.List.{append-nil, append_assoc}
use dbl_service.Prelude.{
  ℕ, String, Bool, true, false, some, List, [], ◌∷◌, ◌++◌, ◌≡◌, refl, ap, sym, ◌∙◌, get_elem?, set,
  if◌then◌else◌, get_elem?-set_self, set-set, set_same,
}
use mathlib.Core.Path.{subst}
use dbl_service.Service.Conversations.{rest_of}
use dbl_service.Fallible.{Result, ok, err, pure, continue, ◌>>=◌}
use dbl_service.Service.{Env, Connection}
use dbl_service.Service.Dispatch.{read, serve}
use dbl_service.Server.{Server, Pending, reading, nothing, Peer, crashed, written, run_events}
use dbl_service.Server.Management.{Member, with_token, shared_of, member_of, management}
use dbl_service.Server.Dialogue.{dialogue, peer, up, gone, one_request, crashed_stays, read_crashes}

module _ (env : Env) (i : ℕ) (is_accepting : Bool) where
  -- The server after a conversation of connection i that began with these members and texts.
  abbrev pub Ends :
      List (Peer Member)
      → String
      → List String
      → Server (management env)
      → Result (List String) × Connection
      → Type 0
  Ends ps token ds z (ok responses, c) =
      z
      ≡ up env i is_accepting (shared_of c) (
          set ps i
            (peer (member_of token c) (if c.is_open then reading else nothing) (ds ++ responses)))
  Ends ps token ds z (err e, c) = z.mode ≡ crashed

  gathered :
      (ps : List (Peer Member)) (token : String) (ds : List String) (x : String) (w : Peer Member)
      (z : Server (management env)) (y : Result (List String)) (c : Connection)
      → Ends (set ps i w) token (ds ++ x ∷ []) z (y, c)
      → Ends ps token ds z (continue y (λ rs. pure (x ∷ rs)) c)
  unfolding pure
  gathered ps token ds x w z (ok rs) c h = h ∙ rw (set-set ps i w, append_assoc ds (x ∷ []) rs) refl
  gathered ps token ds x w z (err e) c h = h

  module _ (token : String) where
    now-Ends :
        (c : Connection) (ps : List (Peer Member)) (ds : List String) (w : Pending)
        → (if c.is_open then reading else nothing) ≡ w
        → (z : Server (management env))
        → z ≡ up env i is_accepting (shared_of c) (set ps i (peer (member_of token c) w ds))
        → Ends ps token ds z (ok [], c)
    now-Ends c ps ds w e z h =
        h
        ∙ rw (append-nil ds) (
            ap (λ v. up env i is_accepting (shared_of c) (set ps i (peer (member_of token c) v ds)))
              (sym e))

    -- What is left of a conversation, where a connection is still the peer's.
    abbrev Continues : List String → Connection → Type 0
    Continues requests c =
        (ps : List (Peer Member)) (ds : List String)
        → get_elem? ps i ≡ some (peer (member_of token c) reading ds)
        → c.is_open ≡ true
        → Ends ps token ds
            (run_events (management env) (dialogue i requests)
              (up env i is_accepting (shared_of c) ps))
            (serve (with_token env token) requests c)

    resumed :
        (requests : List String) (response : String) (c : Connection) (ps : List (Peer Member))
        (ds : List String) (w : Peer Member) (b : Bool)
        → get_elem? ps i ≡ some w
        → c.is_open ≡ b
        → Continues requests c
        → Ends ps token ds
            (run_events (management env) (dialogue i requests) (
              up env i is_accepting (shared_of c) (
                set ps i (
                  if b
                  then peer (member_of token c) reading (ds ++ String.◌++◌ response "\r\n" ∷ [])
                  else peer (member_of token c) nothing ds))))
            ((let rest = serve (with_token env token) requests in
                if b
                then (do responses ← rest; pure (String.◌++◌ response "\r\n" ∷ responses))
                else pure [])
              c)
    unfolding ◌>>=◌ pure
    resumed requests response c ps ds w true h o later =
        let x = String.◌++◌ response "\r\n" in
        let next = peer (member_of token c) reading (ds ++ x ∷ []) in
        gathered ps token ds x next _ (serve (with_token env token) requests c).0
          (serve (with_token env token) requests c).1
          (later (set ps i next) (ds ++ x ∷ []) (get_elem?-set_self ps i next h) o)
    resumed requests response c ps ds w false h o later =
        let next = peer (member_of token c) nothing ds in
        now-Ends c ps ds nothing (rw o refl) _ (
          gone env i is_accepting requests (shared_of c) (set ps i next) (member_of token c) ds
            (get_elem?-set_self ps i next h))

    continued :
        (request : String) (requests : List String) (c : Connection) (ps : List (Peer Member))
        (ds : List String) (x : Result String) (c' : Connection)
        → get_elem? ps i ≡ some (peer (member_of token c) reading ds)
        → read (with_token env token) request c ≡ (x, c')
        → Continues requests c'
        → Ends ps token ds
            (run_events
              (management env)
              (dialogue i (request ∷ requests))
              (up env i is_accepting (shared_of c) ps))
            (continue x (rest_of (with_token env token) requests) c')
    unfolding run_events
    continued request requests c ps ds (err e) c' h r later =
        crashed_stays env i is_accepting (written i ∷ dialogue i requests) _
          (read_crashes env i is_accepting (shared_of c) ps (member_of token c) ds request e c' h r)
    continued request requests c ps ds (ok response) c' h r later =
        subst
          (λ z.
            Ends ps token ds (run_events (management env) (dialogue i requests) z)
              (continue (ok response) (rest_of (with_token env token) requests) c'))
          (sym (
            one_request env i is_accepting (shared_of c) ps (member_of token c) ds request response
              c' h r))
          (resumed requests response c' ps ds _ c'.is_open h refl later)

    -- A running server where connection i reads: where each of its requests arrives after the write of
    -- the response to the one before, the server ends as the conversation ends. Connection i has the
    -- members and the texts that it has there, and is released if it was closed; the database and the
    -- stop flag are the same, and the other connections as they were. Where the conversation throws,
    -- the process ends.
    pub dialogue-serve :
        (requests : List String) (c : Connection) (ps : List (Peer Member)) (ds : List String)
        → get_elem? ps i ≡ some (peer (member_of token c) reading ds)
        → c.is_open ≡ true
        → Ends ps token ds
            (run_events
              (management env)
              (dialogue i requests)
              (up env i is_accepting (shared_of c) ps))
            (serve (with_token env token) requests c)
    unfolding serve run_events ◌>>=◌ pure
    dialogue-serve [] c ps ds h o =
        now-Ends c ps ds reading (rw o refl) _
          (ap (up env i is_accepting (shared_of c)) (sym (set_same ps i h)))
    dialogue-serve (request ∷ requests) c ps ds h o =
        continued request requests c ps ds (read (with_token env token) request c).0
          (read (with_token env token) request c).1 h refl
          (dialogue-serve requests (read (with_token env token) request c).1)
