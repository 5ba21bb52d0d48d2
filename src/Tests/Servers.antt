-- ===== src/Tests/Servers.antt =====
-- The theorems on the servers, at events of two peers.
use Prim.Native.Char.{Char}
use Prim.Native.String.{◌++◌}
use text.Mathlib.TextLemmas.{head-eq_of_cons-eq, cons-append}
use dbl_service.Prelude.{
  String, ◌≡◌, ◌≢◌, refl, sym, ◌∙◌, true, false, some, List, [], ◌∷◌, get_elem?, lookup, push_back,
}
use dbl_service.Fallible.{ok, ◌>>=◌}
use dbl_service.Auth.{auth}
use dbl_service.Auth.Laws.{password}
use dbl_service.Storage.Session.{healthy}
use dbl_service.Service.{on_store}
use dbl_service.Service.Admission.{Presents}
use dbl_service.Service.Dispatch.{
  connect, read, process_request, answer, dispatch, handle_auth, serve,
}
use dbl_service.Server.{
  Server, reading, writing, Peer, running, accepted, accepted_gone, crashed, accept_failed,
  received, written, new_server, new_peer, step, run_events, run,
}
use dbl_service.Server.Invariants.{Held}
use dbl_service.Server.Management.{Shared, Member, with_token, construct, reply, management}
use dbl_service.Server.Isolation.{Unchanged, IsOutside, run-Outside}
use dbl_service.Server.Authentication.{Proves, step-authenticates}
use dbl_service.Server.Process.{Process}
use dbl_service.Server.Dialogue.{dialogue, peer, up}
use dbl_service.Server.Reloading.{IsReload, after, waits, reload-stops}
use dbl_service.Worker
use dbl_service.Worker.{notified}
use dbl_service.Worker.Dropping.{IsAny}
use dbl_service.Worker.Stopping.{IsOver}
use dbl_service.Fallible.Triples.{Outcome}
use dbl_service.Tests.Workers.{sample_config, silent_site, sample_state}
use dbl_service.Server.Conversation.{Ends, dialogue-serve}
use dbl_service.Server.Listening.{run-accepts}
use dbl_service.Tests.Sample.{
  nothing, object, field, none_left, sample_hash, sample_password, leaf, request_tree, member,
  as_string, sample_tables, sample_env, sample_connection,
}

abbrev fresh : Shared
fresh = record { store = healthy sample_tables; stop_signaled = false }

abbrev sample_server : Server (management sample_env)
sample_server = new_server (management sample_env) fresh

never_right : (token : String) → ¬ Presents (with_token sample_env token) sample_tables "guess"
unfolding lookup
never_right token p =
    let root : some (request_tree "auth" "hash" (leaf "wrong")) ≡ some p.root = p.parses in
    let data_is : member p.root "data" ≡ ok p.data_value = p.has_data in
    let hash_is : member p.data_value "hash" ≡ ok p.hash_value = p.has_hash in
    let text_is : as_string p.hash_value ≡ ok p.hash = p.is_text in
    let fits : sample_hash (sample_password ++ token) ≡ p.hash = p.fits in
    let hash : "wrong" ≡ p.hash = cc (root, data_is, hash_is, text_is) in
    let heads : ◌≡◌ {A = Char} "#" "w" =
      head-eq_of_cons-eq (sym (cons-append "#" "" (sample_password ++ token)) ∙ fits ∙ sym hash) in
    absurd (cc heads)

has_password : password sample_tables ≢ ""
unfolding lookup
has_password e = absurd (cc e)

run-Outside_example :
    Held
      (management sample_env)
      (Unchanged sample_env sample_tables false)
      (IsOutside sample_env sample_tables false)
      (run
        (management sample_env)
        (accepted "/t" ∷ accepted "/u" ∷ received 1 "guess" ∷ received 0 "guess" ∷ written 1 ∷ [])
        sample_server)
run-Outside_example =
    run-Outside sample_env sample_tables false
      (accepted "/t" ∷ accepted "/u" ∷ received 1 "guess" ∷ received 0 "guess" ∷ written 1 ∷ [])
      sample_server has_password
      (
        tt,
        (
          tt,
          ((λ p h. never_right p.member.token), ((λ p h. never_right p.member.token), (tt, tt))),
        ),
      )
      ((refl, refl), tt)

abbrev waiting : Peer Member
waiting = record {
  member = record { token = "/t"; is_authenticated = false; is_open = true };
  pending = reading;
  delivered = [];
}

abbrev one_peer : Server (management sample_env)
one_peer = record { shared = fresh; peers = waiting ∷ []; is_accepting = true; mode = running }

abbrev admitted : Peer Member
admitted = record {
  member = record { token = "/t"; is_authenticated = true; is_open = true };
  pending = writing "data{}success+\r\n";
  delivered = [];
}

step_right :
    get_elem? (step (management sample_env) (received 0 "right") one_peer).peers 0 ≡ some admitted
unfolding step reply read process_request answer dispatch handle_auth on_store auth
step_right = refl

step-authenticates_example : Proves sample_env sample_tables 0 waiting refl (received 0 "right")
step-authenticates_example =
    step-authenticates sample_env sample_tables 0 waiting refl (received 0 "right") one_peer
      admitted refl refl step_right refl

abbrev sample_process : Process
sample_process = record {
  management_server = one_peer;
  http_responder = record {
    shared = healthy sample_tables;
    peers = [];
    is_accepting = true;
    mode = running;
  };
}

dialogue-serve_example :
    Ends sample_env 0 true
      (waiting ∷ [])
      "/t"
      []
      (run_events
        (management sample_env)
        (dialogue 0 ("right" ∷ "block" ∷ []))
        (up sample_env 0 true fresh (waiting ∷ [])))
      (serve sample_env ("right" ∷ "block" ∷ []) sample_connection)
dialogue-serve_example =
    dialogue-serve sample_env 0 true "/t" ("right" ∷ "block" ∷ []) sample_connection (waiting ∷ [])
      [] refl refl

abbrev newcomer : Member
newcomer = record { token = "/u"; is_authenticated = false; is_open = true }

still_running :
    (run (management sample_env) (accept_failed ∷ received 0 "x" ∷ []) sample_server).mode ≡ running
unfolding run step ◌>>=◌
still_running = refl

constructed :
    construct sample_env "/u"
      (run (management sample_env) (accept_failed ∷ received 0 "x" ∷ []) sample_server).shared
    ≡ (ok newcomer, fresh)
unfolding run step ◌>>=◌ construct connect auth lookup
constructed = refl

run-accepts_example :
    (step
        (management sample_env)
        (accepted "/u")
        (run (management sample_env) (accept_failed ∷ received 0 "x" ∷ []) sample_server)
      ≡ record {
        shared = fresh;
        peers =
            push_back
              (run
                (management sample_env)
                (accept_failed ∷ received 0 "x" ∷ [])
                sample_server).peers
              (new_peer (management sample_env) newcomer);
        is_accepting = true;
        mode = running;
      })
    × ((step
          (management sample_env)
          accepted_gone
          (run (management sample_env) (accept_failed ∷ received 0 "x" ∷ []) sample_server)).mode
        ≡ crashed)
run-accepts_example =
    run-accepts (management sample_env) (accept_failed ∷ received 0 "x" ∷ []) sample_server "/u"
      newcomer fresh still_running constructed

abbrev admin : Member
admin = record { token = "/t"; is_authenticated = true; is_open = true }

sample_IsReload : IsReload (with_token sample_env "/t") "reload"
sample_IsReload = record {
  root = request_tree "reload" "force" nothing;
  command = leaf "reload";
  command_text = "reload";
  data_value = object (field "force" nothing none_left);
  parses = refl;
  has_command = refl;
  is_text = refl;
  is_reload = refl;
  has_data = refl;
}

abbrev admins : List (Peer Member)
admins = peer admin reading [] ∷ []

reload-stops_example :
    ((text : String) × (after sample_env 0 true "reload" fresh admins admin [] sample_IsReload refl
          refl refl
        ≡ up sample_env 0 true
            (record fresh { stop_signaled = true })
            (peer (record admin { is_open = false }) (writing text) [] ∷ [])))
    × Outcome IsOver IsAny
        (Worker.run sample_config silent_site
          (waits []
            (after sample_env 0 true "reload" fresh admins admin [] sample_IsReload refl refl
              refl).shared.stop_signaled
            (notified 5))
          sample_state).0
        (Worker.run sample_config silent_site
          (waits []
            (after sample_env 0 true "reload" fresh admins admin [] sample_IsReload refl refl
              refl).shared.stop_signaled
            (notified 5))
          sample_state).1
reload-stops_example =
    reload-stops sample_env 0 true "reload" fresh admins admin [] sample_IsReload refl refl refl
      sample_config silent_site [] (notified 5) sample_state
