-- ===== src/Server/Reloading.antt =====
-- The command reload of an authenticated peer, from the request to the end of the worker's run:
-- handle_reload, signal_stop() of src/dbl/service/service.cxx, and the worker's loop.
use Prim.Native.String
use dbl_service.Prelude.{
  ℕ, String, ◌≡◌, refl, Bool, true, false, none, some, List, [], ◌∷◌, ◌++◌, any, arith, get_elem?,
  set,
}
use dbl_service.Fallible.{ok, pure, try_catch, ◌>>=◌}
use dbl_service.Fallible.Results.{lift}
use dbl_service.Fallible.Triples.{Outcome}
use dbl_service.Storage.{Store}
use dbl_service.Worker
use dbl_service.Worker.{Config, Turn, Wake, State}
use dbl_service.Worker.Stopping.{IsOver, run-stops}
use dbl_service.Worker.Dropping.{IsAny}
use dbl_service.Updater.{Source}
use dbl_service.Service.{Env, Connection}
use dbl_service.Service.Handlers.{handle_reload}
use dbl_service.Service.Dispatch.{
  success_with, answer, process_request, read, dispatch, run_command,
}
use dbl_service.Server.{Server, Peer, reading, writing, received, step}
use dbl_service.Server.Management.{Shared, Member, with_token, connection_of, management}
use dbl_service.Server.Dialogue.{peer, up, step-received}

-- A request that parses to an object with the command "reload", in any case of its letters.
pub record IsReload (env : Env) (request : String) : Type 0 where
  pub root : env.json.Value
  pub command : env.json.Value
  pub command_text : String
  pub data_value : env.json.Value
  pub parses : env.json.parse request ≡ some root
  pub has_command : env.json.member root "command" ≡ ok command
  pub is_text : env.json.as_string command ≡ ok command_text
  pub is_reload : env.to_lower command_text ≡ "reload"
  pub has_data : env.json.member root "data" ≡ ok data_value

module _ (env : Env) (request : String) (r : IsReload env request)
    (closes : env.close_error ≡ none) where
  abbrev closed : Store → Connection
  closed store = record {
    store = store;
    is_authenticated = true;
    is_open = false;
    stop_signaled = true;
  }

  dispatch-reload :
      (d v : env.json.Value) (c : Connection)
      → c.is_authenticated ≡ true
      → dispatch env "reload" d v c ≡ (ok v, closed c.store)
  unfolding dispatch run_command handle_reload pure
  dispatch-reload d v c a = rw (closes, handle_reload) (simp a refl)

  read-reload :
      (c : Connection)
      → c.is_authenticated ≡ true
      → read env request c
        ≡ (ok (env.json.print (success_with env env.json.object_value)), closed c.store)
  unfolding read process_request answer lift try_catch ◌>>=◌ pure
  read-reload c a =
      rw
        (
          r.parses,
          r.has_command,
          r.is_text,
          r.has_data,
          r.is_reload,
          dispatch-reload r.data_value env.json.object_value c a,
        )
        refl

-- The worker's waits up to the one in which the service is asked to stop, or not.
abbrev pub waits : List Turn → Bool → Wake → List Turn
waits before asked wake = before ++ record { stop_called = asked; wake = wake } ∷ []

asked-waits :
    (before : List Turn) (wake : Wake) → any (λ t. t.stop_called) (waits before true wake) ≡ true
unfolding any
asked-waits [] wake = refl
asked-waits (t ∷ ts) wake = ground (arith, asked-waits ts wake)

module _ (env : Env) (i : ℕ) (b : Bool) (request : String) (sh : Shared) (ps : List (Peer Member))
    (m : Member) (ds : List String) (r : IsReload (with_token env m.token) request)
    (h : get_elem? ps i ≡ some (peer m reading ds)) (a : m.is_authenticated ≡ true)
    (closes : env.close_error ≡ none) where
  abbrev pub after : Server (management env)
  after = step (management env) (received i request) (up env i b sh ps)

  sent_text : String
  sent_text = String.◌++◌ (env.json.print (success_with env env.json.object_value)) "\r\n"

  step-reload :
      after
      ≡ up env i b
          (record sh { stop_signaled = true })
          (set ps i (
            peer
              (record { token = m.token; is_authenticated = true; is_open = false })
              (writing sent_text)
              ds))
  unfolding sent_text
  step-reload =
      step-received env i b sh ps m ds request _ _ h
        (read-reload (with_token env m.token) request r closes (connection_of sh m) a)

  -- A connection of the running server, whose peer is authenticated, gets the request to reload, and closing its
  -- socket throws nothing: the connection is closed, the service is told to stop and the database is as it was. A worker that is
  -- told so during some wait ends its run with that wait, if not before.
  pub reload-stops :
      {S : Type 0} (config : Config) (source : Source) (before : List Turn) (wake : Wake)
      (w : State S)
      → ((text : String) × (after
            ≡ up env i b
                (record sh { stop_signaled = true })
                (set ps i (
                  peer
                    (record { token = m.token; is_authenticated = true; is_open = false })
                    (writing text)
                    ds))))
        × Outcome IsOver IsAny
            (Worker.run config source (waits before after.shared.stop_signaled wake) w).0
            (Worker.run config source (waits before after.shared.stop_signaled wake) w).1
  reload-stops config source before wake w = (
    (sent_text, step-reload),
    rw step-reload (run-stops config source (waits before true wake) w (asked-waits before wake)),
  )
