-- ===== src/Main/Blocking.antt =====
-- A run of the program (src/dbl/main.cxx) that is given domains to block and to unblock on the command line.
use dbl_service.Prelude.{
  ℕ, String, ◌≡◌, refl, true, false, not, ◌&&◌, ◌||◌, none, some, List, ◌∷◌, if◌then◌else◌, ap, ◌∙◌,
}
use dbl_service.Fallible.{Exec, ok, pure, ◌>>=◌}
use dbl_service.Fallible.Results.{lift}
use dbl_service.Config.{Config}
use dbl_service.Validator.{is_empty}
use dbl_service.Storage.{Tables}
use dbl_service.Storage.Statements.{id_of, on_whitelist, select_blocked}
use dbl_service.Storage.Session.{healthy}
use dbl_service.Storage.Integrity.Queries.{has_domain}
use dbl_service.Manager.Setup
use dbl_service.Manager.Setup.{init-once}
use dbl_service.Manager.Blocking.Lists.{accepted, after}
use dbl_service.Manager.Blocking.Promise.{IsReady}
use dbl_service.Options.{Variables, Parser, has_help, get_flag}
use dbl_service.Mgmt.{manage_domains}
use dbl_service.Mgmt.Conflicts.{manage_domains-blocks}
use dbl_service.Mgmt.Returns.{blocking, manage_domains-succeeds}
use dbl_service.Main.Requests.{parse_options, management_request}
use dbl_service.Main.Setting.{Machine, Round, State, Step, returned}
use dbl_service.Main.{set_up, manage, turn, loop, main}

-- The tables that DB::init leaves of these.
abbrev pub opened : Tables → Tables
opened t = if is_empty t.lists then Setup.set_up t else Setup.enforced t

module _ {S : Type 0} (b u : List String)
    (given : (not (is_empty b) || not (is_empty u)) ≡ true) where
  module _ (machine : Machine S) where
    -- What the names leave of the tables.
    abbrev pub managed : Tables → Tables
    managed t = after (manage_domains machine.json machine.getaddrinfo (blocking b u)) (opened t)

    -- The program ends with EXIT_SUCCESS, and the names are managed.
    abbrev pub Ends : Tables → Exec (State S) Step → State S → Type 0
    Ends t m s = (v : State S) × (m s ≡ (ok (returned 0), v)) × (v.store ≡ healthy (managed t))

    set_up-Ends :
        (round : Round) (s : State S) (w : ℕ) (t : Tables)
        → round.directory_error ≡ none
        → get_flag "query" machine.options ≡ ok false
        → management_request machine.config machine.options ≡ ok (blocking b u)
        → s.store ≡ healthy t
        → id_of "WHITELIST" (opened t).lists ≡ some w
        → Ends t (set_up machine round) s
    unfolding set_up manage ◌>>=◌ lift pure
    set_up-Ends round s w t made modes request store white =
        let (ws, done) =
          manage_domains-succeeds machine.json machine.getaddrinfo b u w (opened t) white in
        let left = record s { store = healthy (managed t); printed = ws } in
        (left, rw (made, store, (init-once 4 t).0, modes, request, given, done) refl, refl)

    turn-Ends :
        (round : Round) (s : State S) (t : Tables)
        → Ends t (set_up machine round) s
        → Ends t (turn machine round) s
    unfolding turn ◌>>=◌ pure
    turn-Ends round s t (v, ready, left) = (v, rw ready refl, left)

    loop-Ends :
        (round : Round) (rounds : List Round) (s : State S) (t : Tables)
        → s.service.signaled_exit ≡ false
        → Ends t (turn machine round) s
        → Ends t (loop machine (round ∷ rounds)) s
    unfolding loop ◌>>=◌ pure
    loop-Ends round rounds s t going (v, turned, left) = (v, simp (going, turned) refl, left)

  module _ (parser : Parser) (machine : Machine S) (round : Round) (rounds : List Round)
      (vm : Variables) (config : Config) where
    abbrev run : Exec (State S) Step
    run = main parser machine (round ∷ rounds)

    abbrev parsed_machine : Machine S
    parsed_machine = record machine { config = config; options = vm }

    main-Ends :
        (s : State S) (t : Tables)
        → parse_options parser machine.proxy_host.to_lower ≡ ok (vm, config)
        → has_help vm ≡ false
        → Ends parsed_machine t (loop parsed_machine (round ∷ rounds)) s
        → Ends parsed_machine t run s
    unfolding main
    main-Ends s t parsed helpless (v, looped, left) = (v, rw (parsed, helpless) looped, left)

    -- The program, given names to block or to unblock on the command line and neither --help, --query nor
    -- another management command, with conflicts as warnings, on a database that answers and whose directory is
    -- there or can be made. After DB::init, which makes the two lists in a new database, the tables keep their
    -- constraints and have CUSTOM, active and no whitelist, and WHITELIST, active and a whitelist. Then the program
    -- ends with EXIT_SUCCESS in its first round. Of the names that the resolver knows, those to unblock are not
    -- blocked; those to block that are not to unblock, and were on no whitelist, are; any other name is blocked if it
    -- was after DB::init.
    pub main-blocks :
        (n : String) (i w : ℕ) (s : State S) (t : Tables)
        → parse_options parser machine.proxy_host.to_lower ≡ ok (vm, config)
        → has_help vm ≡ false
        → get_flag "query" vm ≡ ok false
        → management_request config vm ≡ ok (blocking b u)
        → round.directory_error ≡ none
        → s.service.signaled_exit ≡ false
        → s.store ≡ healthy t
        → IsReady i w (opened t)
        → ((main parser machine (round ∷ rounds) s).0 ≡ ok (returned 0))
          × (has_domain n (select_blocked (main parser machine (round ∷ rounds) s).1.store.tables)
              ≡ (if accepted machine.getaddrinfo n u
                  then false
                  else if accepted machine.getaddrinfo n b && not (on_whitelist n (opened t))
                  then true
                  else has_domain n (select_blocked (opened t))))
    main-blocks n i w s t parsed helpless modes request made going store ready =
        let m = parsed_machine in
        let first = set_up-Ends m round s w t made modes request store ready.whitelist_id in
        let looped = loop-Ends m round rounds s t going (turn-Ends m round s t first) in
        let (v, done, left) = main-Ends s t parsed helpless looped in
        (
          ap (λ x. x.0) done,
          ap (λ x. has_domain n (select_blocked x.1.store.tables)) done
              ∙ (ap (λ x. has_domain n (select_blocked x.tables)) left
                  ∙ manage_domains-blocks machine.getaddrinfo machine.json (blocking b u) n i w
                      (opened t) refl ready.consistent ready.custom_id ready.custom_blocks
                      ready.whitelist_id ready.whitelist_allows),
        )
