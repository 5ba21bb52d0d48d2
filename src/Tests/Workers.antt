-- ===== src/Tests/Workers.antt =====
-- The worker on a sample machine, whose system keeps the two ids of the process.
use dbl_service.Prelude.{
  ℕ, String, ◌≡◌, refl, Bool, true, false, Option, none, some, ◌⊎◌, List, [], ◌∷◌, any, eqb,
  if◌then◌else◌, arith, ◌==◌,
}
use dbl_service.Prelude.Integers.{pos}
use dbl_service.Fallible.Triples.{Outcome}
use dbl_service.Storage.Session.{healthy}
use dbl_service.Updater.{Source}
use dbl_service.Worker.{Config, State, Turn, timeout, notified, exited, absent, run, run_unix}
use dbl_service.Worker.Privileges.{Account, Os}
use dbl_service.Worker.Dropping.{IsUnix, IsDropped, IsAny}
use dbl_service.Worker.Stopping.{IsOver, run-stops}
use dbl_service.Worker.Safety.{run_unix-drops}
use dbl_service.Tests.Sample.{sample_tables, sample_json, sample_resolver}

abbrev pub Ids : Type 0
Ids = ℕ × ℕ

-- The superuser may take any id, another user only its own.
abbrev grant : Bool → Bool → Ids → Ids → Bool × Ids
grant true same new old = (true, new)
grant false same new old = (same, old)

abbrev set_user : ℕ → Ids → Bool × Ids
set_user u (v, g) = grant (eqb v 0) (eqb u v) (u, g) (v, g)

abbrev set_group : ℕ → Ids → Bool × Ids
set_group g (v, h) = grant (eqb v 0) (eqb g h) (v, g) (v, h)

abbrev sample_account : String → Option Account
sample_account name = if name == "dnsblocker" then some (record { uid = 999; gid = 998 }) else none

abbrev pub sample_os : Os Ids
sample_os = record {
  getpwnam = sample_account;
  setgroups = λ s. (true, s);
  setgid = set_group;
  setegid = set_group;
  setuid = set_user;
  seteuid = set_user;
}

abbrev uid_of : Ids → ℕ
uid_of (u, g) = u

abbrev gid_of : Ids → ℕ
gid_of (u, g) = g

set_user-done : (u : ℕ) (s : Ids) → (set_user u s).0 ≡ true → uid_of (set_user u s).1 ≡ u
set_user-done u (v, g) h = taken (eqb v 0) h
  where
    taken :
        (b : Bool)
        → (grant b (eqb u v) (u, g) (v, g)).0 ≡ true
        → uid_of (grant b (eqb u v) (u, g) (v, g)).1 ≡ u
    taken true h = refl
    taken false h = ground (arith, h)

set_group-done : (g : ℕ) (s : Ids) → (set_group g s).0 ≡ true → gid_of (set_group g s).1 ≡ g
set_group-done g (v, o) h = taken (eqb v 0) h
  where
    taken :
        (b : Bool)
        → (grant b (eqb g o) (v, g) (v, o)).0 ≡ true
        → gid_of (grant b (eqb g o) (v, g) (v, o)).1 ≡ g
    taken true h = refl
    taken false h = ground (arith, h)

grant-refused :
    (b c : Bool) (new old : Ids) → (grant b c new old).0 ≡ false → (grant b c new old).1 ≡ old
grant-refused true c new old h = ground (arith, h)
grant-refused false c new old h = refl

grant-gid :
    (b c : Bool) (new old : Ids)
    → gid_of new ≡ gid_of old
    → gid_of (grant b c new old).1 ≡ gid_of old
grant-gid true c new old e = e
grant-gid false c new old e = refl

set_user-gid : (u : ℕ) (s : Ids) → gid_of (set_user u s).1 ≡ gid_of s
set_user-gid u (v, g) = grant-gid (eqb v 0) _ _ _ refl

sample_IsUnix : IsUnix sample_os uid_of gid_of
sample_IsUnix = record {
  setgid_done = set_group-done;
  setegid_done = set_group-done;
  setuid_done = set_user-done;
  seteuid_done = set_user-done;
  setuid_gid = set_user-gid;
  seteuid_gid = set_user-gid;
  setuid_refused = λ u s. grant-refused (eqb s.0 0) _ _ _;
  setgid_refused = λ g s. grant-refused (eqb s.0 0) _ _ _;
}

abbrev pub sample_config : Config
sample_config = record {
  update_interval = pos 60;
  no_update = false;
  service_port = pos 7654;
  http_responder_enable = false;
  http_responder_port = pos 80;
  is_foreground = false;
  service_user = "dnsblocker";
}

abbrev pub sample_state : State Ids
sample_state = record {
  store = healthy sample_tables;
  stop_flag = false;
  server = absent;
  responder = absent;
  threads = 0;
  process = (0, 0);
  clock = 0;
}

-- A site that does not answer.
abbrev pub silent_site : Source
silent_site = record {
  json = sample_json;
  getaddrinfo = sample_resolver;
  fetch_first = λ url mtime. none;
  fetch_again = λ url mtime. none;
  disable_list_update = false;
  list_ids = [];
  now = 9;
}

-- A wait that times out, then one that ends with a call of stop().
abbrev sample_turns : List Turn
sample_turns =
    record { stop_called = false; wake = timeout silent_site }
    ∷ record { stop_called = true; wake = notified 5 }
    ∷ []

run-stops_example :
    Outcome IsOver IsAny
      (run sample_config silent_site sample_turns sample_state).0
      (run sample_config silent_site sample_turns sample_state).1
unfolding any
run-stops_example = run-stops sample_config silent_site sample_turns sample_state refl

interval_example : (run sample_config silent_site sample_turns sample_state).1.clock ≡ 3605
unfolding run
interval_example = refl

run_unix-drops_example :
    Outcome
      (λ p u.
        ((p ≡ exited) × (u.store ≡ healthy sample_tables))
        ⊎ IsDropped sample_os uid_of gid_of "dnsblocker" u.process)
      (λ u.
        (u.store ≡ healthy sample_tables)
        ⊎ IsDropped sample_os uid_of gid_of "dnsblocker" u.process)
      (run_unix sample_config sample_os (λ p. true) silent_site sample_turns sample_state).0
      (run_unix sample_config sample_os (λ p. true) silent_site sample_turns sample_state).1
run_unix-drops_example =
    run_unix-drops sample_config sample_os uid_of gid_of sample_IsUnix (λ p. true) silent_site
      sample_turns sample_state refl

process_example :
    (run_unix sample_config sample_os (λ p. true) silent_site sample_turns sample_state).1.process
    ≡ (999, 998)
unfolding run_unix
process_example = refl
