-- ===== src/Main/Reporting.antt =====
-- What the command "status" (src/dbl/service/server/service_connection.cxx) replies of the counts that main.cxx
-- has made before the service runs.
use dbl_service.Prelude.{ℕ, ◌≡◌, refl, Option, length}
use dbl_service.Fallible.{ok, pure, ◌>>=◌}
use dbl_service.Storage.{Tables}
use dbl_service.Storage.Statements.{count_active}
use dbl_service.Storage.Session.{healthy, statement, transaction}
use dbl_service.Storage.Integrity.{IsConsistent}
use dbl_service.Manager.DomainLists.{count}
use dbl_service.Manager.Counting.{count_blocked-all}
use dbl_service.Json.{IsLawful, HasItems}
use dbl_service.Json.Convert.{Status, status_from_json}
use dbl_service.Json.RoundTrips.{IsSmall, status_from_json-to_json}
use dbl_service.Service.{Env, Connection}
use dbl_service.Service.Handlers.{handle_status}
use dbl_service.Main.Setting.{Machine, Uname, State, new_status, init_status}
use dbl_service.Main.{fill_status}

-- The status of a service that started at a time, on a system, and with these tables.
abbrev pub counted_status : ℕ → Option Uname → Tables → Status
counted_status now uname t = record (init_status now uname new_status) {
  total_lists = count_active t;
  total_blocked_domains = length t.domains;
}

abbrev pub with_status : Env → Status → Env
with_status env status = record env { status = status }

count-healthy : (t : Tables) → count (healthy t) ≡ (ok (count_active t), healthy t)
unfolding count transaction statement
count-healthy t = refl

fill_status-healthy :
    {S : Type 0} (machine : Machine S) (uname : Option Uname) (s : State S) (t : Tables)
    → s.store ≡ healthy t
    → IsConsistent t
    → fill_status machine uname s
      ≡ (ok tt, record s { store = healthy t; status = counted_status s.clock uname t })
unfolding fill_status ◌>>=◌ pure
fill_status-healthy machine uname s t up sound =
    rw (up, count-healthy t, count_blocked-all t sound) refl

module _ (env : Env) (lawful : IsLawful env.json) (items : HasItems env.json) where
  open env use {json}
  open json use {Value, object_value}

  -- On a database that answers, and where the time and the counts are less than 2^31, what a service fills its status with stays what it replies to the command
  -- "status": to whoever reads the reply as a status, at any time and whatever has been blocked since, it gives
  -- the time of the start, the number of active lists then, and as the number of blocked domains that of all
  -- domains then, the whitelisted ones and those of inactive lists included.
  pub status-reports :
      {S : Type 0} (machine : Machine S) (uname : Option Uname) (s : State S) (t : Tables)
      (c : Connection)
      → s.store ≡ healthy t
      → IsConsistent t
      → IsSmall (counted_status s.clock uname t)
      → let r = fill_status machine uname s in
        (r.0 ≡ ok tt)
        × (r.1.store ≡ healthy t)
        × (v : Value) × (handle_status (with_status env r.1.status) object_value c ≡ (ok v, c))
        × (status_from_json json v ≡ ok (counted_status s.clock uname t))
  unfolding handle_status pure
  status-reports machine uname s t c up sound small =
      rw (fill_status-healthy machine uname s t up sound) (
        refl,
        refl,
        _,
        refl,
        status_from_json-to_json json lawful items (counted_status s.clock uname t) small,
      )
