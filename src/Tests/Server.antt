-- ===== src/Tests/Server.antt =====
-- The theorems on the server at sample requests.
use dbl_service.Prelude.{◌≡◌, ◌⊎◌, refl, true, false, some, [], ◌∷◌}
use dbl_service.Auth.Laws.{password}
use dbl_service.Auth.{auth}
use dbl_service.Service.{Connection, on_store}
use dbl_service.Service.Dispatch.{answer, dispatch, handle_auth}
use dbl_service.Service.Gate.{answer-Untouched}
use dbl_service.Service.Admission.{Presents, answer-Presents}
use dbl_service.Tests.Sample.{sample_tables, sample_env, sample_connection}

abbrev failing_connection : Connection
failing_connection = record sample_connection {
  store = record { tables = sample_tables; faults = some "disk" ∷ [] };
}

answer-Untouched_example :
    ((answer sample_env "block" sample_connection).1.store.tables ≡ sample_tables)
    × ((answer sample_env "block" sample_connection).1.is_open ≡ true)
    × ((answer sample_env "block" sample_connection).1.stop_signaled ≡ false)
answer-Untouched_example = answer-Untouched sample_env "block" sample_connection refl

lets_in : (answer sample_env "right" sample_connection).1.is_authenticated ≡ true
unfolding answer dispatch handle_auth on_store auth
lets_in = refl

answer-Presents_example : (password sample_tables ≡ "") ⊎ Presents sample_env sample_tables "right"
answer-Presents_example =
    answer-Presents sample_env sample_tables "right" sample_connection refl refl lets_in
