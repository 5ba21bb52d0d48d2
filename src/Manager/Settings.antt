-- ===== src/Manager/Settings.antt =====
-- src/dbl/manager/settings_manager.cxx
use dbl_service.Prelude.{
  String, Bool, true, false, Option, none, some, ◌==◌, if◌then◌else◌, lookup, put, without,
}
use dbl_service.Fallible.{Exec, pure, try_catch, ◌>>=◌, ◌>>◌}
use dbl_service.Storage.{Store}
use dbl_service.Storage.Session.{statement, query, update, transaction}

abbrev or_empty : Option String → String
or_empty none = ""
or_empty (some v) = v

abbrev pub or_default : String → String → String
or_default def value = if value == "" then def else value

-- A key with no row, with an empty value, or that cannot be read has the default.
unfoldable pub get : String → String → Exec Store String
unfolding ◌>>=◌ statement lookup
get key def = do
  value ← try_catch (do v ← query (λ t. lookup key t.settings); pure (or_empty v)) (λ _. pure "")
  pure (or_default def value)

unfoldable pub set : String → String → Exec Store Bool
unfolding transaction put
set key value =
    try_catch
      (do transaction (update (λ t. record t { settings = put key value t.settings })); pure true)
      (λ _. pure false)

unfoldable pub remove : String → Exec Store Bool
unfolding transaction without
remove key =
    try_catch
      (do transaction (update (λ t. record t { settings = without key t.settings })); pure true)
      (λ _. pure false)
