-- ===== src/Tests/Failures.antt =====
-- An import into the sample database.
use dbl_service.Prelude.{String, ◌≡◌, true, false, some, [], ◌∷◌, lookup, if◌then◌else◌, contains}
use dbl_service.Fallible.{ok}
use dbl_service.Types.{DomainList, new_list}
use dbl_service.Storage.{Tables}
use dbl_service.Storage.Statements.{id_of}
use dbl_service.Storage.Session.{healthy}
use dbl_service.Manager.DomainLists.{import_list}
use dbl_service.Manager.DomainLists.Importing.{import_list-moves}
use dbl_service.Tests.Sample.{sample_tables}

abbrev imported : DomainList
imported = record new_list {
  name = "CUSTOM";
  domains = record { name = "good.example"; list_id = 0; list_name = some "" } ∷ [];
}

import_list-moves_example :
    (t' : Tables) × (import_list 7 imported false (healthy sample_tables) ≡ (ok true, healthy t'))
    × ((m : String)
        → lookup m t'.domains
          ≡ (if contains m ("good.example" ∷ []) then some 1 else lookup m sample_tables.domains))
unfolding id_of
import_list-moves_example = import_list-moves 7 imported false sample_tables
