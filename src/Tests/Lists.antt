-- ===== src/Tests/Lists.antt =====
-- Lists that are removed, and lists and a status that are sent.
use dbl_service.Prelude.{
  arith, String, ◌≡◌, refl, ap, ◌++◌, true, none, [], ◌∷◌, lookup, ◌==◌, if◌then◌else◌,
}
use dbl_service.Fallible.{ok}
use dbl_service.Types.{DomainList, new_domain, new_list}
use dbl_service.Storage.{Tables}
use dbl_service.Storage.Statements.{id_of}
use dbl_service.Storage.Session.{healthy}
use dbl_service.Manager.DomainLists
use dbl_service.Manager.DomainLists.Removing.{survives, remove-cascades}
use dbl_service.Json.{HasItems}
use dbl_service.Json.Convert.{status_to_json, status_from_json, list_value, list_from_json}
use dbl_service.Json.RoundTrips.{imported, written_is_read}
use dbl_service.Tests.Sample.{
  sample_tables, sample_json, sample_resolver, sample_env, Tree, Trees, nothing, leaf, digit, truth,
  sequence, object, end, item, none_left,
}
use dbl_service.Tests.Managers.{sample_IsConsistent}
use dbl_service.Tests.Client.{sample_IsLawful}

remove-cascades_example :
    (t' : Tables) × (DomainLists.remove "CUSTOM" (healthy sample_tables) ≡ (ok true, healthy t'))
    × ((m : String)
        → id_of m t'.lists ≡ (if m == "CUSTOM" then none else id_of m sample_tables.lists))
    × ((m : String)
        → lookup m t'.domains
          ≡ survives (id_of "CUSTOM" sample_tables.lists) (lookup m sample_tables.domains))
    × (t'.settings ≡ sample_tables.settings)
remove-cascades_example = remove-cascades "CUSTOM" sample_tables sample_IsConsistent

append-IsArray :
    (a v : Tree)
    → sample_json.is_array a ≡ true
    → sample_json.is_array (sample_json.append a v) ≡ true
append-IsArray (sequence ts) v h = refl
append-IsArray nothing v h = refl
append-IsArray (leaf s) v h = h
append-IsArray (digit n) v h = h
append-IsArray (truth b) v h = h
append-IsArray (object fs) v h = h

items-append :
    (ts : Trees) (v : Tree)
    → sample_json.elements (sample_json.append (sequence ts) v)
      ≡ sample_json.elements (sequence ts) ++ v ∷ []
items-append end v = refl
items-append (item t ts) v = ap (λ us. t ∷ us) (items-append ts v)

elements-append :
    (a v : Tree)
    → sample_json.is_array a ≡ true
    → sample_json.elements (sample_json.append a v) ≡ sample_json.elements a ++ v ∷ []
elements-append (sequence ts) v h = items-append ts v
elements-append nothing v h = absurd (cc h)
elements-append (leaf s) v h = absurd (cc h)
elements-append (digit n) v h = absurd (cc h)
elements-append (truth b) v h = absurd (cc h)
elements-append (object fs) v h = absurd (cc h)

pub sample_HasItems : HasItems sample_json
sample_HasItems = record {
  as_int-number = λ n h. refl;
  empty-null = refl;
  empty-text = λ s. refl;
  empty-number = λ n. refl;
  array-IsArray = refl;
  append-IsArray = append-IsArray;
  elements-array = refl;
  elements-append = elements-append;
}

abbrev exported : DomainList
exported = record new_list {
  id = 3;
  name = "ADS";
  description = none;
  domains =
      record new_domain { name = "ads.example"; list_id = 3 }
      ∷ record new_domain { name = "nowhere.example"; list_id = 3 }
      ∷ [];
}

written_is_read_example :
    (status_from_json sample_json (status_to_json sample_json sample_env.status (object none_left))
      ≡ ok sample_env.status)
    × (list_from_json sample_json sample_resolver new_list (list_value sample_json exported)
        ≡ ok (imported sample_resolver exported none))
written_is_read_example =
    written_is_read sample_json sample_IsLawful sample_HasItems sample_resolver sample_env.status
      exported (record { start = omega arith; lists = omega arith; blocked = omega arith })
