-- ===== src/Tests/Managers.antt =====
-- The storage, manager and authentication theorems at the sample database.
use Prim.Native.String.{◌++◌, len}
use dbl_service.Prelude.{
  ℕ, ◌&&◌, length, List, Bool, any, contains, lookup, String, ◌≡◌, refl, true, false, some, none,
  [], ◌∷◌, arith, if◌then◌else◌, ◌==◌, ◌≢◌, ◌↔◌, ◌⊎◌,
}
use dbl_service.Validator.{is_valid}
use dbl_service.Fallible.{ok}
use dbl_service.Storage.{Tables, Store}
use dbl_service.Storage.Statements.{has_id, find_list, select_blocked, select_whitelisted, id_of}
use dbl_service.Storage.Session.{healthy, init}
use dbl_service.Storage.Integrity.{IsConsistent}
use dbl_service.Storage.Integrity.Queries.{has_domain, admitted}
use dbl_service.Manager.Setup.{set_up, init-once, init-returns}
use dbl_service.Manager.DomainLists
use dbl_service.Manager.DomainLists.Adding.{active_list, create-adds}
use dbl_service.Manager.Blocking.{block_domains, unblock_domains}
use dbl_service.Manager.Blocking.Lists.{
  blocks, allows, after, block_domains-blocks, unblock_domains-allows,
}
use dbl_service.Crypto.{md5, len-md5}
use dbl_service.Auth.{auth, set_password}
use dbl_service.Auth.Laws.{password, auth-decides, set_password-decides, with_password}
use dbl_service.Tests.Sample.{
  sample_tables, sample_resolver, sample_hash, sample_password, empty_tables,
}

pub sample_IsConsistent : IsConsistent sample_tables
unfolding lookup any
sample_IsConsistent = record {
  settings_keys = (refl, tt);
  lists_keys = ground arith;
  domains_keys = ground arith;
  domains_linked = ground arith;
  enforced = refl;
}

abbrev empty_IsConsistent : IsConsistent empty_tables
empty_IsConsistent = record {
  settings_keys = tt;
  lists_keys = tt;
  domains_keys = tt;
  domains_linked = tt;
  enforced = refl;
}

block_domains-blocks_example :
    has_domain "ads.example"
      (select_blocked (after (block_domains sample_resolver ("ads.example" ∷ []) 0) sample_tables))
    ≡ true
unfolding id_of any contains is_valid lookup
block_domains-blocks_example =
    block_domains-blocks sample_resolver ("ads.example" ∷ []) "ads.example" 1 sample_tables
      sample_IsConsistent refl refl

unblock_domains-allows_example :
    (has_domain "track.example" (
        select_blocked
          (after (unblock_domains sample_resolver ("track.example" ∷ [])) sample_tables))
      ≡ false)
    × (has_domain "track.example" (
          select_whitelisted
            (after (unblock_domains sample_resolver ("track.example" ∷ [])) sample_tables))
        ≡ true)
unfolding id_of any contains is_valid lookup
unblock_domains-allows_example =
    unblock_domains-allows sample_resolver ("track.example" ∷ []) "track.example" 2 sample_tables
      sample_IsConsistent refl refl

create-adds_example :
    (i : ℕ) × (t' : Tables) × (DomainLists.create "ADS" "http://ads.example" "Ads" false
        (healthy sample_tables)
      ≡ (ok i, healthy t'))
    × (id_of "ADS" t'.lists ≡ some i)
    × (has_id i sample_tables.lists ≡ false)
    × ((m : String)
        → find_list m t'.lists ≡ (
            if ("ADS" == m) && true
            then some (active_list i "ADS" "http://ads.example" "Ads" false)
            else find_list m sample_tables.lists))
    × (t'.domains ≡ sample_tables.domains)
    × (t'.settings ≡ sample_tables.settings)
unfolding any
create-adds_example = create-adds "ADS" "http://ads.example" "Ads" false sample_tables

len-md5_example :
    len (
      md5 (λ s. 1 ∷ 20 ∷ 0 ∷ 255 ∷ 1 ∷ 20 ∷ 0 ∷ 255 ∷ 1 ∷ 20 ∷ 0 ∷ 255 ∷ 1 ∷ 20 ∷ 0 ∷ 255 ∷ []) "x")
    ≡ 32
len-md5_example =
    len-md5 (λ s. 1 ∷ 20 ∷ 0 ∷ 255 ∷ 1 ∷ 20 ∷ 0 ∷ 255 ∷ 1 ∷ 20 ∷ 0 ∷ 255 ∷ 1 ∷ 20 ∷ 0 ∷ 255 ∷ [])
      "x" refl

auth-decides_example :
    let r =
      auth sample_hash "/t" "no" (record { tables = sample_tables; faults = some "disk" ∷ [] }) in
    (b : Bool) × (r.0 ≡ ok b)
    × (r.1.tables ≡ sample_tables)
    × ((b ≡ true) ↔ (
        (true ≡ true)
        ⊎ ((password sample_tables ≡ "")
            ⊎ ((◌≢◌ {A = String} "no" "")
                × (sample_hash (password sample_tables ++ "/t") ≡ "no")))))
auth-decides_example = auth-decides sample_hash "/t" "no" sample_tables (some "disk" ∷ [])

set_password-decides_example :
    let t' = with_password sample_password empty_tables in
    (es : List String) × (set_password sample_hash "/t" sample_password
        (sample_hash (sample_password ++ "/t"))
        (healthy empty_tables)
      ≡ (ok (true, es), healthy t'))
    × (length es ≡ 0)
    × ((token' h : String)
        → auth sample_hash token' h (healthy t') ≡ (
          ok (if h == "" then false else sample_hash (sample_password ++ token') == h),
          healthy t',
        ))
    × (t'.lists ≡ empty_tables.lists)
    × (t'.domains ≡ empty_tables.domains)
set_password-decides_example =
    set_password-decides sample_hash "/t" sample_password (sample_hash (sample_password ++ "/t"))
      empty_tables

init-once_example :
    (init 10 (healthy empty_tables) ≡ (ok tt, healthy (set_up empty_tables)))
    × (id_of "CUSTOM" (set_up empty_tables).lists ≡ some 1)
    × (admitted blocks (set_up empty_tables).lists (some 1) ≡ true)
    × (id_of "WHITELIST" (set_up empty_tables).lists ≡ some 2)
    × (admitted allows (set_up empty_tables).lists (some 2) ≡ true)
    × ((set_up empty_tables).settings ≡ empty_tables.settings)
    × ((set_up empty_tables).domains ≡ empty_tables.domains)
    × ((set_up empty_tables).foreign_keys ≡ true)
init-once_example = init-once 9 empty_tables

-- Two statements are known not to fail.
abbrev lucky_store : Store
lucky_store = record {
  tables = record empty_tables { foreign_keys = false };
  faults = none ∷ none ∷ [];
}

init-returns_example :
    IsConsistent (init 10 lucky_store).1.tables
    × ((init 10 lucky_store).1.tables ≡ set_up empty_tables)
unfolding init any
init-returns_example = init-returns 9 lucky_store.tables lucky_store.faults empty_IsConsistent refl
