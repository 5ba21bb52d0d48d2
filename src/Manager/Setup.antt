-- ===== src/Manager/Setup.antt =====
-- DB::init of src/dbl/db/db.cxx: what the managers find in the database that it leaves.
use dbl_service.Prelude.{
  ℕ, zero, suc, String, ◌≡◌, refl, Bool, true, false, some, List, [], ◌∷◌, if◌then◌else◌, any,
  Option, ap,
}
use dbl_service.Fallible.{ok, pure, for_each, ◌>>=◌}
use dbl_service.Validator.{is_empty}
use dbl_service.Storage.{Tables, ListRow}
use dbl_service.Storage.Statements.{id_of, max_id}
use dbl_service.Storage.Session.{
  enforce, healthy, statement, control, transaction, insert_initial, repeat, init,
}
use dbl_service.Storage.Returns.{Agrees-init}
use dbl_service.Storage.Integrity.{IsConsistent}
use dbl_service.Storage.Integrity.Upkeep.{init-establishes}
use dbl_service.Storage.Integrity.Queries.{admitted}
use dbl_service.Manager.Blocking.Lists.{blocks, allows}

-- These tables, with foreign keys enforced.
abbrev pub enforced : Tables → Tables
enforced t = record t { foreign_keys = true }

repeat-control : (n : ℕ) (t : Tables) → repeat n control (healthy t) ≡ (ok tt, healthy t)
unfolding repeat statement ◌>>=◌ pure
repeat-control zero t = refl
repeat-control (suc n) t = rw (repeat-control n t) refl

repeat-enforce :
    (n : ℕ) (t : Tables) → repeat (suc n) enforce (healthy t) ≡ (ok tt, healthy (enforced t))
unfolding repeat statement ◌>>=◌ pure
repeat-enforce zero t = refl
repeat-enforce (suc n) t = repeat-enforce n (enforced t)

-- Any tables, with no list.
abbrev without_lists : Tables → Tables
without_lists t = record t { lists = [] }

abbrev set_up_list : ℕ → String → String → Bool → ListRow
set_up_list id name description is_whitelist = record {
  id = id;
  name = name;
  url = "";
  description = some description;
  active = true;
  custom = true;
  is_whitelist = is_whitelist;
  mtime = 0;
}

abbrev pub set_up : Tables → Tables
set_up t = record t {
  lists =
      set_up_list 1 "CUSTOM" "Custom, uncategorized list" false
      ∷ set_up_list 2 "WHITELIST" "Custom, default whitelist" true
      ∷ [];
  foreign_keys = true;
}

init-healthy :
    (n : ℕ) (t : Tables) → init (suc n) (healthy (without_lists t)) ≡ (ok tt, healthy (set_up t))
unfolding init transaction statement insert_initial ◌>>=◌ pure for_each any max_id
init-healthy n t = rw (repeat-enforce n (without_lists t)) refl

init-keeps :
    (n : ℕ) (l : ListRow) (ls : List ListRow) (t : Tables)
    → init (suc n) (healthy (record t { lists = l ∷ ls }))
      ≡ (ok tt, healthy (enforced (record t { lists = l ∷ ls })))
unfolding init transaction statement ◌>>=◌ pure
init-keeps n l ls t =
    let u = record t { lists = l ∷ ls } in
    rw (repeat-enforce n u, repeat-control 4 (enforced u)) refl

init-on :
    (n : ℕ) (ls : List ListRow) (t : Tables)
    → init (suc n) (healthy (record t { lists = ls }))
      ≡ (ok tt, healthy (if is_empty ls then set_up t else enforced (record t { lists = ls })))
init-on n [] t = init-healthy n t
init-on n (l ∷ ls) t = init-keeps n l ls t

-- init, with at least one session, on a database that answers: foreign keys are enforced then. Where there is no
-- list, it gives it the lists CUSTOM, active and no whitelist, and WHITELIST, active and a whitelist, with the
-- ids 1 and 2, and settings and domains stay as they are; where there is a list, no table changes.
pub init-once :
    (n : ℕ) (t : Tables)
    → (init (suc n) (healthy t)
        ≡ (ok tt, healthy (if is_empty t.lists then set_up t else enforced t)))
      × (id_of "CUSTOM" (set_up t).lists ≡ some 1)
      × (admitted blocks (set_up t).lists (some 1) ≡ true)
      × (id_of "WHITELIST" (set_up t).lists ≡ some 2)
      × (admitted allows (set_up t).lists (some 2) ≡ true)
      × ((set_up t).settings ≡ t.settings)
      × ((set_up t).domains ≡ t.domains)
      × ((set_up t).foreign_keys ≡ true)
unfolding id_of any
init-once n t = (init-on n t.lists t, refl, refl, refl, refl, refl, refl, refl)

same_tables :
    (n : ℕ) (t : Tables) (u : Tables)
    → init (suc n) (healthy t) ≡ (ok tt, healthy u)
    → u ≡ (if is_empty t.lists then set_up t else enforced t)
same_tables n t u e =
    let on = init-on n t.lists t in cc (ap (λ x. x.1.tables) on, ap (λ x. x.1.tables) e)

-- DB::init with at least one session, whichever statements fail, on tables whose rows satisfy their constraints,
-- with foreign keys enforced or not: if it returns, then foreign keys are enforced, the tables satisfy their
-- constraints, and they are those of before, with the two initial lists if there was none.
pub init-returns :
    (n : ℕ) (t : Tables) (faults : List (Option String))
    → IsConsistent (enforced t)
    → let s = init (suc n) (record { tables = t; faults = faults }) in
      s.0 ≡ ok tt
      → IsConsistent s.1.tables × (s.1.tables ≡ (if is_empty t.lists then set_up t else enforced t))
init-returns n t faults c h = (
  init-establishes n t faults c h,
  same_tables n t _ ((Agrees-init (suc n)).holds (record { tables = t; faults = faults }) tt h),
)
