-- ===== src/Storage/Session.antt =====
-- One statement, one transaction and the schema's setup: src/dbl/db/db.cxx, and the begin() and
-- commit() of the managers. Nothing rolls back: where a statement of a transaction throws, what was written
-- before it stays in the session, whose transaction is open. That the session's next begin() then fails is
-- one of the schedules.
use dbl_service.Prelude.{
  ℕ, zero, suc, String, Bool, true, false, Option, none, some, List, [], ◌∷◌, ◌++◌, length,
  if◌then◌else◌,
}
use dbl_service.Fallible.{runtime_error, Result, ok, err, Exec, pure, ◌>>=◌, ◌>>◌, for_each}
use dbl_service.Storage.{Tables, Store}
use dbl_service.Storage.Statements.{next_id, has_name}

-- A store whose statements do not fail.
abbrev pub healthy : Tables → Store
healthy t = record { tables = t; faults = [] }

module _ {A : Type 0} where
  abbrev pub stored : List (Option String) → Tables → Result (A × Tables) → Result A × Store
  stored fs t (ok (a, t')) = (ok a, record { tables = t'; faults = fs })
  stored fs t (err e) = (err e, record { tables = t; faults = fs })

  abbrev pub run_unless : List (Option String) → Tables → Result (A × Tables) → Result A × Store
  run_unless [] t r = stored [] t r
  run_unless (none ∷ fs) t r = stored fs t r
  run_unless (some message ∷ fs) t r =
      (err (runtime_error message), record { tables = t; faults = fs })

  -- `*session_ptr << q`, or one execute() of a prepared statement
  unfoldable pub statement : (Tables → Result (A × Tables)) → Exec Store A
  statement f s = run_unless s.faults s.tables (f s.tables)

  -- A query.
  abbrev pub query : (Tables → A) → Exec Store A
  query f = statement (λ t. ok (f t, t))

-- An update that violates no constraint.
abbrev pub update : (Tables → Tables) → Exec Store Unit
update f = statement (λ t. ok (tt, f t))

-- A statement that touches no row: BEGIN, COMMIT, CREATE TABLE IF NOT EXISTS.
abbrev pub control : Exec Store Unit
control = update (λ t. t)

module _ {A : Type 0} where
  -- session_ptr->begin(); body; session_ptr->commit();
  unfoldable pub transaction : Exec Store A → Exec Store A
  unfolding statement ◌>>=◌
  transaction body = do control; a ← body; control; pure a

-- src/dbl/db/data/initial_data.hxx: name, description, is_whitelist; both lists are custom
abbrev pub initial_lists : List (String × String × Bool)
initial_lists =
    ("CUSTOM", "Custom, uncategorized list", false)
    ∷ ("WHITELIST", "Custom, default whitelist", true)
    ∷ []

-- INSERT INTO domain_lists(name, description, custom[, is_whitelist]) VALUES(...)
unfoldable pub insert_initial : String × String × Bool → Tables → Result (Unit {0} × Tables)
insert_initial (name, description, is_whitelist) t =
    if has_name name t.lists
    then err (runtime_error "UNIQUE constraint failed: domain_lists.name")
    else ok (
      tt,
      record t {
        lists =
            t.lists
            ++ record {
              id = next_id t.lists;
              name = name;
              url = "";
              description = some description;
              active = true;
              custom = true;
              is_whitelist = is_whitelist;
              mtime = 0;
            }
              ∷ [];
      },
    )

unfoldable pub repeat : ℕ → Exec Store Unit → Exec Store Unit
unfolding ◌>>=◌ statement
repeat zero m = pure tt
repeat (suc n) m = m >> repeat n m

abbrev pub fill_if_empty : ℕ → Exec Store Unit
fill_if_empty zero = for_each initial_lists (λ l. statement (insert_initial l))
fill_if_empty (suc n) = pure tt

-- PRAGMA foreign_keys = ON
abbrev pub enforce : Exec Store Unit
enforce = update (λ t. record t { foreign_keys = true })

-- DB::init: foreign keys are switched on in each pooled session; then one transaction creates the
-- four tables and fills domain_lists if it is empty. Nothing is caught here.
unfoldable pub init : ℕ → Exec Store Unit
unfolding repeat transaction for_each insert_initial
init pool_size = do
  repeat pool_size enforce
  transaction
      do repeat 4 control; total_lists ← query (λ t. length t.lists); fill_if_empty total_lists
