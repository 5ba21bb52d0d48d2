-- ===== src/Storage/Integrity/Upkeep.antt =====
-- Each statement, and so each transaction, keeps the constraints, whatever fails on the way.
use dbl_service.Prelude.{
  refl, ℕ, not, or-true, List, Option, some, [], ◌∷◌, zero, suc, String, ◌≡◌, Bool, true, none,
  arith, if◌then◌else◌, lookup, put, Bool-cases, Option-cases, inl, inr, ◌==◌, eqb, map,
}
use dbl_service.Fallible.{Exec, ok, ◌>>=◌}
use dbl_service.Fallible.Keeps.{Keeps, Keeps-pure, Keeps-bind, Keeps-for_each, keeps_rules}
use dbl_service.Storage.{ListRow, Tables, Store}
use dbl_service.Storage.Statements.{
  has_id, has_name, insert_list, max_id, new_row, replace_domain, whitelist_domain, insert_domain,
  delete_unless_whitelisted, on_whitelist, id_of, delete_list, set_active, set_mtime,
}
use dbl_service.Storage.Session.{
  statement, enforce, insert_initial, repeat, fill_if_empty, initial_lists, init,
}
use dbl_service.Storage.Integrity.{IsConsistent, put-DistinctKeys, without-DistinctKeys}
use dbl_service.Storage.Integrity.Rows.{
  has_id-above_max, append-DistinctLists, append-Linked, without-Linked, map-DistinctLists,
  map-Linked, others-DistinctLists, unlinked-Linked, unlinked-DistinctKeys,
}
use dbl_service.Storage.Integrity.Transactions.{
  IsSound, Leaves, Keeps-statement, Keeps-query, Keeps-control, Keeps-update, Keeps-transaction,
}

pub insert_list-IsConsistent :
    (n u d : String) (b : Bool) (t : Tables) → IsConsistent t → IsConsistent (insert_list n u d b t)
unfolding insert_list
insert_list-IsConsistent n u d b t c = elim (Bool-cases (has_name n t.lists)) [
  | inl e ↦ rw e c
  | inr e ↦
      let row = new_row n u d b t.lists in
      let free = has_id-above_max (suc (max_id t.lists)) t.lists (omega arith) in
      rw e (record {
        settings_keys = c.settings_keys;
        lists_keys = append-DistinctLists t.lists row c.lists_keys free e (omega arith);
        domains_keys = c.domains_keys;
        domains_linked = append-Linked t.lists row t.domains c.domains_linked;
        enforced = c.enforced;
      })
]

put_domain-IsConsistent :
    (i : ℕ) (n : String) (t : Tables)
    → has_id i t.lists ≡ true
    → IsConsistent t
    → IsConsistent (record t { domains = put n i t.domains })
unfolding put
put_domain-IsConsistent i n t h c = record {
  settings_keys = c.settings_keys;
  lists_keys = c.lists_keys;
  domains_keys = put-DistinctKeys n i t.domains c.domains_keys;
  domains_linked = (h, without-Linked n t.lists t.domains c.domains_linked);
  enforced = c.enforced;
}

pub replace_domain-Leaves :
    (i : ℕ) (n : String) (t : Tables) → IsConsistent t → Leaves IsConsistent (replace_domain i n t)
unfolding replace_domain
replace_domain-Leaves i n t c = elim (Bool-cases (has_id i t.lists)) [
  | inl e ↦ rw (e, or-true (not t.foreign_keys)) (put_domain-IsConsistent i n t e c)
  | inr e ↦ rw (e, c.enforced) tt
]

pub whitelist_domain-Leaves :
    (n : String) (t : Tables) → IsConsistent t → Leaves IsConsistent (whitelist_domain n t)
unfolding whitelist_domain
whitelist_domain-Leaves n t c = elim (Option-cases (id_of "WHITELIST" t.lists)) [
  | inl e ↦ rw (e, whitelist_domain) tt
  | inr (w, e) ↦ rw (e, whitelist_domain) (replace_domain-Leaves w n t c)
]

insert_new-Leaves :
    (i : ℕ) (n : String) (t : Tables)
    → lookup n t.domains ≡ none
    → IsConsistent t
    → Leaves IsConsistent (insert_domain i n t)
unfolding insert_domain
insert_new-Leaves i n t e c = elim (Bool-cases (has_id i t.lists)) [
  | inl h ↦
      rw (e, h, or-true (not t.foreign_keys), insert_domain)
        (record {
          settings_keys = c.settings_keys;
          lists_keys = c.lists_keys;
          domains_keys = (e, c.domains_keys);
          domains_linked = (h, c.domains_linked);
          enforced = c.enforced;
        })
  | inr h ↦ rw (e, h, c.enforced, insert_domain) tt
]

pub insert_domain-Leaves :
    (i : ℕ) (n : String) (t : Tables) → IsConsistent t → Leaves IsConsistent (insert_domain i n t)
unfolding insert_domain
insert_domain-Leaves i n t c = elim (Option-cases (lookup n t.domains)) [
  | inl e ↦ insert_new-Leaves i n t e c
  | inr (k, e) ↦ rw (e, insert_domain) c
]

pub delete_unless_whitelisted-IsConsistent :
    (n : String) (t : Tables) → IsConsistent t → IsConsistent (delete_unless_whitelisted n t)
unfolding delete_unless_whitelisted
delete_unless_whitelisted-IsConsistent n t c = elim (Bool-cases (on_whitelist n t)) [
  | inl e ↦ rw e c
  | inr e ↦ rw e (record {
    settings_keys = c.settings_keys;
    lists_keys = c.lists_keys;
    domains_keys = without-DistinctKeys n t.domains c.domains_keys;
    domains_linked = without-Linked n t.lists t.domains c.domains_linked;
    enforced = c.enforced;
  })
]

pub delete_list-IsConsistent :
    (n : String) (t : Tables) → IsConsistent t → IsConsistent (delete_list n t)
unfolding delete_list
delete_list-IsConsistent n t c = record {
  settings_keys = c.settings_keys;
  lists_keys = others-DistinctLists n t.lists c.lists_keys;
  domains_keys = rw c.enforced (unlinked-DistinctKeys n t.lists t.domains c.domains_keys);
  domains_linked = rw c.enforced (unlinked-Linked n t.lists t.domains c.domains_linked);
  enforced = c.enforced;
}

module _ (f : ListRow → ListRow) (same_id : (l : ListRow) → (f l).id ≡ l.id)
    (same_name : (l : ListRow) → (f l).name ≡ l.name) where
  map-IsConsistent :
      (t : Tables) → IsConsistent t → IsConsistent (record t { lists = map f t.lists })
  map-IsConsistent t c = record {
    settings_keys = c.settings_keys;
    lists_keys = map-DistinctLists f same_id same_name t.lists c.lists_keys;
    domains_keys = c.domains_keys;
    domains_linked = map-Linked f same_id same_name t.lists t.domains c.domains_linked;
    enforced = c.enforced;
  }

pub set_active-IsConsistent :
    (b : Bool) (n : String) (t : Tables) → IsConsistent t → IsConsistent (set_active b n t)
unfolding set_active
set_active-IsConsistent b n =
    map-IsConsistent (λ l. if l.name == n then record l { active = b } else l) (λ l. ground arith)
      (λ l. ground arith)

pub set_mtime-IsConsistent :
    (now i : ℕ) (t : Tables) → IsConsistent t → IsConsistent (set_mtime now i t)
unfolding set_mtime
set_mtime-IsConsistent now i =
    map-IsConsistent (λ l. if eqb l.id i then record l { mtime = now } else l) (λ l. ground arith)
      (λ l. ground arith)

initial-IsConsistent :
    (n d : String) (w : Bool) (t : Tables)
    → IsConsistent t
    → Leaves IsConsistent (insert_initial (n, d, w) t)
unfolding insert_initial
initial-IsConsistent n d w t c = elim (Bool-cases (has_name n t.lists)) [
  | inl e ↦ rw e tt
  | inr e ↦
      let free = has_id-above_max (suc (max_id t.lists)) t.lists (omega arith) in
      rw e (record {
        settings_keys = c.settings_keys;
        lists_keys = append-DistinctLists t.lists _ c.lists_keys free e (omega arith);
        domains_keys = c.domains_keys;
        domains_linked = append-Linked t.lists _ t.domains c.domains_linked;
        enforced = c.enforced;
      })
]

Keeps-enforce : Keeps IsSound enforce
Keeps-enforce =
    Keeps-update (λ t. record t { foreign_keys = true })
      (λ t c. record {
        settings_keys = c.settings_keys;
        lists_keys = c.lists_keys;
        domains_keys = c.domains_keys;
        domains_linked = c.domains_linked;
        enforced = refl;
      })

Keeps-repeat : (n : ℕ) (m : Exec Store Unit) → Keeps IsSound m → Keeps IsSound (repeat n m)
unfolding repeat
Keeps-repeat zero m k = Keeps-pure tt
Keeps-repeat (suc n) m k = Keeps-bind IsSound (λ _. repeat n m) m k (λ _. Keeps-repeat n m k)

Keeps-initial : (l : String × String × Bool) → Keeps IsSound (statement (insert_initial l))
Keeps-initial (n, d, w) = Keeps-statement (insert_initial (n, d, w)) (initial-IsConsistent n d w)

Keeps-fill : (n : ℕ) → Keeps IsSound (fill_if_empty n)
Keeps-fill zero = Keeps-for_each IsSound _ initial_lists Keeps-initial
Keeps-fill (suc n) = Keeps-pure tt

Keeps-init : (pool_size : ℕ) → Keeps IsSound (init pool_size)
unfolding init
Keeps-init pool_size = search (
  keeps_rules, Keeps-repeat, Keeps-enforce, Keeps-control, Keeps-query, Keeps-fill,
  Keeps-transaction,
)

-- DB::init with at least one session, whichever statement fails: if it returns, then the sessions enforce foreign
-- keys and the tables satisfy their constraints, where they satisfied these before.
pub init-establishes :
    (pool_size : ℕ) (t : Tables) (faults : List (Option String))
    → IsConsistent (record t { foreign_keys = true })
    → let s = init (suc pool_size) (record { tables = t; faults = faults }) in
      s.0 ≡ ok tt → IsConsistent s.1.tables
unfolding init repeat statement ◌>>=◌
init-establishes n t [] c h =
    (Keeps-init n).holds (record { tables = record t { foreign_keys = true }; faults = [] }) c
init-establishes n t (none ∷ fs) c h =
    (Keeps-init n).holds (record { tables = record t { foreign_keys = true }; faults = fs }) c
init-establishes n t (some m ∷ fs) c h = absurd (cc h)
