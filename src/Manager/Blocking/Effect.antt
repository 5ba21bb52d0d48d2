-- ===== src/Manager/Blocking/Effect.antt =====
-- What block_domains and unblock_domains do to the domains table of a database that answers.
use dbl_service.Prelude.{
  ℕ, String, ◌≡◌, refl, Bool, true, false, not, ◌&&◌, Option, some, List, [], ◌∷◌, ◌++◌, arith,
  if◌then◌else◌, any, contains, lookup, Bool-cases, Option-cases, inl, inr, ◌∙◌,
}
use mathlib.Core.List.{map-id}
use dbl_service.Fallible.{ok, fold_each, for_each}
use dbl_service.Storage.{Tables, ListRow}
use dbl_service.Storage.Statements.{
  has_id, has_name, id_of, on_whitelist, is_whitelist_id, insert_list, new_row,
  delete_unless_whitelisted, whitelist_domain,
}
use dbl_service.Storage.Session.{healthy, statement, transaction, update}
use dbl_service.Storage.Effects.{
  for_each-healthy, lists-delete_each, lookup-delete_each, insert_new, insert_each-healthy,
  lists-insert_each, lookup-insert_each, put_domain, lists-put_each, lookup-put_each,
}
use dbl_service.Manager.DomainLists.Creating.{
  id_of-has_id, created_id, domains-insert_list, insert_list-finds, create-healthy,
}
use dbl_service.Manager.Blocking.{block_valid, block_names, unblock_names}

-- The tables after block_valid.
abbrev pub blocked_tables : List String → ℕ → Tables → Tables
blocked_tables ns i t = fold_each (insert_new i) ns (fold_each delete_unless_whitelisted ns t)

delete_each-healthy :
    (ns : List String) (t : Tables)
    → for_each ns (λ n. update (delete_unless_whitelisted n)) (healthy t)
      ≡ (ok tt, healthy (fold_each delete_unless_whitelisted ns t))
delete_each-healthy ns t =
    for_each-healthy (λ _. Unit) (λ n t. ok (tt, delete_unless_whitelisted n t))
      delete_unless_whitelisted (λ n t u. (refl, tt)) ns t tt

block_valid-healthy :
    (ns : List String) (i : ℕ) (t : Tables)
    → has_id i t.lists ≡ true
    → block_valid ns i (healthy t) ≡ (ok true, healthy (blocked_tables ns i t))
unfolding block_valid transaction statement
block_valid-healthy ns i t h =
    let kept : has_id i (fold_each delete_unless_whitelisted ns t).lists ≡ true =
      rw (lists-delete_each ns t) h in
    rw (delete_each-healthy ns t)
      (rw (insert_each-healthy i ns (fold_each delete_unless_whitelisted ns t) kept))

lists-blocked_tables :
    (ns : List String) (i : ℕ) (t : Tables) → (blocked_tables ns i t).lists ≡ t.lists
lists-blocked_tables ns i t =
    lists-insert_each i ns (fold_each delete_unless_whitelisted ns t) ∙ lists-delete_each ns t

-- The list id of a name after names are blocked into the list `i`: a name on a whitelist keeps its
-- place, another one that is given has the list `i`, and any other is left alone.
abbrev pub blocked_entry : List String → ℕ → String → Tables → Option ℕ
blocked_entry ns i n t =
    if contains n ns && not (on_whitelist n t) then some i else lookup n t.domains

whitelisted_has_row :
    (n : String) (t : Tables) → on_whitelist n t ≡ true → (i : ℕ) × (lookup n t.domains ≡ some i)
whitelisted_has_row n t h = ground arith

lookup-blocked_tables :
    (ns : List String) (i : ℕ) (n : String) (t : Tables)
    → lookup n (blocked_tables ns i t).domains ≡ blocked_entry ns i n t
lookup-blocked_tables ns i n t = ground (
  arith,
  lookup-insert_each i ns n (fold_each delete_unless_whitelisted ns t),
  lookup-delete_each ns n t,
)

-- A list that is added is no whitelist, and leaves every name where it is.
is_whitelist_id-append :
    (i : ℕ) (ls : List ListRow) (row : ListRow)
    → row.is_whitelist ≡ false
    → is_whitelist_id i (ls ++ row ∷ []) ≡ is_whitelist_id i ls
unfolding any
is_whitelist_id-append i [] row h = ground arith
is_whitelist_id-append i (l ∷ ls) row h = ground (arith, is_whitelist_id-append i ls row)

is_whitelist_id-insert_list :
    (l u d : String) (c : Bool) (i : ℕ) (t : Tables)
    → is_whitelist_id i (insert_list l u d c t).lists ≡ is_whitelist_id i t.lists
unfolding insert_list
is_whitelist_id-insert_list l u d c i t = elim (Bool-cases (has_name l t.lists)) [
  | inl e ↦ rw e
  | inr e ↦ rw e (is_whitelist_id-append i t.lists (new_row l u d c t.lists) refl)
]

pub blocked_entry-insert_list :
    (l u d : String) (c : Bool) (ns : List String) (i : ℕ) (n : String) (t : Tables)
    → blocked_entry ns i n (insert_list l u d c t) ≡ blocked_entry ns i n t
blocked_entry-insert_list l u d c ns i n t = elim (Option-cases (lookup n t.domains)) [
  | inl e ↦ ground (arith, e, domains-insert_list l u d c t)
  | inr (k, e) ↦
      ground (arith, e, domains-insert_list l u d c t, is_whitelist_id-insert_list l u d c k t)
]

-- block_domains(names) with no list: the names that are valid go to the list CUSTOM.
pub block_names-healthy :
    (n : String) (ns : List String) (t : Tables)
    → (t' : Tables) × (block_names (n ∷ ns) 0 (healthy t) ≡ (ok true, healthy t'))
      × (t'.lists ≡ (insert_list "CUSTOM" "" "Custom list" true t).lists)
      × ((m : String)
          → lookup m t'.domains ≡ blocked_entry (n ∷ ns) (created_id "CUSTOM" t.lists) m t)
block_names-healthy n ns t =
    let t₁ = insert_list "CUSTOM" "" "Custom list" true t in
    let c = created_id "CUSTOM" t.lists in
    let done =
      block_valid-healthy (n ∷ ns) c t₁ (insert_list-finds "CUSTOM" "" "Custom list" true t).1 in
    (
      blocked_tables (n ∷ ns) c t₁,
      unfold block_names in rw (create-healthy "CUSTOM" "" "Custom list" true t) done,
      lists-blocked_tables (n ∷ ns) c t₁,
      λ m.
          lookup-blocked_tables (n ∷ ns) c m t₁
          ∙ blocked_entry-insert_list "CUSTOM" "" "Custom list" true (n ∷ ns) c m t,
    )

abbrev HasWhitelist : ℕ → Tables → Type 0
HasWhitelist w t = (id_of "WHITELIST" t.lists ≡ some w) × (has_id w t.lists ≡ true)

whitelist_domain-eq :
    (w : ℕ) (n : String) (t : Tables)
    → HasWhitelist w t
    → (whitelist_domain n t ≡ ok (tt, put_domain w n t)) × HasWhitelist w (put_domain w n t)
unfolding whitelist_domain put_domain
whitelist_domain-eq w n t h = (ground arith, h)

-- unblock_domains(names): the names that are valid go to the list WHITELIST.
pub unblock_names-healthy :
    (n : String) (ns : List String) (w : ℕ) (t : Tables)
    → id_of "WHITELIST" t.lists ≡ some w
    → (t' : Tables) × (unblock_names (n ∷ ns) (healthy t) ≡ (ok true, healthy t'))
      × (t'.lists ≡ t.lists)
      × ((m : String)
          → lookup m t'.domains ≡ (if contains m (n ∷ ns) then some w else lookup m t.domains))
unblock_names-healthy n ns w t h =
    let known : has_id w t.lists ≡ true = id_of-has_id "WHITELIST" w t.lists h in
    let loop =
      for_each-healthy (HasWhitelist w) whitelist_domain (put_domain w) (whitelist_domain-eq w)
        (n ∷ ns) t (h, known) in
    (
      fold_each (put_domain w) (n ∷ ns) t,
      unfold unblock_names transaction statement in rw loop,
      lists-put_each w (λ x. x) (n ∷ ns) t,
      λ m. rw (lookup-put_each w (λ x. x) (n ∷ ns) m t, map-id),
    )
