-- ===== src/Storage/Effects.antt =====
-- What transactions and loops of statements do to a store whose statements do not fail.
use dbl_service.Prelude.{
  String, ◌≡◌, refl, Bool, true, false, not, ◌&&◌, Option, none, some, List, [], ◌∷◌, arith, ◌==◌,
  eq_iff, if◌then◌else◌, contains, lookup, lookup-without, lookup-put, put, map, ℕ,
}
use dbl_service.Fallible.{Result, ok, Exec, for_each, fold_each}
use dbl_service.Storage.{Tables, Store}
use dbl_service.Storage.Statements.{
  has_id, on_whitelist, delete_unless_whitelisted, insert_domain, replace_domain,
}
use dbl_service.Storage.Session.{healthy, statement, transaction}

-- A loop of statements, each of which succeeds as long as a property holds that they preserve.
pub for_each-healthy :
    {A : Type 0} (P : Tables → Type 0) (f : A → Tables → Result (Unit {0} × Tables))
    (g : A → Tables → Tables)
    → ((a : A) (t : Tables) → P t → (f a t ≡ ok (tt, g a t)) × P (g a t))
    → (xs : List A) (t : Tables) → P t
    → for_each xs (λ a. statement (f a)) (healthy t) ≡ (ok tt, healthy (fold_each g xs t))
unfolding for_each statement fold_each
for_each-healthy P f g step [] t p = refl
for_each-healthy P f g step (x ∷ xs) t p =
    rw ((step x t p).0) (for_each-healthy P f g step xs (g x t) (step x t p).1)

module _ {A : Type 0} (body : Exec Store A) (t t' : Tables) where
  pub transaction-healthy :
      (a : A)
      → body (healthy t) ≡ (ok a, healthy t')
      → transaction body (healthy t) ≡ (ok a, healthy t')
  unfolding transaction
  transaction-healthy a e = rw e

-- DELETE ... in a loop: a name that is given goes, unless it stands on a whitelist.
pub lists-delete_each :
    (ns : List String) (t : Tables) → (fold_each delete_unless_whitelisted ns t).lists ≡ t.lists
unfolding fold_each delete_unless_whitelisted
lists-delete_each [] t = refl
lists-delete_each (n ∷ ns) t = ground (arith, lists-delete_each ns (delete_unless_whitelisted n t))

lists-delete : (n : String) (t : Tables) → (delete_unless_whitelisted n t).lists ≡ t.lists
unfolding delete_unless_whitelisted
lists-delete n t = ground arith

lookup-delete :
    (n j : String) (t : Tables)
    → lookup j (delete_unless_whitelisted n t).domains
      ≡ (if n == j && not (on_whitelist j t) then none else lookup j t.domains)
unfolding delete_unless_whitelisted
lookup-delete n j t = ground (arith, lookup-without n j t.domains, eq_iff n j)

pub lookup-delete_each :
    (ns : List String) (j : String) (t : Tables)
    → lookup j (fold_each delete_unless_whitelisted ns t).domains
      ≡ (if contains j ns && not (on_whitelist j t) then none else lookup j t.domains)
unfolding fold_each contains
lookup-delete_each [] j t = refl
lookup-delete_each (n ∷ ns) j t = ground (
  arith,
  lookup-delete_each ns j (delete_unless_whitelisted n t),
  lookup-delete n j t,
  lists-delete n t,
)

-- INSERT OR IGNORE ... in a loop, as a function: a name that has a row keeps it.
unfoldable pub insert_new : ℕ → String → Tables → Tables
insert_new i n t = elim (lookup n t.domains) [
  | some _ ↦ t
  | none ↦ record t { domains = (n, i) ∷ t.domains }
]

abbrev Knows : ℕ → Tables → Type 0
Knows i t = has_id i t.lists ≡ true

insert_domain-eq :
    (i : ℕ) (n : String) (t : Tables)
    → Knows i t
    → (insert_domain i n t ≡ ok (tt, insert_new i n t)) × Knows i (insert_new i n t)
unfolding insert_domain insert_new
insert_domain-eq i n t h = (ground arith, ground arith)

pub insert_each-healthy :
    (i : ℕ) (ns : List String) (t : Tables)
    → has_id i t.lists ≡ true
    → for_each ns (λ n. statement (insert_domain i n)) (healthy t)
      ≡ (ok tt, healthy (fold_each (insert_new i) ns t))
insert_each-healthy i =
    for_each-healthy (Knows i) (insert_domain i) (insert_new i) (insert_domain-eq i)

pub lists-insert_each :
    (i : ℕ) (ns : List String) (t : Tables) → (fold_each (insert_new i) ns t).lists ≡ t.lists
unfolding fold_each insert_new
lists-insert_each i [] t = refl
lists-insert_each i (n ∷ ns) t = ground (arith, lists-insert_each i ns (insert_new i n t))

-- A name that had a row keeps it, and a name that is given has a row.
abbrev pub inserted : ℕ → Bool → Option ℕ → Option ℕ
inserted i given (some k) = some k
inserted i true none = some i
inserted i false none = none

lookup-insert_new :
    (i : ℕ) (n j : String) (t : Tables)
    → lookup j (insert_new i n t).domains ≡ inserted i (n == j) (lookup j t.domains)
unfolding insert_new lookup
lookup-insert_new i n j t = ground (arith, eq_iff n j)

pub lookup-insert_each :
    (i : ℕ) (ns : List String) (j : String) (t : Tables)
    → lookup j (fold_each (insert_new i) ns t).domains
      ≡ inserted i (contains j ns) (lookup j t.domains)
unfolding fold_each contains
lookup-insert_each i [] j t = ground arith
lookup-insert_each i (n ∷ ns) j t =
    ground (arith, lookup-insert_each i ns j (insert_new i n t), lookup-insert_new i n j t)

-- INSERT OR REPLACE ... in a loop, as a function.
unfoldable pub put_domain : ℕ → String → Tables → Tables
put_domain i n t = record t { domains = put n i t.domains }

replace_domain-eq :
    (i : ℕ) (n : String) (t : Tables)
    → Knows i t
    → (replace_domain i n t ≡ ok (tt, put_domain i n t)) × Knows i (put_domain i n t)
unfolding replace_domain put_domain
replace_domain-eq i n t h = (ground arith, h)

pub replace_each-healthy :
    {A : Type 0} (i : ℕ) (name : A → String) (xs : List A) (t : Tables)
    → has_id i t.lists ≡ true
    → for_each xs (λ x. statement (replace_domain i (name x))) (healthy t)
      ≡ (ok tt, healthy (fold_each (λ x. put_domain i (name x)) xs t))
replace_each-healthy i name =
    for_each-healthy (Knows i) (λ x. replace_domain i (name x)) (λ x. put_domain i (name x))
      (λ x. replace_domain-eq i (name x))

pub lists-put_each :
    {A : Type 0} (i : ℕ) (name : A → String) (xs : List A) (t : Tables)
    → (fold_each (λ x. put_domain i (name x)) xs t).lists ≡ t.lists
unfolding fold_each put_domain
lists-put_each i name [] t = refl
lists-put_each i name (x ∷ xs) t = lists-put_each i name xs (put_domain i (name x) t)

pub lookup-put_each :
    {A : Type 0} (i : ℕ) (name : A → String) (xs : List A) (j : String) (t : Tables)
    → lookup j (fold_each (λ x. put_domain i (name x)) xs t).domains
      ≡ (if contains j (map name xs) then some i else lookup j t.domains)
unfolding fold_each put_domain contains
lookup-put_each i name [] j t = refl
lookup-put_each i name (x ∷ xs) j t = ground (
  arith,
  lookup-put_each i name xs j (put_domain i (name x) t),
  lookup-put (name x) j i t.domains,
)
