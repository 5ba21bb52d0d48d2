-- ===== src/Manager/DomainLists/Removing.antt =====
-- domain_list_manager.cxx, `remove`, with the ON DELETE CASCADE of ddl.hxx: which lists and domains stay.
use dbl_service.Prelude.{
  ℕ, String, ◌≡◌, refl, Bool, true, false, not, ◌&&◌, Option, none, some, List, [], ◌∷◌, arith, any,
  select, Assoc, lookup, ◌==◌, eq_iff, eqb, if◌then◌else◌, Bool-cases, inl, inr, ap, ◌∙◌,
}
use dbl_service.Fallible.{ok, pure}
use dbl_service.Storage.{ListRow, Tables}
use dbl_service.Storage.Statements.{has_name, id_of, unlinked, delete_list}
use dbl_service.Storage.Session.{healthy, statement}
use dbl_service.Storage.Integrity.{DistinctKeys, DistinctLists, IsConsistent}
use dbl_service.Manager.DomainLists.{remove}

-- The list of a domain after the list with the first id is removed.
abbrev pub survives : Option ℕ → Option ℕ → Option ℕ
survives none o = o
survives (some i) none = none
survives (some i) (some k) = if eqb i k then none else some k

abbrev is_list : String → ℕ → List ListRow → Bool
is_list n i ls = any (λ l. l.name == n && eqb l.id i) ls

is_list-unnamed :
    (n : String) (i : ℕ) (ls : List ListRow) → has_name n ls ≡ false → is_list n i ls ≡ false
unfolding any
is_list-unnamed n i [] h = refl
is_list-unnamed n i (l ∷ ls) h = ground (arith, is_list-unnamed n i ls)

abbrev has : Option ℕ → ℕ → Bool
has none i = false
has (some k) i = eqb k i

-- Names are unique, so that the rows of a name are the row that id_of finds.
is_list-id_of :
    (n : String) (i : ℕ) (ls : List ListRow)
    → DistinctLists ls
    → is_list n i ls ≡ has (id_of n ls) i
unfolding any id_of
is_list-id_of n i [] h = refl
is_list-id_of n i (l ∷ ls) h = elim (Bool-cases (l.name == n)) [
  | inl e ↦ ground (
    arith,
    e,
    is_list-unnamed n i ls,
    eq_iff l.name n,
    ap (λ m. has_name m ls) ((eq_iff l.name n).0 e),
  )
  | inr e ↦ ground (arith, e, is_list-id_of n i ls h.3)
]

survives-none : (o : Option ℕ) → survives o none ≡ none
survives-none none = refl
survives-none (some i) = refl

kept : (o : Option ℕ) (i : ℕ) → survives o (some i) ≡ (if has o i then none else some i)
kept none i = refl
kept (some k) i = refl

lookup-unlinked :
    (n m : String) (o : Option ℕ) (ls : List ListRow) (ds : Assoc ℕ)
    → ((i : ℕ) → is_list n i ls ≡ has o i)
    → DistinctKeys ds
    → lookup m (unlinked n ls ds) ≡ survives o (lookup m ds)
unfolding unlinked lookup
lookup-unlinked n m o ls [] f h = rw (survives-none o)
lookup-unlinked n m o ls ((k, i) ∷ ds) f h =
    let later = lookup-unlinked n m o ls ds f h.1 in
    elim (Bool-cases (k == m)) [
      | inl e ↦
          let gone : lookup m ds ≡ none = rw (← (eq_iff k m).0 e) h.0 in
          let none_left : lookup m (unlinked n ls ds) ≡ none = later ∙ rw gone (survives-none o) in
          rw (f i, e, kept o i) (ground (arith, none_left, e))
      | inr e ↦ rw (f i, e) (ground (arith, later, e))
    ]

id_of-others :
    (n m : String) (ls : List ListRow)
    → id_of m (select (λ l. not (l.name == n)) ls) ≡ (if m == n then none else id_of m ls)
unfolding id_of select
id_of-others n m [] = ground arith
id_of-others n m (l ∷ ls) =
    ground (arith, id_of-others n m ls, eq_iff l.name n, eq_iff l.name m, eq_iff m n)

deleted :
    (n m : String) (t : Tables)
    → IsConsistent t
    → lookup m (delete_list n t).domains ≡ survives (id_of n t.lists) (lookup m t.domains)
unfolding delete_list
deleted n m t c = rw c.enforced (
    lookup-unlinked n m (id_of n t.lists) t.lists t.domains
      (λ i. is_list-id_of n i t.lists c.lists_keys) c.domains_keys)

-- remove(name) on a database that answers succeeds. The list of this name is gone, if there was one,
-- and with it every domain that was on it, blocked or whitelisted; every other list keeps its id, and
-- every other domain its list; the settings stay.
pub remove-cascades :
    (n : String) (t : Tables)
    → IsConsistent t
    → (t' : Tables) × (remove n (healthy t) ≡ (ok true, healthy t'))
      × ((m : String) → id_of m t'.lists ≡ (if m == n then none else id_of m t.lists))
      × ((m : String) → lookup m t'.domains ≡ survives (id_of n t.lists) (lookup m t.domains))
      × (t'.settings ≡ t.settings)
remove-cascades n t c = (
  delete_list n t,
  unfold remove statement pure in refl,
  λ m. unfold delete_list in id_of-others n m t.lists,
  λ m. deleted n m t c,
  unfold delete_list in refl,
)
