-- ===== src/Storage/Integrity/Rows.antt =====
-- How the rows of domain_lists and domains stay unique and linked as statements change them.
use dbl_service.Prelude.{
  ℕ, String, ◌≡◌, refl, true, false, not, ◌&&◌, ◌||◌, none, List, [], ◌∷◌, ◌++◌, arith, ◌<◌, any,
  select, Assoc, lookup, without, map, eqb, eqb_iff, ◌==◌, eq_iff,
}
use dbl_service.Storage.{ListRow}
use dbl_service.Storage.Statements.{has_id, has_name, max_id, unlinked}
use dbl_service.Storage.Integrity.{DistinctKeys, DistinctLists, Linked}

-- The next id is free.
pub has_id-above_max : (i : ℕ) (ls : List ListRow) → max_id ls < i → has_id i ls ≡ false
unfolding any max_id
has_id-above_max i [] h = refl
has_id-above_max i (l ∷ ls) h = ground (arith, has_id-above_max i ls)

has_id-append :
    (i : ℕ) (ls : List ListRow) (r : ListRow)
    → has_id i (ls ++ r ∷ []) ≡ (has_id i ls || eqb r.id i)
unfolding any
has_id-append i [] r = ground arith
has_id-append i (l ∷ ls) r = ground (arith, has_id-append i ls r)

has_name-append :
    (n : String) (ls : List ListRow) (r : ListRow)
    → has_name n (ls ++ r ∷ []) ≡ (has_name n ls || r.name == n)
unfolding any
has_name-append n [] r = ground arith
has_name-append n (l ∷ ls) r = ground (arith, has_name-append n ls r)

absent_id :
    (i : ℕ) (l : ListRow) (ls : List ListRow)
    → has_id i (l ∷ ls) ≡ false
    → (eqb l.id i ≡ false) × (has_id i ls ≡ false)
unfolding any
absent_id i l ls h = ground arith

absent_name :
    (n : String) (l : ListRow) (ls : List ListRow)
    → has_name n (l ∷ ls) ≡ false
    → ((l.name == n) ≡ false) × (has_name n ls ≡ false)
unfolding any
absent_name n l ls h = ground arith

pub append-DistinctLists :
    (ls : List ListRow) (r : ListRow)
    → DistinctLists ls
    → has_id r.id ls ≡ false
    → has_name r.name ls ≡ false
    → 0 < r.id
    → DistinctLists (ls ++ r ∷ [])
append-DistinctLists [] r d i n p = unfold any in (refl, refl, p, tt)
append-DistinctLists (l ∷ ls) r d i n p =
    let (i', i'') = absent_id r.id l ls i in
    let (n', n'') = absent_name r.name l ls n in
    (
      ground (arith, d, has_id-append l.id ls r, eqb_iff l.id r.id, eqb_iff r.id l.id),
      ground (arith, d, has_name-append l.name ls r, eq_iff l.name r.name, eq_iff r.name l.name),
      d.2,
      append-DistinctLists ls r d.3 i'' n'' p,
    )

pub append-Linked :
    (ls : List ListRow) (r : ListRow) (ds : Assoc ℕ) → Linked ls ds → Linked (ls ++ r ∷ []) ds
append-Linked ls r [] h = tt
append-Linked ls r ((n, i) ∷ ds) h =
    (ground (arith, has_id-append i ls r), append-Linked ls r ds h.1)

pub without-Linked :
    (k : String) (ls : List ListRow) (ds : Assoc ℕ) → Linked ls ds → Linked ls (without k ds)
unfolding without
without-Linked k ls [] h = tt
without-Linked k ls ((n, i) ∷ ds) h = ground (arith, without-Linked k ls ds h.1)

-- A change of rows that leaves their ids and names alone.
module _ (f : ListRow → ListRow) (same_id : (l : ListRow) → (f l).id ≡ l.id)
    (same_name : (l : ListRow) → (f l).name ≡ l.name) where
  has_id-map : (i : ℕ) (ls : List ListRow) → has_id i (map f ls) ≡ has_id i ls
  unfolding any
  has_id-map i [] = refl
  has_id-map i (l ∷ ls) = rw (same_id l, has_id-map i ls)

  has_name-map : (n : String) (ls : List ListRow) → has_name n (map f ls) ≡ has_name n ls
  unfolding any
  has_name-map n [] = refl
  has_name-map n (l ∷ ls) = rw (same_name l, has_name-map n ls)

  pub map-DistinctLists : (ls : List ListRow) → DistinctLists ls → DistinctLists (map f ls)
  map-DistinctLists [] d = tt
  map-DistinctLists (l ∷ ls) d = (
    rw (same_id l, has_id-map l.id ls) d.0,
    rw (same_name l, has_name-map l.name ls) d.1,
    rw (same_id l) d.2,
    map-DistinctLists ls d.3,
  )

  pub map-Linked : (ls : List ListRow) (ds : Assoc ℕ) → Linked ls ds → Linked (map f ls) ds
  map-Linked ls [] h = tt
  map-Linked ls ((n, i) ∷ ds) h = (rw (has_id-map i ls) h.0, map-Linked ls ds h.1)

-- DELETE FROM domain_lists where name = ?, with its cascade.
module _ (name : String) where
  abbrev pub others : List ListRow → List ListRow
  others ls = select (λ l. not (l.name == name)) ls

  has_id-others-false :
      (i : ℕ) (ls : List ListRow) → has_id i ls ≡ false → has_id i (others ls) ≡ false
  unfolding any select
  has_id-others-false i [] h = refl
  has_id-others-false i (l ∷ ls) h = ground (arith, has_id-others-false i ls)

  has_name-others-false :
      (n : String) (ls : List ListRow) → has_name n ls ≡ false → has_name n (others ls) ≡ false
  unfolding any select
  has_name-others-false n [] h = refl
  has_name-others-false n (l ∷ ls) h = ground (arith, has_name-others-false n ls)

  pub others-DistinctLists : (ls : List ListRow) → DistinctLists ls → DistinctLists (others ls)
  unfolding select
  others-DistinctLists [] d = tt
  others-DistinctLists (l ∷ ls) d = ground (
    arith,
    others-DistinctLists ls d.3,
    has_id-others-false l.id ls d.0,
    has_name-others-false l.name ls d.1,
  )

  has_id-others :
      (i : ℕ) (ls : List ListRow)
      → has_id i ls ≡ true
      → any (λ l. l.name == name && eqb l.id i) ls ≡ false
      → has_id i (others ls) ≡ true
  unfolding any select
  has_id-others i [] h k = h
  has_id-others i (l ∷ ls) h k = ground (arith, has_id-others i ls)

  pub unlinked-Linked :
      (ls : List ListRow) (ds : Assoc ℕ) → Linked ls ds → Linked (others ls) (unlinked name ls ds)
  unfolding unlinked
  unlinked-Linked ls [] h = tt
  unlinked-Linked ls ((n, i) ∷ ds) h = ground (arith, unlinked-Linked ls ds h.1, has_id-others i ls)

  lookup-unlinked-none :
      (n : String) (ls : List ListRow) (ds : Assoc ℕ)
      → lookup n ds ≡ none
      → lookup n (unlinked name ls ds) ≡ none
  unfolding lookup unlinked
  lookup-unlinked-none n ls [] h = refl
  lookup-unlinked-none n ls ((m, i) ∷ ds) h = ground (arith, lookup-unlinked-none n ls ds)

  pub unlinked-DistinctKeys :
      (ls : List ListRow) (ds : Assoc ℕ) → DistinctKeys ds → DistinctKeys (unlinked name ls ds)
  unfolding unlinked
  unlinked-DistinctKeys ls [] h = tt
  unlinked-DistinctKeys ls ((n, i) ∷ ds) h =
      ground (arith, unlinked-DistinctKeys ls ds h.1, lookup-unlinked-none n ls ds h.0)
