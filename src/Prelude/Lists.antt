-- ===== src/Prelude/Lists.antt =====
-- Lists searched by a Boolean test, folded from the left, and dictionaries with text keys.
use Prim.Native.String.{String}
use Prim.Native.Nat.{ℕ, zero, suc, ◌+◌}
use mathlib.Core.Bool.{Bool, false, ◌||◌}
use mathlib.Core.List.{List, [], ◌∷◌, ◌++◌}
use mathlib.Core.Option.{Option, none, some}
use mathlib.Core.Path.{◌≡◌, refl, ap, subst}
use mathlib.Core.Logic.{◌≢◌}
use native.Mathlib.Omega.{arith}
use text.Mathlib.Text.{◌==◌}
use text.Mathlib.TextEquality.{eq_iff}
use dbl_service.Prelude.Tests.{if◌then◌else◌}

module _ {ℓ} {A : Type ℓ} where
  abbrev pub length : List A → ℕ
  length [] = 0
  length (x ∷ xs) = suc (length xs)

  unfoldable pub any : (A → Bool) → List A → Bool
  any p [] = false
  any p (x ∷ xs) = p x || any p xs

  unfoldable pub select : (A → Bool) → List A → List A
  select p [] = []
  select p (x ∷ xs) = let rest = select p xs in if p x then x ∷ rest else rest

  pub length-append : (xs ys : List A) → length (xs ++ ys) ≡ length xs + length ys
  length-append [] ys = omega arith
  length-append (x ∷ xs) ys = omega (arith, length-append xs ys)

  pub any-append : (p : A → Bool) (xs ys : List A) → any p (xs ++ ys) ≡ (any p xs || any p ys)
  unfolding any
  any-append p [] ys = refl
  any-append p (x ∷ xs) ys = ground (arith, any-append p xs ys)

-- The test that a list of texts holds a text.
unfoldable pub contains : String → List String → Bool
contains n [] = false
contains n (x ∷ xs) = x == n || contains n xs

-- Every element meets the predicate.
abbrev pub All {ℓ κ} : {A : Type ℓ} → (A → Type κ) → List A → Type κ
All P [] = Unit
All P (x ∷ xs) = P x × All P xs

module _ {ℓ κ} {A : Type ℓ} (P : A → Type κ) where
  pub All-append : (xs ys : List A) → All P xs → All P ys → All P (xs ++ ys)
  All-append [] ys h k = k
  All-append (x ∷ xs) ys h k = (h.0, All-append xs ys h.1 k)

module _ {ℓ} {A : Type ℓ} where
  abbrev pub get_elem? : List A → ℕ → Option A
  get_elem? [] i = none
  get_elem? (x ∷ xs) zero = some x
  get_elem? (x ∷ xs) (suc i) = get_elem? xs i

  -- A write out of bounds changes nothing.
  abbrev pub set : List A → ℕ → A → List A
  set [] i v = []
  set (x ∷ xs) zero v = v ∷ xs
  set (x ∷ xs) (suc i) v = x ∷ set xs i v

  -- std::vector::push_back
  abbrev pub push_back : List A → A → List A
  push_back xs x = xs ++ x ∷ []

  pub get_elem?-append :
      (xs ys : List A) (i : ℕ) {x : A} → get_elem? xs i ≡ some x → get_elem? (xs ++ ys) i ≡ some x
  get_elem?-append [] ys i h = absurd (cc h)
  get_elem?-append (x ∷ xs) ys zero h = h
  get_elem?-append (x ∷ xs) ys (suc i) h = get_elem?-append xs ys i h

  pub get_elem?-set_self :
      (xs : List A) (i : ℕ) (v : A) {x : A}
      → get_elem? xs i ≡ some x
      → get_elem? (set xs i v) i ≡ some v
  get_elem?-set_self [] i v h = absurd (cc h)
  get_elem?-set_self (x ∷ xs) zero v h = refl
  get_elem?-set_self (x ∷ xs) (suc i) v h = get_elem?-set_self xs i v h

  pub get_elem?-set_other :
      (xs : List A) (i j : ℕ) (v : A) → i ≢ j → get_elem? (set xs i v) j ≡ get_elem? xs j
  get_elem?-set_other [] i j v n = refl
  get_elem?-set_other (x ∷ xs) zero zero v n = absurd (n refl)
  get_elem?-set_other (x ∷ xs) zero (suc j) v n = refl
  get_elem?-set_other (x ∷ xs) (suc i) zero v n = refl
  get_elem?-set_other (x ∷ xs) (suc i) (suc j) v n =
      get_elem?-set_other xs i j v (λ e. n (omega (arith, e)))

  pub set_same : (xs : List A) (i : ℕ) {x : A} → get_elem? xs i ≡ some x → set xs i x ≡ xs
  set_same [] i h = refl
  set_same (x ∷ xs) zero h = cc h
  set_same (x ∷ xs) (suc i) h = ap (λ l. x ∷ l) (set_same xs i h)

  pub set-set : (xs : List A) (i : ℕ) (v w : A) → set (set xs i v) i w ≡ set xs i w
  set-set [] i v w = refl
  set-set (x ∷ xs) zero v w = refl
  set-set (x ∷ xs) (suc i) v w = ap (λ l. x ∷ l) (set-set xs i v w)

module _ {ℓ κ} {A : Type ℓ} (P : A → Type κ) where
  pub All-get : (xs : List A) (i : ℕ) {x : A} → All P xs → get_elem? xs i ≡ some x → P x
  All-get [] i h e = absurd (cc e)
  All-get (y ∷ xs) zero h e = subst P (cc e) h.0
  All-get (y ∷ xs) (suc i) h e = All-get xs i h.1 e

  pub All-set : (xs : List A) (i : ℕ) (v : A) → All P xs → P v → All P (set xs i v)
  All-set [] i v h p = tt
  All-set (x ∷ xs) zero v h p = (p, h.1)
  All-set (x ∷ xs) (suc i) v h p = (h.0, All-set xs i v h.1 p)

abbrev pub Assoc {ℓ} : Type ℓ → Type ℓ
Assoc V = List (String × V)

module _ {ℓ} {V : Type ℓ} where
  unfoldable pub lookup : String → Assoc V → Option V
  lookup k [] = none
  lookup k ((j, v) ∷ m) = if j == k then some v else lookup k m

  unfoldable pub without : String → Assoc V → Assoc V
  without k [] = []
  without k ((j, v) ∷ m) = let rest = without k m in if j == k then rest else (j, v) ∷ rest

  -- The new entry stands first; the program reads no order of rows that no query states.
  unfoldable pub put : String → V → Assoc V → Assoc V
  unfolding without
  put k v m = (k, v) ∷ without k m

  pub lookup-without :
      (k j : String) (m : Assoc V) → lookup j (without k m) ≡ (if k == j then none else lookup j m)
  unfolding lookup without
  lookup-without k j [] = ground arith
  lookup-without k j ((i, v) ∷ m) =
      ground (arith, lookup-without k j m, eq_iff i k, eq_iff i j, eq_iff k j)

  pub lookup-put :
      (k j : String) (v : V) (m : Assoc V)
      → lookup j (put k v m) ≡ (if k == j then some v else lookup j m)
  unfolding lookup put
  lookup-put k j v m = ground (arith, lookup-without k j m)

pub ruleset dict_laws = (lookup-put, lookup-without)
