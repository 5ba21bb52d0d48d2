-- ===== src/Fallible/Results.antt =====
-- Code that reads no state and may throw.
use dbl_service.Prelude.{List, [], ◌∷◌}
use dbl_service.Fallible.{Result, ok, err, Exec}

module _ {ℓ κ} {A : Type ℓ} {B : Type κ} where
  infixl 10 ◌>>=◌
  abbrev pub ◌>>=◌ : Result A → (A → Result B) → Result B
  ok a >>= f = f a
  err e >>= f = err e

module _ {ℓ} {S A : Type ℓ} where
  -- The same code in the middle of code that has a state.
  unfoldable pub lift : Result A → Exec S A
  lift r s = (r, s)

module _ {ℓ} {A B : Type ℓ} where
  -- for(auto const& x : xs) { result.push_back(f(x)); }
  unfoldable pub map_each : (A → Result B) → List A → Result (List B)
  map_each f [] = ok []
  map_each f (x ∷ xs) = do y ← f x; ys ← map_each f xs; ok (y ∷ ys)

  -- for(auto const& x : xs) { y = f(y, x); }
  unfoldable pub loop : (B → A → Result B) → B → List A → Result B
  loop f y [] = ok y
  loop f y (x ∷ xs) = do z ← f y x; loop f z xs
