-- ===== src/Fallible.antt =====
-- C++ exceptions as values, and code that reads and writes a state and may throw. What was written
-- before a throw stays written, so the state comes back beside the exception.
pub mod Keeps
pub mod Results
pub mod Triples
use dbl_service.Prelude.{String, ◌≡◌, refl, List, [], ◌∷◌}

-- `std::runtime_error` (of which `soci_error` is one), `ServiceOperationError`, a `std::exception` that is
-- no runtime_error (as those of jsoncpp are), and the use of an empty `std::unique_ptr`, which no catch
-- clause of the program sees.
pub data Error : Type 0 where
  runtime_error : String → Error
  operation_error : String → List String → Error
  logic_error : String → Error
  null_pointer : Error

pub data Result {ℓ} (A : Type ℓ) : Type ℓ where
  ok : A → Result A
  err : Error → Result A

abbrev pub Exec {ℓ} : Type ℓ → Type ℓ → Type ℓ
Exec S A = S → Result A × S

module _ {ℓ} {S A : Type ℓ} where
  unfoldable pub pure : A → Exec S A
  pure a s = (ok a, s)

  unfoldable pub throw : Error → Exec S A
  throw e s = (err e, s)

  abbrev pub handle : Result A → (Error → Exec S A) → Exec S A
  handle (ok a) h s = (ok a, s)
  handle (err null_pointer) h s = (err null_pointer, s)
  handle (err (logic_error m)) h s = (err (logic_error m), s)
  handle (err e) h s = h e s

  -- try { m } catch(const std::runtime_error& e) { h }
  unfoldable pub try_catch : Exec S A → (Error → Exec S A) → Exec S A
  try_catch m h s = let (r, s') = m s in handle r h s'

  abbrev pub handle_any : Result A → (Error → Exec S A) → Exec S A
  handle_any (ok a) h s = (ok a, s)
  handle_any (err null_pointer) h s = (err null_pointer, s)
  handle_any (err e) h s = h e s

  -- try { m } catch(const std::exception& e) { h }
  unfoldable pub try_catch_any : Exec S A → (Error → Exec S A) → Exec S A
  try_catch_any m h s = let (r, s') = m s in handle_any r h s'

module _ {ℓ} {S A B : Type ℓ} where
  abbrev pub continue : Result A → (A → Exec S B) → Exec S B
  continue (ok a) f s = f a s
  continue (err e) f s = (err e, s)

  infixl 10 ◌>>=◌ ◌>>◌
  -- Opening this opens `pure`, `throw` and `try_catch` too.
  unfoldable pub ◌>>=◌ : Exec S A → (A → Exec S B) → Exec S B
  unfolding pure throw try_catch try_catch_any
  ◌>>=◌ m f s = let (r, s') = m s in continue r f s'

  abbrev pub ◌>>◌ : Exec S A → Exec S B → Exec S B
  m >> n = m >>= λ _. n

-- for(auto const& x : xs) { f(x); }
module _ {ℓ} {S : Type ℓ} {A : Type ℓ} where
  unfoldable pub for_each : List A → (A → Exec S (Unit {ℓ})) → Exec S (Unit {ℓ})
  unfolding ◌>>=◌
  for_each [] f = pure tt
  for_each (x ∷ xs) f = f x >> for_each xs f

  -- A loop whose body always returns is a fold of what the body does to the state.
  unfoldable pub fold_each : (A → S → S) → List A → S → S
  fold_each g [] s = s
  fold_each g (x ∷ xs) s = fold_each g xs (g x s)
