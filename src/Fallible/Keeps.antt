-- ===== src/Fallible/Keeps.antt =====
-- Invariants of actions, one rule for each way to build an action, and the loop rule.
use dbl_service.Prelude.{Bool, true, false, List, [], ◌∷◌, if◌then◌else◌}
use dbl_service.Fallible.{
  Error, logic_error, null_pointer, runtime_error, operation_error, Result, ok, err, Exec, pure,
  throw, try_catch, try_catch_any, handle_any, ◌>>=◌, ◌>>◌, for_each, handle, continue,
}

-- The action preserves the predicate, whether it returns or throws.
pub record Keeps {ℓ} {S A : Type ℓ} (P : S → Type ℓ) (m : Exec S A) : Type ℓ where
  pub holds : (s : S) → P s → P (m s).1

module _ {ℓ} {S A : Type ℓ} {P : S → Type ℓ} where
  pub Keeps-pure : (a : A) → Keeps P (pure a)
  unfolding pure
  Keeps-pure a = record { holds = λ s p. p }

  pub Keeps-throw : (e : Error) → Keeps P (throw {A = A} e)
  unfolding throw
  Keeps-throw e = record { holds = λ s p. p }

  pub Keeps-if : (b : Bool) (m n : Exec S A) → Keeps P m → Keeps P n → Keeps P (if b then m else n)
  Keeps-if true m n km kn = km
  Keeps-if false m n km kn = kn

module _ {ℓ} {S A : Type ℓ} (P : S → Type ℓ) (h : Error → Exec S A) where
  caught : (r : Result A) (s : S) → ((e : Error) → Keeps P (h e)) → P s → P (handle r h s).1
  caught (ok a) s kh p = p
  caught (err null_pointer) s kh p = p
  caught (err (logic_error m)) s kh p = p
  caught (err (runtime_error m)) s kh p = (kh (runtime_error m)).holds s p
  caught (err (operation_error m es)) s kh p = (kh (operation_error m es)).holds s p

  caught_any : (r : Result A) (s : S) → ((e : Error) → Keeps P (h e)) → P s → P (handle_any r h s).1
  caught_any (ok a) s kh p = p
  caught_any (err null_pointer) s kh p = p
  caught_any (err (logic_error m)) s kh p = (kh (logic_error m)).holds s p
  caught_any (err (runtime_error m)) s kh p = (kh (runtime_error m)).holds s p
  caught_any (err (operation_error m es)) s kh p = (kh (operation_error m es)).holds s p

  pub Keeps-try_any :
      (m : Exec S A) → Keeps P m → ((e : Error) → Keeps P (h e)) → Keeps P (try_catch_any m h)
  unfolding try_catch_any
  Keeps-try_any m km kh = record {
    holds = λ s p. let (r, s') = m s in caught_any r s' kh (km.holds s p);
  }

  pub Keeps-try :
      (m : Exec S A) → Keeps P m → ((e : Error) → Keeps P (h e)) → Keeps P (try_catch m h)
  unfolding try_catch
  Keeps-try m km kh = record { holds = λ s p. let (r, s') = m s in caught r s' kh (km.holds s p) }

module _ {ℓ} {S A B : Type ℓ} (P : S → Type ℓ) (f : A → Exec S B) where
  resumed : (r : Result A) (s : S) → ((a : A) → Keeps P (f a)) → P s → P (continue r f s).1
  resumed (ok a) s kf p = (kf a).holds s p
  resumed (err e) s kf p = p

  pub Keeps-bind : (m : Exec S A) → Keeps P m → ((a : A) → Keeps P (f a)) → Keeps P (m >>= f)
  unfolding ◌>>=◌
  Keeps-bind m km kf = record { holds = λ s p. let (r, s') = m s in resumed r s' kf (km.holds s p) }

pub Keeps-then {ℓ} :
    {S A B : Type ℓ} (P : S → Type ℓ) (m : Exec S A) (n : Exec S B)
    → Keeps P m
    → Keeps P n
    → Keeps P (m >> n)
Keeps-then P m n km kn = Keeps-bind P (λ _. n) m km (λ _. kn)

module _ {ℓ} {S A : Type ℓ} (P : S → Type ℓ) (f : A → Exec S (Unit {ℓ})) where
  pub Keeps-for_each : (xs : List A) → ((a : A) → Keeps P (f a)) → Keeps P (for_each xs f)
  unfolding for_each
  Keeps-for_each [] kf = Keeps-pure tt
  Keeps-for_each (x ∷ xs) kf =
      Keeps-bind P (λ _. for_each xs f) (f x) (kf x) (λ _. Keeps-for_each xs kf)

pub ruleset keeps_rules =
    (Keeps-pure, Keeps-throw, Keeps-if, Keeps-try, Keeps-bind, Keeps-then, Keeps-for_each)
