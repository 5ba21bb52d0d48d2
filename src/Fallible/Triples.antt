-- ===== src/Fallible/Triples.antt =====
-- What holds after an action that starts in a given condition, when it returns and when it throws.
use dbl_service.Prelude.{Bool, true, false, if◌then◌else◌, ◌≡◌, refl}
use dbl_service.Fallible.Keeps.{Keeps}
use dbl_service.Fallible.{Error, Result, ok, err, Exec, pure, throw, ◌>>=◌, ◌>>◌, continue}

abbrev pub Outcome {ℓ} : {S A : Type ℓ} → (A → S → Type ℓ) → (S → Type ℓ) → Result A → S → Type ℓ
Outcome Q E (ok a) s = Q a s
Outcome Q E (err e) s = E s

pub record Triple {ℓ} {S A : Type ℓ} (P : S → Type ℓ) (m : Exec S A) (Q : A → S → Type ℓ)
    (E : S → Type ℓ) : Type ℓ where
  pub holds : (s : S) → P s → Outcome Q E (m s).0 (m s).1

module _ {ℓ} {S A : Type ℓ} {P : S → Type ℓ} {Q : A → S → Type ℓ} {E : S → Type ℓ} where
  pub Triple-pure : (a : A) → ((s : S) → P s → Q a s) → Triple P (pure a) Q E
  unfolding pure
  Triple-pure a h = record { holds = h }

  pub Triple-throw : (e : Error) → ((s : S) → P s → E s) → Triple P (throw {A = A} e) Q E
  unfolding throw
  Triple-throw e h = record { holds = h }

  pub Triple-if :
      (b : Bool) (m n : Exec S A)
      → (b ≡ true → Triple P m Q E)
      → (b ≡ false → Triple P n Q E)
      → Triple P (if b then m else n) Q E
  Triple-if true m n hm hn = hm refl
  Triple-if false m n hm hn = hn refl

module _ {ℓ} {S A B : Type ℓ} (Q : A → S → Type ℓ) {R : B → S → Type ℓ} {E : S → Type ℓ} where
  resumed :
      (f : A → Exec S B) (r : Result A) (s : S)
      → ((a : A) → Triple (Q a) (f a) R E)
      → Outcome Q E r s
      → Outcome R E (continue r f s).0 (continue r f s).1
  resumed f (ok a) s hf q = (hf a).holds s q
  resumed f (err e) s hf q = q

  pub Triple-bind :
      {P : S → Type ℓ} (m : Exec S A) (f : A → Exec S B)
      → Triple P m Q E
      → ((a : A) → Triple (Q a) (f a) R E)
      → Triple P (m >>= f) R E
  unfolding ◌>>=◌
  Triple-bind m f hm hf = record { holds = λ s p. resumed f (m s).0 (m s).1 hf (hm.holds s p) }

pub Triple-then {ℓ} :
    {S A B : Type ℓ} {P : S → Type ℓ} (Q : S → Type ℓ) {R : B → S → Type ℓ} {E : S → Type ℓ}
    (m : Exec S A) (n : Exec S B)
    → Triple P m (λ _. Q) E
    → Triple Q n R E
    → Triple P (m >> n) R E
Triple-then Q m n hm hn = Triple-bind (λ _. Q) m (λ _. n) hm (λ _. hn)

module _ {ℓ} {S A : Type ℓ} {Q R : A → S → Type ℓ} {E F : S → Type ℓ} where
  weakened :
      (r : Result A) (s : S)
      → ((a : A) (s : S) → Q a s → R a s)
      → ((s : S) → E s → F s)
      → Outcome Q E r s
      → Outcome R F r s
  weakened (ok a) s h k q = h a s q
  weakened (err e) s h k q = k s q

  pub Triple-weaken :
      {P : S → Type ℓ} (m : Exec S A)
      → ((a : A) (s : S) → Q a s → R a s)
      → ((s : S) → E s → F s)
      → Triple P m Q E
      → Triple P m R F
  Triple-weaken m h k t = record { holds = λ s p. weakened (m s).0 (m s).1 h k (t.holds s p) }

module _ {ℓ} {S A : Type ℓ} (P : S → Type ℓ) where
  kept : (r : Result A) (s : S) → P s → Outcome (λ _. P) P r s
  kept (ok a) s p = p
  kept (err e) s p = p

  pub Triple-keeps : (m : Exec S A) → Keeps P m → Triple P m (λ _. P) P
  Triple-keeps m k = record { holds = λ s p. kept (m s).0 (m s).1 (k.holds s p) }
