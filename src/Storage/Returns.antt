-- ===== src/Storage/Returns.antt =====
-- Actions that catch nothing, on a store some of whose statements fail: src/dbl/db/db.cxx.
use dbl_service.Prelude.{ℕ, zero, suc, String, ◌≡◌, refl, Option, none, some, List, [], ◌∷◌}
use dbl_service.Fallible.{Result, ok, err, Exec, pure, ◌>>=◌, ◌>>◌, continue, for_each}
use dbl_service.Storage.{Tables, Store}
use dbl_service.Storage.Session.{
  healthy, control, statement, stored, transaction, fill_if_empty, insert_initial, initial_lists,
  repeat, init,
}

-- If the action returns, it does what it does where no statement fails.
pub record Agrees {A : Type 0} (m : Exec Store A) : Type 0 where
  pub holds :
      (s : Store) (a : A) → (m s).0 ≡ ok a → m (healthy s.tables) ≡ (ok a, healthy (m s).1.tables)

module _ {A : Type 0} where
  Agrees-pure : (a : A) → Agrees (pure a)
  unfolding pure
  Agrees-pure a = record { holds = λ s b h. cc h }

  same_stored :
      (fs : List (Option String)) (t : Tables) (r : Result (A × Tables)) (a : A)
      → (stored fs t r).0 ≡ ok a
      → stored [] t r ≡ (ok a, healthy (stored fs t r).1.tables)
  same_stored fs t (ok (b, u)) a h = cc h
  same_stored fs t (err e) a h = absurd (cc h)

  same_statement :
      (f : Tables → Result (A × Tables)) (fs : List (Option String)) (t : Tables) (a : A)
      → (statement f (record { tables = t; faults = fs })).0 ≡ ok a
      → statement f (healthy t)
        ≡ (ok a, healthy (statement f (record { tables = t; faults = fs })).1.tables)
  unfolding statement
  same_statement f [] t a h = same_stored [] t (f t) a h
  same_statement f (none ∷ fs) t a h = same_stored fs t (f t) a h
  same_statement f (some m ∷ fs) t a h = absurd (cc h)

  Agrees-statement : (f : Tables → Result (A × Tables)) → Agrees (statement f)
  Agrees-statement f = record { holds = λ s. same_statement f s.faults s.tables }

module _ {A B : Type 0} (m : Exec Store A) (f : A → Exec Store B) where
  resumed :
      (t : Tables) (r : Result A) (s : Store) (b : B)
      → ((a : A) → Agrees (f a))
      → ((a : A) → r ≡ ok a → m (healthy t) ≡ (ok a, healthy s.tables))
      → (continue r f s).0 ≡ ok b
      → (m >>= f) (healthy t) ≡ (ok b, healthy (continue r f s).1.tables)
  unfolding ◌>>=◌
  resumed t (ok a) s b kf e h = rw (e a refl) ((kf a).holds s b h)
  resumed t (err x) s b kf e h = absurd (cc h)

  Agrees-bind : Agrees m → ((a : A) → Agrees (f a)) → Agrees (m >>= f)
  unfolding ◌>>=◌
  Agrees-bind km kf = record { holds = λ s b. resumed s.tables (m s).0 (m s).1 b kf (km.holds s) }

Agrees-for_each :
    {A : Type 0} (xs : List A) (f : A → Exec Store Unit)
    → ((x : A) → Agrees (f x))
    → Agrees (for_each xs f)
unfolding for_each
Agrees-for_each [] f k = Agrees-pure tt
Agrees-for_each (x ∷ xs) f k =
    Agrees-bind (f x) (λ _. for_each xs f) (k x) (λ _. Agrees-for_each xs f k)

Agrees-repeat : (n : ℕ) (m : Exec Store Unit) → Agrees m → Agrees (repeat n m)
unfolding repeat
Agrees-repeat zero m k = Agrees-pure tt
Agrees-repeat (suc n) m k = Agrees-bind m (λ _. repeat n m) k (λ _. Agrees-repeat n m k)

Agrees-fill : (n : ℕ) → Agrees (fill_if_empty n)
Agrees-fill zero = Agrees-for_each initial_lists _ (λ l. Agrees-statement (insert_initial l))
Agrees-fill (suc n) = Agrees-pure tt

Agrees-control : Agrees control
Agrees-control = Agrees-statement (λ t. ok (tt, t))

Agrees-transaction : {A : Type 0} (body : Exec Store A) → Agrees body → Agrees (transaction body)
unfolding transaction
Agrees-transaction body k = Agrees-bind control _ Agrees-control (λ _.
    Agrees-bind body (λ a. control >> pure a) k
      (λ a. Agrees-bind control (λ _. pure a) Agrees-control (λ _. Agrees-pure a)))

pub Agrees-init : (pool_size : ℕ) → Agrees (init pool_size)
unfolding init
Agrees-init pool_size =
    search
      (Agrees-repeat, Agrees-statement, Agrees-fill, Agrees-transaction, Agrees-bind, Agrees-pure)
