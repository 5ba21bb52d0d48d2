-- ===== src/Storage/Integrity/Transactions.antt =====
-- Single statements and transactions, as src/dbl/db/db.cxx runs them: what each leaves of the
-- constraints when a statement on the way fails.
use dbl_service.Prelude.{String, Option, none, some, List, [], ◌∷◌}
use dbl_service.Fallible.{Result, ok, err, Exec}
use dbl_service.Fallible.Keeps.{Keeps, Keeps-pure, Keeps-bind}
use dbl_service.Storage.{Tables, Store}
use dbl_service.Storage.Session.{statement, stored, run_unless, update, query, control, transaction}
use dbl_service.Storage.Integrity.{IsConsistent}

abbrev pub IsSound : Store → Type 0
IsSound s = IsConsistent s.tables

module _ {A : Type 0} where
  -- What a statement leaves when it succeeds.
  abbrev pub Leaves : (Tables → Type 0) → Result (A × Tables) → Type 0
  Leaves P (ok (a, t)) = P t
  Leaves P (err e) = Unit

  stored-IsSound :
      (fs : List (Option String)) (t : Tables) (r : Result (A × Tables))
      → IsConsistent t
      → Leaves IsConsistent r
      → IsSound (stored fs t r).1
  stored-IsSound fs t (ok (a, t')) c h = h
  stored-IsSound fs t (err e) c h = c

  run_unless-IsSound :
      (fs : List (Option String)) (t : Tables) (r : Result (A × Tables))
      → IsConsistent t
      → Leaves IsConsistent r
      → IsSound (run_unless fs t r).1
  run_unless-IsSound [] t r c h = stored-IsSound [] t r c h
  run_unless-IsSound (none ∷ fs) t r c h = stored-IsSound fs t r c h
  run_unless-IsSound (some m ∷ fs) t r c h = c

  pub Keeps-statement :
      (f : Tables → Result (A × Tables))
      → ((t : Tables) → IsConsistent t → Leaves IsConsistent (f t))
      → Keeps IsSound (statement f)
  unfolding statement
  Keeps-statement f k = record {
    holds = λ s c. run_unless-IsSound s.faults s.tables (f s.tables) c (k s.tables c);
  }

  pub Keeps-query : (f : Tables → A) → Keeps IsSound (query f)
  Keeps-query f = Keeps-statement (λ t. ok (f t, t)) (λ t c. c)

pub Keeps-update :
    (f : Tables → Tables)
    → ((t : Tables) → IsConsistent t → IsConsistent (f t))
    → Keeps IsSound (update f)
Keeps-update f k = Keeps-statement (λ t. ok (tt, f t)) k

pub Keeps-control : Keeps IsSound control
Keeps-control = Keeps-update (λ t. t) (λ t c. c)

pub Keeps-transaction :
    {A : Type 0} (body : Exec Store A) → Keeps IsSound body → Keeps IsSound (transaction body)
unfolding transaction
Keeps-transaction body k = Keeps-bind IsSound _ control Keeps-control λ _.
    Keeps-bind IsSound _ body k λ a. Keeps-bind IsSound _ control Keeps-control λ _. Keeps-pure a
