-- ===== src/Service/Reads.antt =====
-- What a query of src/dbl/db/db.cxx, and a step of a handler that only reads, leave of a state.
use dbl_service.Prelude.{String, ◌≡◌, refl, Option, none, some, List, [], ◌∷◌, ◌∙◌}
use dbl_service.Fallible.{Result, ok}
use dbl_service.Fallible.Keeps.{Keeps}
use dbl_service.Fallible.Results.{lift}
use dbl_service.Storage.{Tables}
use dbl_service.Storage.Session.{statement, query, run_unless, healthy}

module _ {A : Type 0} where
  query_tables :
      (fs : List (Option String)) (t : Tables) (a : A) → (run_unless fs t (ok (a, t))).1.tables ≡ t
  query_tables [] t a = refl
  query_tables (none ∷ fs) t a = refl
  query_tables (some m ∷ fs) t a = refl

  query-healthy : (t : Tables) (f : Tables → A) → (query f (healthy t)).1 ≡ healthy t
  unfolding statement
  query-healthy t f = refl

  -- A query leaves the tables alone, whether it fails or not, and uses up no fault where there is none.
  pub Keeps-query_tables : (t : Tables) (f : Tables → A) → Keeps (λ s. s.tables ≡ t) (query f)
  unfolding statement
  Keeps-query_tables t f = record { holds = λ s e. query_tables s.faults s.tables (f s.tables) ∙ e }

  pub Keeps-query-healthy : (t : Tables) (f : Tables → A) → Keeps (λ s. s ≡ healthy t) (query f)
  Keeps-query-healthy t f = record { holds = λ s e. rw e (query-healthy t f) }

module _ {S A : Type 0} (P : S → Type 0) where
  pub Keeps-lift : (r : Result A) → Keeps P (lift r)
  unfolding lift
  Keeps-lift r = record { holds = λ s p. p }
