-- ===== src/Validator.antt =====
-- src/dbl/validator/domain.cxx. `getaddrinfo` is the C library's: its outcome for a name is a parameter.
use dbl_service.Prelude.{String, Bool, true, false, List, [], ◌∷◌}

-- 0, EAI_SYSTEM with the text of errno, or another code with its gai_strerror() text
pub data Resolution : Type 0 where
  resolved : Resolution
  system_error : String → Resolution
  resolver_error : String → Resolution

unfoldable pub errors_of : Resolution → List String
errors_of resolved = []
errors_of (system_error text) = text ∷ []
errors_of (resolver_error text) = text ∷ []

abbrev pub is_empty {ℓ} : {A : Type ℓ} → List A → Bool
is_empty [] = true
is_empty (x ∷ xs) = false

module _ (getaddrinfo : String → Resolution) where
  -- is_valid(name, errors): the verdict and the errors
  unfoldable pub is_valid : String → Bool × List String
  unfolding errors_of
  is_valid name = let errors = errors_of (getaddrinfo name) in (is_empty errors, errors)
