-- ===== src/Auth.antt =====
-- src/dbl/auth/auth.cxx. The token is the random UUID that the constructor draws for a connection; the
-- hash is dbl::crypto::md5.
pub mod Laws
use Prim.Native.String.{◌++◌, len}
use dbl_service.Prelude.{String, Bool, true, false, List, [], ◌∷◌, ◌==◌, eqb, if◌then◌else◌}
use dbl_service.Fallible.{Exec, pure, ◌>>=◌}
use dbl_service.Storage.{Store}
use dbl_service.Manager.Settings

module _ (md5 : String → String) (token : String) where
  -- What auth() answers for the stored password hash.
  abbrev pub verdict : String → String → Bool
  verdict passwd hash =
      if passwd == "" then true else if hash == "" then false else md5 (passwd ++ token) == hash

  unfoldable pub auth : String → Exec Store Bool
  unfolding ◌>>=◌ Settings.get
  auth hash = do passwd ← Settings.get "service_password" ""; pure (verdict passwd hash)

  -- The result, and the errors that are pushed.
  unfoldable pub set_password : String → String → Exec Store (Bool × List String)
  unfolding ◌>>=◌ Settings.set
  set_password passwd_hash hashed_token =
      if passwd_hash == ""
      then pure (false, "Cannot set empty password" ∷ [])
      else if eqb (len passwd_hash) 32
      then (if md5 (passwd_hash ++ token) == hashed_token
          then (do success ← Settings.set "service_password" passwd_hash; pure (success, []))
          else pure (false, "Token hashed with different password" ∷ []))
      else pure (false, "Password must be a md5 hash" ∷ [])

unfoldable pub remove_password : Exec Store Bool
unfolding Settings.remove
remove_password = Settings.remove "service_password"
