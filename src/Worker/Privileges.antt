-- ===== src/Worker/Privileges.antt =====
-- src/dbl/service/worker/unix.cxx: dropping the privileges. The calls of the operating system are a
-- parameter, over what it keeps of the process; a call says whether it returned 0.
use Prim.Native.String.{◌++◌}
use dbl_service.Prelude.{ℕ, String, Bool, ◌||◌, Option, none, some, eqb, if◌then◌else◌}
use dbl_service.Fallible.{ok, runtime_error, Exec, pure, throw, ◌>>=◌, ◌>>◌}

-- struct passwd: pw_uid and pw_gid
pub record Account : Type 0 where
  pub uid : ℕ
  pub gid : ℕ

pub record Os (S : Type 0) : Type 0 where
  pub getpwnam : String → Option Account
  pub setgroups : S → Bool × S
  pub setgid : ℕ → S → Bool × S
  pub setegid : ℕ → S → Bool × S
  pub setuid : ℕ → S → Bool × S
  pub seteuid : ℕ → S → Bool × S

module _ {S : Type 0} where
  abbrev pub call : (S → Bool × S) → Exec S Bool
  call c s = let (done, s') = c s in (ok done, s')

  -- if(c != 0) throw
  abbrev pub must : (S → Bool × S) → String → Exec S (Unit {0})
  must c message = do done ← call c; if done then pure tt else throw (runtime_error message)

  -- if(c == 0) throw
  abbrev pub must_fail : (S → Bool × S) → String → Exec S (Unit {0})
  must_fail c message = do done ← call c; if done then throw (runtime_error message) else pure tt

  -- The calls, for an account that is not the superuser's.
  unfoldable pub become : Os S → Account → Exec S (Unit {0})
  become os p = do
    ignored ← call os.setgroups
    must (os.setgid p.gid) "Cannot drop privileges (setgid() failed)"
    must (os.setegid p.gid) "Cannot drop privileges (setegid() failed)"
    must (os.setuid p.uid) "Cannot drop privileges (setuid() failed)"
    must (os.seteuid p.uid) "Cannot drop privileges (seteuid() failed)"
    must_fail (os.setuid 0) "Dropping privileges failed"
    must_fail (os.setgid 0) "Dropping privileges failed"

  abbrev pub become_user : Os S → String → Option Account → Exec S (Unit {0})
  unfolding become
  become_user os user none = throw (runtime_error ("Invalid user: " ++ user))
  become_user os user (some p) =
      if eqb p.uid 0 || eqb p.gid 0
      then throw (runtime_error ("Not an unprivileged user: " ++ user))
      else become os p

  unfoldable pub drop_privileges : Os S → String → Exec S (Unit {0})
  unfolding become
  drop_privileges os user = become_user os user (os.getpwnam user)
