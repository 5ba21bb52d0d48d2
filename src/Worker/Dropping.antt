-- ===== src/Worker/Dropping.antt =====
-- What is true of a process that has dropped its privileges.
use dbl_service.Prelude.{
  ℕ, String, Bool, true, false, ◌||◌, Option, none, some, eqb, if◌then◌else◌, ◌≡◌, ◌≢◌, refl, arith,
  ◌∙◌,
}
use dbl_service.Fallible.{Exec, pure, throw, ◌>>=◌}
use dbl_service.Fallible.Triples.{
  Outcome, Triple, Triple-throw, Triple-if, Triple-then, Triple-weaken,
}
use dbl_service.Worker.Privileges.{
  Account, Os, call, must, must_fail, become, become_user, drop_privileges,
}

-- What a Unix system documents of the calls: a call that succeeds sets the effective id of its kind,
-- leaves the other kind, and a refused call changes nothing.
pub record IsUnix {S : Type 0} (os : Os S) (uid gid : S → ℕ) : Type 0 where
  pub setgid_done : (g : ℕ) (s : S) → (os.setgid g s).0 ≡ true → gid (os.setgid g s).1 ≡ g
  pub setegid_done : (g : ℕ) (s : S) → (os.setegid g s).0 ≡ true → gid (os.setegid g s).1 ≡ g
  pub setuid_done : (u : ℕ) (s : S) → (os.setuid u s).0 ≡ true → uid (os.setuid u s).1 ≡ u
  pub seteuid_done : (u : ℕ) (s : S) → (os.seteuid u s).0 ≡ true → uid (os.seteuid u s).1 ≡ u
  pub setuid_gid : (u : ℕ) (s : S) → gid (os.setuid u s).1 ≡ gid s
  pub seteuid_gid : (u : ℕ) (s : S) → gid (os.seteuid u s).1 ≡ gid s
  pub setuid_refused : (u : ℕ) (s : S) → (os.setuid u s).0 ≡ false → (os.setuid u s).1 ≡ s
  pub setgid_refused : (g : ℕ) (s : S) → (os.setgid g s).0 ≡ false → (os.setgid g s).1 ≡ s

abbrev pub IsAny : {S : Type 0} → S → Type 0
IsAny s = Unit {0}

module _ {S : Type 0} (Q : S → Type 0) where
  either :
      (b : Bool) (m n : Exec S (Unit {0})) (s : S)
      → (b ≡ true → Outcome (λ _. Q) IsAny (m s).0 (m s).1)
      → (b ≡ false → Outcome (λ _. Q) IsAny (n s).0 (n s).1)
      → Outcome (λ _. Q) IsAny ((if b then m else n) s).0 ((if b then m else n) s).1
  either true m n s hm hn = hm refl
  either false m n s hm hn = hn refl

  Triple-must :
      (P : S → Type 0) (c : S → Bool × S) (message : String)
      → ((s : S) → P s → (c s).0 ≡ true → Q (c s).1)
      → Triple P (must c message) (λ _. Q) IsAny
  unfolding ◌>>=◌ pure throw
  Triple-must P c message h = record { holds = λ s p. either (c s).0 _ _ (c s).1 (h s p) (λ r. tt) }

  Triple-must_fail :
      (P : S → Type 0) (c : S → Bool × S) (message : String)
      → ((s : S) → P s → (c s).0 ≡ false → Q (c s).1)
      → Triple P (must_fail c message) (λ _. Q) IsAny
  unfolding ◌>>=◌ pure throw
  Triple-must_fail P c message h = record {
    holds = λ s p. either (c s).0 _ _ (c s).1 (λ r. tt) (h s p);
  }

module _ {S : Type 0} (c : S → Bool × S) where
  Triple-call : Triple IsAny (call c) (λ _. IsAny) IsAny
  Triple-call = record { holds = λ s h. tt }

-- The process has the account's ids, which are not the superuser's, and cannot take those again.
abbrev pub IsDropped : {S : Type 0} → Os S → (S → ℕ) → (S → ℕ) → String → S → Type 0
IsDropped {S} os uid gid user s =
    (p : Account) × (os.getpwnam user ≡ some p)
    × (p.uid ≢ 0)
    × (p.gid ≢ 0)
    × (uid s ≡ p.uid)
    × (gid s ≡ p.gid)
    × ((os.setuid 0 s).0 ≡ false)
    × ((os.setgid 0 s).0 ≡ false)

module _ {S : Type 0} (os : Os S) (uid gid : S → ℕ) (unix : IsUnix os uid gid) where
  module _ (p : Account) where
    HasGid : S → Type 0
    HasGid s = gid s ≡ p.gid

    HasIds : S → Type 0
    HasIds s = (uid s ≡ p.uid) × (gid s ≡ p.gid)

    IsRefused : S → Type 0
    IsRefused s = (uid s ≡ p.uid) × (gid s ≡ p.gid) × ((os.setuid 0 s).0 ≡ false)

    HasDropped : S → Type 0
    HasDropped s =
        (uid s ≡ p.uid)
        × (gid s ≡ p.gid)
        × ((os.setuid 0 s).0 ≡ false)
        × ((os.setgid 0 s).0 ≡ false)

    become-HasDropped : Triple IsAny (become os p) (λ _. HasDropped) IsAny
    unfolding become HasGid HasIds IsRefused HasDropped
    become-HasDropped = Triple-then IsAny _ _ (Triple-call os.setgroups) (
        Triple-then HasGid _ _ (Triple-must HasGid _ _ _ (λ s h. unix.setgid_done p.gid s)) (
          Triple-then HasGid _ _ (Triple-must HasGid _ _ _ (λ s h. unix.setegid_done p.gid s)) (
            Triple-then HasGid _ _ (Triple-must HasGid _ _ _ (λ s h d. unix.setuid_gid p.uid s ∙ h))
              (Triple-then HasIds _ _
                (Triple-must HasIds _ _ _
                  (λ s h d. (unix.seteuid_done p.uid s d, unix.seteuid_gid p.uid s ∙ h)))
                (Triple-then IsRefused _ _
                  (Triple-must_fail IsRefused HasIds (os.setuid 0) _
                    (λ s h d. rw (unix.setuid_refused 0 s d) (h.0, h.1, d)))
                  (Triple-must_fail HasDropped IsRefused (os.setgid 0) _
                    (λ s h d. rw (unix.setgid_refused 0 s d) (h.0, h.1, h.2, d))))))))

  not_root : (a b : ℕ) → (eqb a 0 || eqb b 0) ≡ false → (a ≢ 0) × (b ≢ 0)
  not_root a b h = (ground arith, ground arith)

  become_user-IsDropped :
      (user : String) (o : Option Account)
      → os.getpwnam user ≡ o
      → Triple IsAny (become_user os user o) (λ _. IsDropped os uid gid user) IsAny
  unfolding become HasDropped
  become_user-IsDropped user none e = Triple-throw _ (λ s h. tt)
  become_user-IsDropped user (some p) e =
      Triple-if (eqb p.uid 0 || eqb p.gid 0) _ _ (λ r. Triple-throw _ (λ s h. tt))
        (λ r.
          Triple-weaken _
            (λ a s h.
              (p, e, (not_root p.uid p.gid r).0, (not_root p.uid p.gid r).1, h.0, h.1, h.2, h.3))
            (λ s h. h) (become-HasDropped p))

  -- Where drop_privileges returns, the process has the ids of the user's account, none of which is 0,
  -- and the system refuses to set them back to 0.
  pub drop_privileges-IsDropped :
      (user : String)
      → Triple IsAny (drop_privileges os user) (λ _. IsDropped os uid gid user) IsAny
  unfolding drop_privileges HasDropped
  drop_privileges-IsDropped user = become_user-IsDropped user (os.getpwnam user) refl
