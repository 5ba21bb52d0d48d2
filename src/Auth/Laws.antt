-- ===== src/Auth/Laws.antt =====
-- When auth() lets a client in, what set_password() accepts, and what a failing database does to both.
use Prim.Native.String.{◌++◌, len}
use dbl_service.Prelude.{
  String, ◌≡◌, ◌≢◌, ◌↔◌, ◌⊎◌, refl, Bool, true, false, false, Option, none, some, List, [], ◌∷◌,
  arith, ap, ◌&&◌, length, ◌==◌, eq_iff, eqb, eqb_iff, eq_refl, Bool-cases, inl, inr, if◌then◌else◌,
  lookup, put, lookup-put,
}
use dbl_service.Fallible.{ok}
use dbl_service.Storage.{Store, Tables}
use dbl_service.Storage.Session.{healthy}
use dbl_service.Manager.Settings.{or_default}
use dbl_service.Auth.{verdict, auth, set_password}

-- The stored password hash; no row and an empty value both say that there is none.
abbrev pub password : Tables → String
password t = elim (lookup "service_password" t.settings) [ none ↦ "" | some p ↦ p ]

pub or_default-empty : (v : String) → or_default "" v ≡ v
or_default-empty v = ground (arith, eq_iff v "")

-- The next statement fails.
abbrev pub next_fails : List (Option String) → Bool
next_fails [] = false
next_fails (none ∷ fs) = false
next_fails (some message ∷ fs) = true

later : {P : Type 0} (b : Bool) → ((b ≡ true) ↔ P) → (b ≡ true) ↔ ((false ≡ true) ⊎ P)
later b e = ((λ h. inr (e.0 h)), λ s. elim s [ inl h ↦ absurd (cc h) | inr p ↦ e.1 p ])

module _ (md5 : String → String) (token : String) where
  pub auth-healthy :
      (hash : String) (t : Tables)
      → auth md5 token hash (healthy t) ≡ (ok (verdict md5 token (password t) hash), healthy t)
  unfolding auth
  auth-healthy hash t =
      ap (λ p. (ok (verdict md5 token p hash), healthy t)) (or_default-empty (password t))

  -- Who is let in where the password is read.
  abbrev Fits : String → Tables → Type 0
  Fits hash t = (password t ≡ "") ⊎ ((hash ≢ "") × (md5 (password t ++ token) ≡ hash))

  verdict-Fits :
      (hash : String) (t : Tables) → (verdict md5 token (password t) hash ≡ true) ↔ Fits hash t
  verdict-Fits hash t =
      ground
        (arith, eq_iff (password t) "", eq_iff hash "", eq_iff (md5 (password t ++ token)) hash)

  read-healthy :
      (hash : String) (t : Tables) (fs : List (Option String))
      → auth md5 token hash (record { tables = t; faults = none ∷ fs })
        ≡ (ok (verdict md5 token (password t) hash), record { tables = t; faults = fs })
  unfolding auth
  read-healthy hash t fs =
      ap (λ p. (ok (verdict md5 token p hash), record { tables = t; faults = fs }))
        (or_default-empty (password t))

  -- auth() returns, and changes no table. It accepts exactly if its statement fails, whatever the hash and the
  -- message (a password that cannot be read counts as none), no password is set, or the hash is that of
  -- the stored password hash followed by this connection's token, and is not empty.
  pub auth-decides :
      (hash : String) (t : Tables) (fs : List (Option String))
      → let r = auth md5 token hash (record { tables = t; faults = fs }) in
        (b : Bool) × (r.0 ≡ ok b)
        × (r.1.tables ≡ t)
        × ((b ≡ true) ↔ (
            (next_fails fs ≡ true)
            ⊎ ((password t ≡ "") ⊎ ((hash ≢ "") × (md5 (password t ++ token) ≡ hash)))))
  auth-decides hash t [] =
      let own = verdict md5 token (password t) hash in
      (
        own,
        ap (λ r. r.0) (auth-healthy hash t),
        ap (λ r. r.1.tables) (auth-healthy hash t),
        later own (verdict-Fits hash t),
      )
  auth-decides hash t (none ∷ fs) =
      let own = verdict md5 token (password t) hash in
      (
        own,
        ap (λ r. r.0) (read-healthy hash t fs),
        ap (λ r. r.1.tables) (read-healthy hash t fs),
        later own (verdict-Fits hash t),
      )
  auth-decides hash t (some m ∷ fs) =
      (true, unfold auth in refl, unfold auth in refl, ((λ e. inl refl), (λ f. refl)))

nonempty : (hash : String) → len hash ≡ 32 → (hash == "") ≡ false
nonempty hash h = elim (Bool-cases (hash == "")) [
  | inl e ↦ absurd (omega (arith, h, ap len ((eq_iff hash "").0 e)))
  | inr e ↦ e
]

abbrev pub with_password : String → Tables → Tables
with_password hash t = record t { settings = put "service_password" hash t.settings }

pub password-with_password : (hash : String) (t : Tables) → password (with_password hash t) ≡ hash
password-with_password hash t = ground (
  arith,
  lookup-put "service_password" "service_password" hash t.settings,
  eq_refl "service_password",
)

module _ (md5 : String → String) (token : String) where
  -- A text of 32 characters is stored if its hash with the token is the second text.
  set_password_accepts :
      (hash hashed_token : String) (t : Tables)
      → (len hash ≡ 32) × (md5 (hash ++ token) ≡ hashed_token)
      → set_password md5 token hash hashed_token (healthy t)
        ≡ (ok (true, []), healthy (with_password hash t))
  unfolding set_password
  set_password_accepts hash hashed_token t (n, h) =
      ground
        (arith, nonempty hash n, eqb_iff (len hash) 32, eq_iff (md5 (hash ++ token)) hashed_token)

  -- Any other pair of texts is refused with one error, and the database stays as it was, also if it
  -- would fail.
  set_password_refuses :
      (hash hashed_token : String) (s : Store)
      → ¬ ((len hash ≡ 32) × (md5 (hash ++ token) ≡ hashed_token))
      → (e : String) × (set_password md5 token hash hashed_token s ≡ (ok (false, e ∷ []), s))
  unfolding set_password
  set_password_refuses hash hashed_token s h = elim (Bool-cases (hash == "")) [
    | inl e ↦ ("Cannot set empty password", rw e)
    | inr e ↦ elim (Bool-cases (eqb (len hash) 32)) [
      | inr n ↦ ("Password must be a md5 hash", rw (e, n))
      | inl n ↦ elim (Bool-cases (md5 (hash ++ token) == hashed_token)) [
        | inr d ↦ ("Token hashed with different password", rw (e, n, d))
        | inl d ↦ absurd (h ((eqb_iff (len hash) 32).0 n, (eq_iff _ _).0 d))
      ]
    ]
  ]

  -- Whether the first text has 32 characters, and its hash with the token is the second one.
  abbrev pub is_acceptable : String → String → Bool
  is_acceptable hash hashed_token = eqb (len hash) 32 && (md5 (hash ++ token) == hashed_token)

  -- The tables that set_password() leaves.
  abbrev pub changed : String → String → Tables → Tables
  changed hash hashed_token t = if is_acceptable hash hashed_token then with_password hash t else t

  -- Who is let in afterwards, with a token.
  abbrev pub lets_in : String → String → Tables → String → String → Bool
  lets_in hash hashed_token t token' h =
      if is_acceptable hash hashed_token
      then (if h == "" then false else md5 (hash ++ token') == h)
      else verdict md5 token' (password t) h

  auth-changed :
      (hash hashed_token : String) (t : Tables) (token' h : String)
      → auth md5 token' h (healthy (changed hash hashed_token t))
        ≡ (ok (lets_in hash hashed_token t token' h), healthy (changed hash hashed_token t))
  auth-changed hash hashed_token t token' h =
      rw (auth-healthy md5 token' h (changed hash hashed_token t))
        (elim (Bool-cases (is_acceptable hash hashed_token)) [
          | inr e ↦ rw e refl
          | inl e ↦
              let full = nonempty hash (ground (arith, e, eqb_iff (len hash) 32)) in
              rw e (rw (password-with_password hash t, full) refl)
        ])

  -- set_password() on a database that answers returns true, and no errors, exactly for a text of 32
  -- characters whose hash with the token is the second text, and else one error. If it is accepted, auth()
  -- on any connection accepts from then on exactly the hash of that text with the connection's own token;
  -- if not, the tables stay as they were. The lists and domains stay in any case.
  pub set_password-decides :
      (hash hashed_token : String) (t : Tables)
      → let valid = is_acceptable hash hashed_token in
        let t' = changed hash hashed_token t in
        (es : List String) × (set_password md5 token hash hashed_token (healthy t)
          ≡ (ok (valid, es), healthy t'))
        × (length es ≡ (if valid then 0 else 1))
        × ((token' h : String)
            → auth md5 token' h (healthy t')
              ≡ (ok (lets_in hash hashed_token t token' h), healthy t'))
        × (t'.lists ≡ t.lists)
        × (t'.domains ≡ t.domains)
  set_password-decides hash hashed_token t = elim (Bool-cases (is_acceptable hash hashed_token)) [
    | inl e ↦
        let fit : (len hash ≡ 32) × (md5 (hash ++ token) ≡ hashed_token) =
          ground (arith, e, eqb_iff (len hash) 32, eq_iff (md5 (hash ++ token)) hashed_token) in
        (
          [],
          rw e (set_password_accepts hash hashed_token t fit),
          rw e refl,
          auth-changed hash hashed_token t,
          rw e refl,
          rw e refl,
        )
    | inr e ↦
        let (x, refused) =
          set_password_refuses hash hashed_token (healthy t)
            (ground (arith, e, eqb_iff (len hash) 32, eq_iff (md5 (hash ++ token)) hashed_token)) in
        (x ∷ [], rw e refused, rw e refl, auth-changed hash hashed_token t, rw e refl, rw e refl)
  ]
