-- ===== src/Daemon/Returns.antt =====
-- Actions of the master that always return, and what they do to signaled_exit and to the semaphore.
use dbl_service.Prelude.{
  ℕ, String, Bool, true, false, ◌||◌, not, Option, none, some, List, [], ◌∷◌, if◌then◌else◌, ◌+◌,
  ◌≡◌, refl, any, arith,
}
use dbl_service.Fallible.{
  runtime_error, operation_error, logic_error, null_pointer, Result, ok, err, Exec, pure, handle,
  continue,
}
use dbl_service.Fallible.Triples.{Outcome, Triple}
use dbl_service.Daemon.{
  State, Signal, sighup, sigint, sigterm, other, WaitStatus, failed, exited, killed, change, stop,
  catch_signals, succeeded,
}
use dbl_service.Daemon.Processes.{is_crash, judge}
use dbl_service.Daemon.Starting.{is_caught}

-- The flag against a restart, and the semaphore that lets the worker start.
abbrev pub Has : Bool → ℕ → State → Type 0
Has e n s = (s.signaled_exit ≡ e) × (s.semaphore ≡ n)

abbrev pub has_started : Result (Unit {0}) → Bool
has_started (ok a) = true
has_started (err e) = false

-- A signal that ends the program.
abbrev pub is_exit : Signal → Bool
is_exit sigint = true
is_exit sigterm = true
is_exit sig = false

abbrev pub has_crashed : WaitStatus → Bool
has_crashed (killed sig) = is_crash sig
has_crashed w = false

abbrev pub posts : Bool → ℕ → ℕ
posts b n = if b then n + 1 else n

-- The action returns, in a state with these two.
unfoldable pub Ends : {A : Type 0} → Bool → ℕ → Result A × State → Type 0
Ends {A} e n w = (a : A) × (w.0 ≡ ok a) × (w.1.signaled_exit ≡ e) × (w.1.semaphore ≡ n)

pub caught :
    (e : Bool) (n : ℕ) (r : Result (Unit {0})) (s : State)
    → is_caught r ≡ true
    → Has e n s
    → Ends (e || not (has_started r)) (posts (has_started r) n) (
        handle
          (continue r (λ _. change (λ s. record s { semaphore = s.semaphore + 1 })) s).0
          (λ e. change (λ s. stop (record s { signaled_exit = true })))
          (continue r (λ _. change (λ s. record s { semaphore = s.semaphore + 1 })) s).1)
unfolding Ends stop
caught e n (ok a) s c h = (tt, refl, ground (arith, h.0), rw h.1 refl)
caught e n (err (runtime_error m)) s c h = (tt, refl, ground arith, h.1)
caught e n (err (operation_error m es)) s c h = (tt, refl, ground arith, h.1)
caught e n (err null_pointer) s c h = ground (arith, c)
caught e n (err (logic_error m)) s c h = ground (arith, c)

pub catch_signals-Has :
    (e : Bool) (n : ℕ) (xs : List Signal) (s : State)
    → Has e n s
    → Has (e || any is_exit xs) n (catch_signals xs s)
unfolding catch_signals any stop
catch_signals-Has e n [] s h = (ground (arith, h.0), h.1)
catch_signals-Has e n (sighup ∷ xs) s h = catch_signals-Has e n xs _ h
catch_signals-Has e n (sigint ∷ xs) s h =
    let (a, b) =
      catch_signals-Has true n xs (stop (record s { signaled_exit = true })) (refl, h.1) in
    (ground (arith, a), b)
catch_signals-Has e n (sigterm ∷ xs) s h =
    let (a, b) =
      catch_signals-Has true n xs (stop (record s { signaled_exit = true })) (refl, h.1) in
    (ground (arith, a), b)
catch_signals-Has e n (other m ∷ xs) s h = catch_signals-Has e n xs _ h

pub judge-Has :
    (e : Bool) (n : ℕ) (w : WaitStatus) (s : State)
    → Has e n s
    → Has (e || has_crashed w) n (judge w s)
unfolding judge
judge-Has e n failed s h = (ground (arith, h.0), h.1)
judge-Has e n (exited m) s h = (ground (arith, h.0), h.1)
judge-Has e n (killed sig) s h = (ground (arith, h.0), ground (arith, h.1))

pub Ends-next :
    (e : Bool) (n : ℕ) (o : Option String) (m : Exec State Bool) (u : State)
    → Has e n u
    → Ends e n (m u)
    → Ends e n ((if succeeded o then pure true else m) u)
unfolding Ends pure
Ends-next e n none m u k r = r
Ends-next e n (some output) m u k r = (true, refl, k.0, k.1)

-- The action's own value does not matter to what follows it.
pub Ends-then :
    {A : Type 0} (e : Bool) (n : ℕ) (w : Result A × State)
    → Ends e n w
    → Ends e n (continue w.0 (λ a. pure tt) w.1)
unfolding Ends pure
Ends-then e n (r, u) (a, p, q, t) = rw p (tt, refl, q, t)

-- A throw that cannot be.
abbrev pub Never : State → Type 0
Never s = false ≡ true

module _ {A : Type 0} (e : Bool) (n : ℕ) where
  ended : (w : Result A × State) → Ends e n w → Outcome (λ _. Has e n) Never w.0 w.1
  unfolding Ends
  ended (ok a, u) (b, p, h, k) = (h, k)
  ended (err x, u) (b, p, h, k) = cc

  pub Triple-Ends :
      {P : State → Type 0} (m : Exec State A)
      → ((s : State) → P s → Ends e n (m s))
      → Triple P m (λ _. Has e n) Never
  Triple-Ends m h = record { holds = λ s p. ended (m s) (h s p) }

pub returned :
    (Q : State → Type 0) (r : Result (Unit {0})) (s : State)
    → Outcome (λ _. Q) Never r s
    → (r ≡ ok tt) × Q s
returned Q (ok a) s q = (refl, q)
returned Q (err x) s q = ground (arith, q)
