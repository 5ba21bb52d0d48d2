-- ===== src/Daemon/Starting.antt =====
-- What the start of the DNS proxy throws is caught by the master, and neither it nor a command changes
-- signaled_exit or the semaphore.
use dbl_service.Prelude.{
  ℕ, zero, suc, String, Bool, true, false, ◌||◌, List, [], ◌∷◌, if◌then◌else◌, ◌≡◌, refl, ◌==◌,
  arith,
}
use dbl_service.Prelude.Integers.{ℤ, is_positive, equals, is_negative}
use dbl_service.Fallible.{
  runtime_error, operation_error, logic_error, null_pointer, Result, ok, err, Exec, pure, throw,
  ◌>>=◌, continue,
}
use dbl_service.Fallible.Keeps.{Keeps, Keeps-pure, Keeps-throw, Keeps-if, Keeps-bind, Keeps-then}
use dbl_service.Fallible.Results.{lift}
use dbl_service.Network.{get_proxy_executable_name, find_proxy_executable}
use dbl_service.Daemon.{
  Config, Host, State, change, start_dns_proxy, command, succeeded, rc_commands, run_first, run_rc,
  get_pid_of, wait_for_pid, start_own_proxy, start_system_proxy,
}

-- The action returns, or throws what `catch(const std::runtime_error&)` catches.
abbrev pub is_caught : {A : Type 0} → Result A → Bool
is_caught (ok a) = true
is_caught (err null_pointer) = false
is_caught (err (logic_error m)) = false
is_caught (err e) = true

pub record Catchable {A : Type 0} (m : Exec State A) : Type 0 where
  pub holds : (s : State) → is_caught (m s).0 ≡ true

module _ {A : Type 0} where
  Catchable-pure : (a : A) → Catchable (pure a)
  unfolding pure
  Catchable-pure a = record { holds = λ s. refl }

  Catchable-throw : (message : String) → Catchable (throw {A = A} (runtime_error message))
  unfolding throw
  Catchable-throw message = record { holds = λ s. refl }

  Catchable-if :
      (b : Bool) (m n : Exec State A) → Catchable m → Catchable n → Catchable (if b then m else n)
  Catchable-if true m n h k = h
  Catchable-if false m n h k = k

resumed :
    {A B : Type 0} (f : A → Exec State B) (r : Result A) (s : State)
    → is_caught r ≡ true
    → ((a : A) → Catchable (f a))
    → is_caught (continue r f s).0 ≡ true
resumed f (ok a) s c h = (h a).holds s
resumed f (err (runtime_error m)) s c h = refl
resumed f (err (operation_error m es)) s c h = refl
resumed f (err null_pointer) s c h = c
resumed f (err (logic_error m)) s c h = c

Catchable-bind :
    {A B : Type 0} (m : Exec State A) (f : A → Exec State B)
    → Catchable m
    → ((a : A) → Catchable (f a))
    → Catchable (m >>= f)
unfolding ◌>>=◌
Catchable-bind m f h k = record { holds = λ s. resumed f (m s).0 (m s).1 (h.holds s) k }

Catchable-change : (f : State → State) → Catchable (change f)
Catchable-change f = record { holds = λ s. refl }

ruleset catchable_rules =
    (Catchable-pure, Catchable-throw, Catchable-if, Catchable-bind, Catchable-change)

module _ (host : Host) where
  command-Catchable : (c : String) → Catchable (command host c)
  unfolding command
  command-Catchable c = record { holds = λ s. refl }

  run_first-Catchable : (cs : List String) → Catchable (run_first host cs)
  unfolding run_first
  run_first-Catchable [] = Catchable-pure false
  run_first-Catchable (c ∷ cs) =
      Catchable-bind _ _ (command-Catchable c)
        (λ o. Catchable-if (succeeded o) _ _ (Catchable-pure true) (run_first-Catchable cs))

  get_pid_of-Catchable : (program : String) → Catchable (get_pid_of host program)
  unfolding get_pid_of
  get_pid_of-Catchable program = search (catchable_rules, command-Catchable)

  wait_for_pid-Catchable :
      (n : ℕ) (program : String) (pid : ℤ) → Catchable (wait_for_pid host n program pid)
  unfolding wait_for_pid
  wait_for_pid-Catchable zero program pid = Catchable-pure pid
  wait_for_pid-Catchable (suc n) program pid =
      search (catchable_rules, get_pid_of-Catchable, wait_for_pid-Catchable n)

  module _ (config : Config) where
    run_rc-Catchable : (action : String) → Catchable (run_rc host config action)
    unfolding run_rc
    run_rc-Catchable action = run_first-Catchable (rc_commands config.network.dns_proxy action)

    start_system_proxy-Catchable :
        (program : String) → Catchable (start_system_proxy host config program)
    unfolding start_system_proxy
    start_system_proxy-Catchable program =
        search (catchable_rules, get_pid_of-Catchable, wait_for_pid-Catchable, run_rc-Catchable)
          depth 12

    start_own_proxy-Catchable :
        (executable : String) → Catchable (start_own_proxy host config executable)
    unfolding start_own_proxy
    start_own_proxy-Catchable executable = search (catchable_rules, command-Catchable)

    name-Catchable : Catchable (lift (get_proxy_executable_name config.network))
    unfolding lift get_proxy_executable_name
    name-Catchable = record { holds = λ s. ground arith }

    executable-Catchable :
        Catchable (lift (find_proxy_executable config.network host.is_executable))
    unfolding lift find_proxy_executable get_proxy_executable_name
    executable-Catchable = record { holds = λ s. ground arith }

    pub start_dns_proxy-Catchable : Catchable (start_dns_proxy host config)
    unfolding start_dns_proxy
    start_dns_proxy-Catchable =
        Catchable-if config.no_system_dns_proxy _ _
          (Catchable-bind _ _ executable-Catchable start_own_proxy-Catchable)
          (Catchable-bind _ _ name-Catchable start_system_proxy-Catchable)

-- A condition on what a command leaves alone.
module _ {P : State → Type 0}
    (aside : (s : State) (cs : List String) (b : Bool)
      → P s
      → P (record s { commands = cs; system_proxy_was_running = b }))
    (host : Host) where
  command-Keeps : (c : String) → Keeps P (command host c)
  unfolding command
  command-Keeps c = record { holds = λ s. aside s (c ∷ s.commands) s.system_proxy_was_running }

  run_first-Keeps : (cs : List String) → Keeps P (run_first host cs)
  unfolding run_first
  run_first-Keeps [] = Keeps-pure false
  run_first-Keeps (c ∷ cs) =
      Keeps-bind P _ _ (command-Keeps c)
        (λ o. Keeps-if (succeeded o) _ _ (Keeps-pure true) (run_first-Keeps cs))

  get_pid_of-Keeps : (program : String) → Keeps P (get_pid_of host program)
  unfolding get_pid_of
  get_pid_of-Keeps program = Keeps-bind P _ _ (command-Keeps _) (λ o. Keeps-pure _)

  wait_for_pid-Keeps :
      (n : ℕ) (program : String) (pid : ℤ) → Keeps P (wait_for_pid host n program pid)
  unfolding wait_for_pid
  wait_for_pid-Keeps zero program pid = Keeps-pure pid
  wait_for_pid-Keeps (suc n) program pid =
      Keeps-if (is_positive pid) _ _ (Keeps-pure pid)
        (Keeps-bind P _ _ (get_pid_of-Keeps program) (wait_for_pid-Keeps n program))

  module _ (config : Config) where
    run_rc-Keeps : (action : String) → Keeps P (run_rc host config action)
    unfolding run_rc
    run_rc-Keeps action = run_first-Keeps (rc_commands config.network.dns_proxy action)

    start_system_proxy-Keeps : (program : String) → Keeps P (start_system_proxy host config program)
    unfolding start_system_proxy
    start_system_proxy-Keeps program = Keeps-bind P _ _ (get_pid_of-Keeps program) (λ pid.
        Keeps-then P _ _ (record { holds = λ s. aside s s.commands (is_positive pid) })
          (Keeps-bind P _ _ (run_rc-Keeps "restart") (λ b.
            Keeps-if b _ _
              (Keeps-bind P _ _ (get_pid_of-Keeps program) (λ p.
                Keeps-bind P _ _ (wait_for_pid-Keeps 30 program p) (λ q.
                  Keeps-if (equals q pid || is_negative q) _ _ (Keeps-throw _) (Keeps-pure tt))))
              (Keeps-throw _))))

    start_own_proxy-Keeps : (executable : String) → Keeps P (start_own_proxy host config executable)
    unfolding start_own_proxy
    start_own_proxy-Keeps executable = Keeps-if (executable == "") _ _ (Keeps-throw _) (
        Keeps-bind P _ _ (command-Keeps _)
          (λ o. Keeps-if (succeeded o) _ _ (Keeps-pure tt) (Keeps-throw _)))

    lift-Keeps : {A : Type 0} (r : Result A) → Keeps P (lift r)
    unfolding lift
    lift-Keeps r = record { holds = λ s p. p }

    pub start_dns_proxy-Keeps : Keeps P (start_dns_proxy host config)
    unfolding start_dns_proxy
    start_dns_proxy-Keeps =
        Keeps-if config.no_system_dns_proxy _ _
          (Keeps-bind P _ _ (lift-Keeps _) start_own_proxy-Keeps)
          (Keeps-bind P _ _ (lift-Keeps _) start_system_proxy-Keeps)
