-- ===== src/Daemon/Commands.antt =====
-- How many commands the start of the DNS proxy can run.
use dbl_service.Prelude.{
  ℕ, zero, suc, String, Bool, true, false, ◌||◌, List, [], ◌∷◌, if◌then◌else◌, ◌+◌, ◌≤◌, length,
  arith, ◌==◌,
}
use dbl_service.Prelude.Integers.{ℤ, is_positive, equals, is_negative}
use dbl_service.Fallible.{Error, Result, ok, err, Exec, pure, throw, ◌>>=◌, continue}
use dbl_service.Fallible.Results.{lift}
use dbl_service.Daemon.{
  Config, Host, State, succeeded, command, run_first, rc_commands, run_rc, get_pid_of, wait_for_pid,
  start_own_proxy, start_system_proxy, start_dns_proxy,
}

-- The action runs at most so many commands.
record Costs {A : Type 0} (n : ℕ) (m : Exec State A) : Type 0 where
  holds : (s : State) → length (m s).1.commands ≤ length s.commands + n

module _ {A : Type 0} (n : ℕ) where
  Costs-pure : (a : A) → Costs n (pure a)
  unfolding pure
  Costs-pure a = record { holds = λ s. omega arith }

  Costs-throw : (e : Error) → Costs n (throw {A = A} e)
  unfolding throw
  Costs-throw e = record { holds = λ s. omega arith }

  Costs-lift : (r : Result A) → Costs n (lift r)
  unfolding lift
  Costs-lift r = record { holds = λ s. omega arith }

  Costs-if : (b : Bool) (x y : Exec State A) → Costs n x → Costs n y → Costs n (if b then x else y)
  Costs-if true x y h k = h
  Costs-if false x y h k = k

module _ {A B : Type 0} (m n : ℕ) (f : A → Exec State B) where
  resumed :
      (c : ℕ) (r : Result A) (s : State)
      → length s.commands ≤ c + m
      → ((a : A) → Costs n (f a))
      → length (continue r f s).1.commands ≤ c + (m + n)
  resumed c (ok a) s h k = omega (arith, h, (k a).holds s)
  resumed c (err e) s h k = omega (arith, h)

  Costs-bind : (x : Exec State A) → Costs m x → ((a : A) → Costs n (f a)) → Costs (m + n) (x >>= f)
  unfolding ◌>>=◌
  Costs-bind x h k = record {
    holds = λ s. resumed (length s.commands) (x s).0 (x s).1 (h.holds s) k;
  }

Costs-next : {A : Type 0} (n : ℕ) (m : Exec State A) → Costs (1 + n) m → Costs (suc n) m
Costs-next n m h = record { holds = λ s. omega (arith, h.holds s) }

module _ (host : Host) where
  command-Costs : (c : String) → Costs 1 (command host c)
  unfolding command
  command-Costs c = record { holds = λ s. omega arith }

  get_pid_of-Costs : (program : String) → Costs 1 (get_pid_of host program)
  unfolding get_pid_of
  get_pid_of-Costs program = Costs-bind 1 0 _ _ (command-Costs _) (λ o. Costs-pure 0 _)

  run_first-Costs : (cs : List String) → Costs (length cs) (run_first host cs)
  unfolding run_first
  run_first-Costs [] = Costs-pure 0 false
  run_first-Costs (c ∷ cs) = Costs-next (length cs) _ (
      Costs-bind 1 (length cs) _ _ (command-Costs c)
        (λ o. Costs-if (length cs) (succeeded o) _ _ (Costs-pure _ true) (run_first-Costs cs)))

  wait_for_pid-Costs :
      (n : ℕ) (program : String) (pid : ℤ) → Costs n (wait_for_pid host n program pid)
  unfolding wait_for_pid
  wait_for_pid-Costs zero program pid = Costs-pure 0 pid
  wait_for_pid-Costs (suc n) program pid =
      Costs-if (suc n) (is_positive pid) _ _ (Costs-pure (suc n) pid) (
        Costs-next n _
          (Costs-bind 1 n _ _ (get_pid_of-Costs program) (wait_for_pid-Costs n program)))

  module _ (config : Config) where
    start_system_proxy-Costs :
        (program : String) → Costs 37 (start_system_proxy host config program)
    unfolding start_system_proxy run_rc rc_commands
    start_system_proxy-Costs program = Costs-bind 1 36 _ _ (get_pid_of-Costs program) (λ pid.
        Costs-bind 0 36 _ _ (record { holds = λ s. omega arith })
          (λ u.
            Costs-bind 5 31 _ _ (run_first-Costs (rc_commands config.network.dns_proxy "restart"))
              (λ b.
                Costs-if 31 b _ _
                  (Costs-bind 1 30 _ _ (get_pid_of-Costs program) (λ p.
                    Costs-bind 30 0 _ _ (wait_for_pid-Costs 30 program p) (λ q.
                      Costs-if 0 (equals q pid || is_negative q) _ _ (Costs-throw 0 _)
                        (Costs-pure 0 tt))))
                  (Costs-throw 31 _))))

    start_own_proxy-Costs :
        (executable : String) → Costs 37 (start_own_proxy host config executable)
    unfolding start_own_proxy
    start_own_proxy-Costs executable = Costs-if 37 (executable == "") _ _ (Costs-throw 37 _) (
        Costs-bind 1 36 _ _ (command-Costs _)
          (λ o. Costs-if 36 (succeeded o) _ _ (Costs-pure 36 tt) (Costs-throw 36 _)))

    start_dns_proxy-Costs : Costs 37 (start_dns_proxy host config)
    unfolding start_dns_proxy
    start_dns_proxy-Costs =
        Costs-if 37 config.no_system_dns_proxy _ _
          (Costs-bind 0 37 _ _ (Costs-lift 0 _) start_own_proxy-Costs)
          (Costs-bind 0 37 _ _ (Costs-lift 0 _) start_system_proxy-Costs)

    -- The start of the DNS proxy gives up in the end, whatever the commands answer: it runs at most 37
    -- commands.
    pub start_dns_proxy-bounded :
        (s : State) → length (start_dns_proxy host config s).1.commands ≤ length s.commands + 37
    start_dns_proxy-bounded s = start_dns_proxy-Costs.holds s
