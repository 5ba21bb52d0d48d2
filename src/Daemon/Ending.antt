-- ===== src/Daemon/Ending.antt =====
-- What the master leaves behind, and when it lets the program start again.
use dbl_service.Prelude.{
  ℕ, String, Bool, false, ◌||◌, ◌&&◌, not, true, none, some, without, Bool-cases, inl, inr, List,
  [], ◌∷◌, if◌then◌else◌, ◌+◌, ◌≡◌, refl, any, lookup, lookup-without, eq_refl, arith,
}
use dbl_service.Fallible.{ok, Exec, pure, try_catch, ◌>>=◌, ◌>>◌}
use dbl_service.Fallible.Triples.{Triple, Triple-then}
use dbl_service.Daemon.{
  Config, Host, State, Signal, WaitStatus, change, catch_signals, save_pidfile, remove_pidfile,
  remove_config, start_dns_proxy, stop_dns_proxy, command, run_first, run_rc, rc_commands,
}
use dbl_service.Daemon.Processes.{judge, start_up, process_master}
use dbl_service.Daemon.Starting.{start_dns_proxy-Catchable, start_dns_proxy-Keeps}
use dbl_service.Daemon.Returns.{
  Has, has_started, is_exit, has_crashed, posts, Ends, caught, catch_signals-Has, judge-Has,
  Ends-next, Ends-then, Never, returned, Triple-Ends,
}

module _ (host : Host) (config : Config) where
  run_first-Ends :
      (e : Bool) (n : ℕ) (cs : List String) (s : State) → Has e n s → Ends e n (run_first host cs s)
  unfolding run_first Ends pure ◌>>=◌ command
  run_first-Ends e n [] s h = (false, refl, h.0, h.1)
  run_first-Ends e n (c ∷ cs) s h =
      let u = record s { commands = c ∷ s.commands } in
      Ends-next e n (host.shell s.commands c) (run_first host cs) u h (run_first-Ends e n cs u h)

  remove_config-Has :
      (e : Bool) (n : ℕ) (s : State) → Has e n s → Has e n (remove_config host config s)
  unfolding remove_config
  remove_config-Has e n s h = (ground (arith, h.0), ground (arith, h.1))

  stop_dns_proxy-Ends :
      (e : Bool) (n : ℕ) (s : State) → Has e n s → Ends e n (stop_dns_proxy host config s)
  unfolding stop_dns_proxy run_rc ◌>>=◌
  stop_dns_proxy-Ends e n s h =
      let action = if s.system_proxy_was_running then "restart" else "stop" in
      Ends-then e n
        (run_first host (rc_commands config.network.dns_proxy action) (remove_config host config s))
        (run_first-Ends e n (rc_commands config.network.dns_proxy action)
          (remove_config host config s) (remove_config-Has e n s h))

  start_up-Ends :
      (s : State)
      → Ends
          (s.signaled_exit || not (has_started (start_dns_proxy host config s).0))
          (posts (has_started (start_dns_proxy host config s).0) s.semaphore)
          (start_up host config s)
  unfolding start_up try_catch ◌>>=◌
  start_up-Ends s =
      let (r, u) = start_dns_proxy host config s in
      caught s.signaled_exit s.semaphore r u ((start_dns_proxy-Catchable host config).holds s) (
        (start_dns_proxy-Keeps {P = Has s.signaled_exit s.semaphore} (λ v cs b h. h) host
            config).holds
          s (refl, refl))

  -- There is a pid file.
  abbrev pub has_pidfile : State → Bool
  has_pidfile s = elim (lookup config.service_pidfile s.files) [ none ↦ false | some pid ↦ true ]

  HasEnded : Bool → ℕ → State → Type 0
  HasEnded e n s = ((host.unlinks config.service_pidfile && has_pidfile s) ≡ false) × Has e n s

  remove_pidfile-removes :
      (s : State)
      → (host.unlinks config.service_pidfile && has_pidfile (remove_pidfile host config s)) ≡ false
  unfolding remove_pidfile
  remove_pidfile-removes s = elim (Bool-cases (host.unlinks config.service_pidfile)) [
    | inr e ↦ rw e refl
    | inl e ↦
        let gone : lookup config.service_pidfile (without config.service_pidfile s.files) ≡ none =
          ground (
            arith,
            lookup-without config.service_pidfile config.service_pidfile s.files,
            eq_refl config.service_pidfile,
          ) in
        rw (e, has_pidfile) (rw gone refl)
  ]

  remove_pidfile-Has :
      (e : Bool) (n : ℕ) (s : State) → Has e n s → Has e n (remove_pidfile host config s)
  unfolding remove_pidfile
  remove_pidfile-Has e n s h = (ground (arith, h.0), ground (arith, h.1))

  -- What the master does once the pid file is written.
  after_saving : List Signal → WaitStatus → Exec State (Unit {0})
  after_saving signals status = do
    start_up host config
    change (catch_signals signals)
    change (judge status)
    stop_dns_proxy host config
    change (remove_pidfile host config)

  after_saving-Triple :
      (signals : List Signal) (status : WaitStatus) (u : State)
      → Triple
          (λ s. s ≡ u)
          (after_saving signals status)
          (λ _.
            HasEnded
              (((u.signaled_exit || not (has_started (start_dns_proxy host config u).0))
                  || any is_exit signals)
                || has_crashed status)
              (posts (has_started (start_dns_proxy host config u).0) u.semaphore))
          Never
  unfolding after_saving HasEnded
  after_saving-Triple signals status u =
      let started = has_started (start_dns_proxy host config u).0 in
      let n = posts started u.semaphore in
      let e = u.signaled_exit || not started in
      let f = e || any is_exit signals in
      let g = f || has_crashed status in
      Triple-then (Has e n) _ _ (Triple-Ends e n _ (λ s h. rw h (start_up-Ends u))) (
        Triple-then (Has f n) _ _ (record { holds = λ s h. catch_signals-Has e n signals s h })
          (Triple-then (Has g n) _ _ (record { holds = λ s h. judge-Has f n status s h })
            (Triple-then (Has g n) _ _ (Triple-Ends g n _ (stop_dns_proxy-Ends g n))
              (record { holds = λ s h. (remove_pidfile-removes s, remove_pidfile-Has g n s h) }))))

  -- Once the pid file is written, the master always returns, whatever the commands do, whatever
  -- signals come and however the worker ends. It leaves no pid file, unless unlink() cannot remove it. It has released the worker exactly if
  -- the DNS proxy was started; and the program is kept from starting again exactly if that was set before, or
  -- the DNS proxy was not started, or SIGINT or SIGTERM came, or the worker was killed by another signal.
  pub process_master-ends :
      (signals : List Signal) (status : WaitStatus) (s u : State)
      → save_pidfile host config s ≡ (ok tt, u)
      → ((process_master host config signals status s).0 ≡ ok tt)
        × ((host.unlinks config.service_pidfile
              && has_pidfile (process_master host config signals status s).1)
            ≡ false)
        × ((process_master host config signals status s).1.semaphore ≡ (
            if has_started (start_dns_proxy host config u).0 then u.semaphore + 1 else u.semaphore))
        × ((process_master host config signals status s).1.signaled_exit ≡ (
            ((u.signaled_exit || not (has_started (start_dns_proxy host config u).0))
              || any is_exit signals)
            || has_crashed status))
  unfolding process_master after_saving HasEnded ◌>>=◌
  process_master-ends signals status s u saved =
      let (r, q) = returned _ _ _ ((after_saving-Triple signals status u).holds u refl) in
      rw saved (r, q.0, q.1.1, q.1.0)
