-- ===== src/Qemu/Running.antt =====
-- `Qemu.is_running`.
use fc_qemu.Base.{
  ◌≡◌, Bool, true, false, Option, none, some, arith, ◌*◌, Result, ok, err, stuck,
  vm_state_inconsistent,
}
use fc_qemu.World.{
  Env, World, calls, Action, raise, pure, option, Ends, Triple, Ends-last, Triple-bind,
}
use fc_qemu.Timeout.{time_out, fuel_for, second}
use fc_qemu.Timeout.Rules.{OptionPost, Triple-ticking}
use fc_qemu.Qemu.{qmp, process_exists, ask_monitor, check_running, is_running, verdict}
use fc_qemu.Qemu.Belief.{belief, SeenOff, SeenOn}

module _ (env : Env) where
  -- What an answer rests on.
  abbrev pub Shows : Option Bool → World → Type 0
  Shows none w = Unit
  Shows (some true) w = SeenOn w.trace
  Shows (some false) w = SeenOff w.trace

  abbrev pub True : World → Type 0
  True w = Unit

  -- The process was looked at just now, and the monitor not since then.
  abbrev Looked : Bool → World → Type 0
  Looked b w = belief w.trace ≡ record { process = some b; monitor = none }

  process_exists-Looked : Triple True (process_exists env) Looked (λ _. True)
  unfolding process_exists calls
  process_exists-Looked w h = ground arith

  ask_monitor-Shows :
      (b : Bool) → Triple (Looked b) (ask_monitor env) (λ x. Shows (verdict b x.0 x.1)) (λ _. True)
  unfolding ask_monitor qmp calls
  ask_monitor-Shows true w h = ground arith
  ask_monitor-Shows false w h = ground arith

  check_running-Shows : Triple True (check_running env) Shows (λ _. True)
  unfolding check_running pure
  check_running-Shows =
      Triple-bind (process_exists env) _ True Looked Shows (λ _. True) process_exists-Looked
        (λ b.
          Triple-bind (ask_monitor env) _ (Looked b) (λ x. Shows (verdict b x.0 x.1)) Shows
            (λ _. True) (ask_monitor-Shows b) (λ x w h. h))

  silent : {A : Type 0} (m : Action A) → Triple True m (λ _. True) (λ _. True)
  silent m w h = Ends-last True (m w) tt

  option_of :
      (x : Result (Option Bool) × World)
      → Ends Shows (λ _. True) x
      → Ends (OptionPost (λ b. Shows (some b)) True) (λ _. True) x
  option_of (ok none, w) h = tt
  option_of (ok (some b), w) h = h
  option_of (err e, w) h = tt
  option_of (stuck, w) h = tt

  -- Where `is_running` answers, the newest look at the VM bears the answer out: true means that the
  -- process runs and the monitor says so, false that there is neither.
  pub is_running-Shows : Triple True (is_running env) (λ b. Shows (some b)) (λ _. True)
  unfolding is_running raise pure option
  is_running-Shows =
      Triple-bind (time_out env (10 * second) second false) _ True (λ _. True) (λ b. Shows (some b))
        (λ _. True) (silent _)
        (λ t.
          Triple-bind _ _ True (OptionPost (λ b. Shows (some b)) True) (λ b. Shows (some b))
            (λ _. True)
            (Triple-ticking env (check_running env) True (λ b. Shows (some b)) (λ _. True)
              (λ _. silent _) (λ w h. option_of (check_running env w) (check_running-Shows w h))
              (λ w h. h) (fuel_for (10 * second) second) t)
            (λ r.
              elim r
                as (λ r'.
                  Triple (OptionPost (λ b. Shows (some b)) True r')
                    (option r' (raise vm_state_inconsistent) pure) (λ b. Shows (some b))
                    (λ _. True)) [ none ↦ λ w h. tt | some b ↦ λ w h. h ]))
