-- ===== src/Maintenance/Ready.antt =====
-- What the exit code 0 of `maintenance_enter` promises.
use fc_qemu.Base.{
  ℕ, zero, suc, ◌≡◌, ◌*◌, Bool, true, false, Option, none, some, ◌∷◌, [], returns, raises, arith,
}
use fc_qemu.World.{
  Call, Event, Trace, Env, World, Action, pure, raise, calls, ◌>>◌, when◌then◌else◌, option, call,
  sleep, Fails, Triple, Triple-bind, Triple-if, Triple-except, Triple-weaken, Ends-last, Stable,
  Emits,
}
use fc_qemu.Timeout.{second, time_out, while_ticking, fuel_for}
use fc_qemu.Timeout.Rules.{OptionPost, Triple-ticking, Waits, tick-Waits, time_out-Waits}
use fc_qemu.Maintenance.{
  is_timeout_expired, is_called_process_error, run, ensure_maintenance_volume, lock_for_maintenance,
  maintenance_leave, evacuate, look_for_vms, evacuate_all, maintenance_enter, maintenance_tempfail,
  get_maintenance_lock_info,
}

-- Does this host have the maintenance lock, by the replies so far? An unlock that is tried may have
-- worked.
abbrev pub has_lock : Trace → Bool
has_lock [] = false
has_lock (Event.called Call.maintenance_locked (returns _) ∷ t) = true
has_lock (Event.called Call.maintenance_unlocked _ ∷ t) = false
has_lock (_ ∷ t) = has_lock t

-- Did the newest count find no VM?
abbrev pub no_vms_left : Trace → Bool
no_vms_left [] = false
no_vms_left (Event.called Call.vms_counted (returns b) ∷ t) = b
no_vms_left (Event.called Call.vms_counted (raises _) ∷ t) = false
no_vms_left (_ ∷ t) = no_vms_left t

abbrev HasLock : World → Type 0
HasLock w = has_lock w.trace ≡ true

abbrev pub IsReady : World → Type 0
IsReady w = (has_lock w.trace ≡ true) × (no_vms_left w.trace ≡ true)

abbrev pub NoMatter : Fails
NoMatter _ _ = Unit

module _ (env : Env) where
  locks :
      Triple
        (λ _. Unit)
        (ensure_maintenance_volume env >> run env Call.maintenance_locked >> pure true)
        (λ b w. b ≡ true → HasLock w)
        NoMatter
  unfolding ensure_maintenance_volume calls
  locks w h = ground arith

  Waits-HasLock : Stable Waits (λ t. has_lock t ≡ true)
  Waits-HasLock (Event.time_read _) t e h = h
  Waits-HasLock (Event.slept _) t e h = h
  Waits-HasLock _ t e h = elim e [ ]

  looks : Triple HasLock (look_for_vms env) (OptionPost (λ code w. IsReady w) HasLock) NoMatter
  unfolding look_for_vms calls
  looks w h = ground arith

  asks : Triple HasLock (call env Call.evacuation_requested) (λ _. HasLock) NoMatter
  unfolding calls
  asks w h = ground arith

  rests : Triple HasLock (sleep (5 * second)) (λ _. HasLock) NoMatter
  unfolding calls
  rests w h = h

  evacuates : (n : ℕ) → Triple HasLock (evacuate env n) (λ _. HasLock) NoMatter
  unfolding evacuate pure
  evacuates zero = λ w h. h
  evacuates (suc n) =
      Triple-bind (call env Call.evacuation_requested) _ HasLock (λ _. HasLock) (λ _. HasLock)
        NoMatter asks
        (λ b.
          Triple-if b (sleep (5 * second) >> evacuate env n) (pure tt) HasLock (λ _. HasLock)
            NoMatter
            (λ _.
              Triple-bind (sleep (5 * second)) (λ _. evacuate env n) HasLock (λ _. HasLock)
                (λ _. HasLock) NoMatter rests (λ _. evacuates n))
            (λ _ w h. h))

  no_matter : {A : Type 0} (m : Action A) → Triple (λ _. Unit) m (λ _ _. Unit) NoMatter
  no_matter m w h = Ends-last (λ _. Unit) (m w) tt

  -- The lock is had if the answer is true.
  abbrev IfLocked : Bool → World → Type 0
  IfLocked b w = b ≡ true → HasLock w

  gives_up_lock : (m : Action (Unit {0})) → Triple (λ _. Unit) (m >> pure false) IfLocked NoMatter
  unfolding pure
  gives_up_lock m =
      Triple-bind m (λ _. pure false) (λ _. Unit) (λ _ _. Unit) IfLocked NoMatter (no_matter m)
        (λ _ w h e. absurd cc)

  lock_for_maintenance-IfLocked : Triple (λ _. Unit) (lock_for_maintenance env) IfLocked NoMatter
  unfolding lock_for_maintenance raise
  lock_for_maintenance-IfLocked =
      Triple-except _ _ (λ _. Unit) IfLocked NoMatter NoMatter locks
        (λ e.
          Triple-if (is_timeout_expired e)
            (get_maintenance_lock_info env >> maintenance_leave env >> pure false)
            (when is_called_process_error e
              then (get_maintenance_lock_info env >> pure false)
              else raise e)
            (λ _. Unit) IfLocked NoMatter
            (λ _. gives_up_lock (get_maintenance_lock_info env >> maintenance_leave env))
            (λ _.
              Triple-if (is_called_process_error e) (get_maintenance_lock_info env >> pure false)
                (raise e) (λ _. Unit) IfLocked NoMatter
                (λ _. gives_up_lock (get_maintenance_lock_info env)) (λ _ w h. tt)))
        (λ w h. tt)

  waits : {A : Type 0} (m : Action A) → Emits Waits m → Triple HasLock m (λ _. HasLock) NoMatter
  waits m e =
      Triple-weaken m HasLock (λ _. HasLock) (λ _. HasLock) (λ _. HasLock) NoMatter
        (e.keeps (λ t. has_lock t ≡ true) Waits-HasLock) (λ _ w h. h) (λ _ w h. tt)

  quiet_call :
      (c : Call)
      → Triple HasLock (call env c) (λ _. HasLock) NoMatter
      → Triple HasLock (run env c) (λ _. HasLock) NoMatter
  unfolding pure
  quiet_call c h =
      Triple-bind (call env c) _ HasLock (λ _. HasLock) (λ _. HasLock) NoMatter h (λ _ w k. k)

  connects : Triple HasLock (call env Call.directory_connected) (λ _. HasLock) NoMatter
  unfolding calls
  connects w h = ground arith

  reloads : Triple HasLock (call env Call.consul_reloaded) (λ _. HasLock) NoMatter
  unfolding calls
  reloads w h = ground arith

  -- The exit code 0 needs the lock and a count without a VM.
  abbrev pub Promised : ℕ → World → Type 0
  Promised code w = code ≡ 0 → IsReady w

  ends :
      (code : Option ℕ)
      → Triple
          (OptionPost (λ _ w. IsReady w) HasLock code)
          (option code (pure maintenance_tempfail) pure)
          Promised
          NoMatter
  unfolding option pure
  ends none w h = λ e. absurd cc
  ends (some n) w h = λ e. h

  evacuate_all-Promised :
      (patience : ℕ) → Triple HasLock (evacuate_all env patience) Promised NoMatter
  unfolding evacuate_all
  evacuate_all-Promised patience =
      Triple-bind (run env Call.directory_connected) _ HasLock (λ _. HasLock) Promised NoMatter
        (quiet_call _ connects)
        (λ _.
          Triple-bind (evacuate env 3) _ HasLock (λ _. HasLock) Promised NoMatter (evacuates 3)
            (λ _.
              Triple-bind (run env Call.consul_reloaded) _ HasLock (λ _. HasLock) Promised NoMatter
                (quiet_call _ reloads)
                (λ _.
                  Triple-bind (time_out env patience (3 * second) false) _ HasLock (λ _. HasLock)
                    Promised NoMatter (waits _ (time_out-Waits env _ _ false))
                    (λ t.
                      Triple-bind
                        (while_ticking env (fuel_for patience (3 * second)) t (look_for_vms env))
                        (λ code. option code (pure maintenance_tempfail) pure) HasLock
                        (OptionPost (λ _ w. IsReady w) HasLock) Promised NoMatter
                        (Triple-ticking env (look_for_vms env) HasLock (λ _ w. IsReady w) NoMatter
                          (λ u. waits _ (tick-Waits env u)) looks (λ w h. tt)
                          (fuel_for patience (3 * second)) t)
                        ends))))

  -- `maintenance_enter` gives the exit code 0 only if the newest reply about the maintenance lock is that
  -- this host has it, and the newest count found no VM.
  pub maintenance_enter-Promised :
      (patience : ℕ) → Triple (λ _. Unit) (maintenance_enter env patience) Promised NoMatter
  unfolding maintenance_enter pure
  maintenance_enter-Promised patience =
      Triple-bind (lock_for_maintenance env) _ (λ _. Unit) IfLocked Promised NoMatter
        lock_for_maintenance-IfLocked
        (λ b.
          Triple-if b (evacuate_all env patience) (pure maintenance_tempfail) (IfLocked b) Promised
            NoMatter (λ e w h. evacuate_all-Promised patience w (h e)) (λ _ w h e. absurd cc))
