-- ===== src/Outgoing/Locks.antt =====
-- The migration locks on the sending side: `acquire_migration_locks`.
use fc_qemu.Base.{
  ℕ, zero, suc, ◌+◌, ◌*◌, ◌^◌, min, Bool, true, false, ◌≡◌, refl, Option, none, some, List, [], ◌∷◌,
  inr, returns, config_changed, runtime_error, arith, if◌then◌else◌,
}
use fc_qemu.World.{
  Candidate, Call, Event, Trace, Env, World, Action, pure, raise, diverge, calls, ◌>>◌,
  when◌then◌else◌, option, call, list_services, query_migrate, random, Fails, Triple, Keeps,
  Triple-bind, Triple-if, Triple-weaken, Triple-both, Stable, On, Emits, Emits-silent, emits,
  Emits-if, Emits-bind, Emits-pure, Emits-raise, Emits-option,
}
use fc_qemu.Timeout.{TimeOut, second, time_out, tick, fuel_for}
use fc_qemu.Qemu.Quiet.{Quiet, call-Quiet, tick-Quiet, time_out-Quiet, while_ticking-Quiet}
use fc_qemu.Volume.Removal.{LockCall}
use fc_qemu.Agent.Careful.{CarefulOr, Quiet-keeps}
use fc_qemu.Outgoing.{
  do_call, propagate, first_viable, look_for_service, connect, acquire_remote, acquire_both,
  acquire_round, acquire_loop, acquire_migration_locks,
}

-- Does this host have its migration lock, by the replies so far? And does it have the other's?
abbrev pub here_locked : Trace → Bool
here_locked [] = false
here_locked (Event.called Call.local_lock_asked (returns true) ∷ t) = true
here_locked (Event.called Call.local_lock_released _ ∷ t) = false
here_locked (_ ∷ t) = here_locked t

abbrev pub there_locked : Trace → Bool
there_locked [] = false
there_locked (Event.called Call.remote_lock_asked (returns true) ∷ t) = true
there_locked (Event.called Call.remote_lock_released _ ∷ t) = false
there_locked (_ ∷ t) = there_locked t

abbrev pub BothLocked : Trace → Type 0
BothLocked t = (here_locked t ≡ true) × (there_locked t ≡ true)

-- Every lock, registration or run file was given up when the VM was seen off, or when both migration
-- locks were held.
abbrev pub Guarded : World → Type 0
Guarded = On (CarefulOr BothLocked)

abbrev Any : Fails
Any _ _ = Unit

pub LockCall-Stable : Stable LockCall (λ t. CarefulOr BothLocked t × BothLocked t)
LockCall-Stable (Event.image_opened _ _) t e h = (((λ _. inr h.1), h.0), h.1)
LockCall-Stable (Event.lock_listed _ _) t e h = (((λ _. inr h.1), h.0), h.1)
LockCall-Stable (Event.lock_added _ _ _) t e h = (((λ _. inr h.1), h.0), h.1)
LockCall-Stable (Event.lock_removed _ _ _) t e h = (((λ _. inr h.1), h.0), h.1)
LockCall-Stable _ t e h = elim e [ ]

module _ (env : Env) where
  pub quiet : {A : Type 0} {m : Action A} → Emits Quiet m → Keeps Guarded m
  quiet e = Quiet-keeps BothLocked e

  pub do_call-Quiet : (c : Call) → Emits Quiet (do_call env c)
  do_call-Quiet c = search (emits, call-Quiet)

  pub propagate-Quiet : Emits Quiet (propagate env)
  unfolding propagate
  propagate-Quiet = search (emits, call-Quiet)

  list_services-Quiet : Emits Quiet (list_services env)
  unfolding list_services
  list_services-Quiet =
      Emits-bind (call-Quiet env Call.services_listed)
        (λ _. Emits-silent _ _ (λ w. refl) (λ w. refl))

  pub query_migrate-Quiet : Emits Quiet (query_migrate env)
  unfolding query_migrate
  query_migrate-Quiet =
      Emits-bind (call-Quiet env Call.migration_polled)
        (λ _. Emits-silent _ _ (λ w. refl) (λ w. refl))

  random-Quiet : (n : ℕ) → Emits Quiet (random env n)
  unfolding random
  random-Quiet n = Emits-silent _ _ (λ w. refl) (λ w. refl)

  first_viable-Quiet : (cs : List Candidate) → Emits Quiet (first_viable env cs)
  unfolding first_viable
  first_viable-Quiet [] = Emits-pure none
  first_viable-Quiet (c ∷ cs) =
      Emits-bind (search (emits, do_call-Quiet) depth 9)
        (λ a. Emits-if a (Emits-pure (some c.url)) (first_viable-Quiet cs))

  look_for_service-Quiet : Emits Quiet (look_for_service env)
  unfolding look_for_service
  look_for_service-Quiet =
      search (emits, call-Quiet, list_services-Quiet, first_viable-Quiet) depth 9

  found-Quiet : (o : Option ℕ) → Emits Quiet (option o (raise runtime_error) pure)
  found-Quiet o = Emits-option o (Emits-raise runtime_error) (λ u. Emits-pure u)

  pub connect-Quiet : Emits Quiet (connect env)
  unfolding connect
  connect-Quiet = Emits-bind (time_out-Quiet env (3600 * second) (3 * second) true) (λ t.
      Emits-bind
        (while_ticking-Quiet env _ look_for_service-Quiet (fuel_for (3600 * second) (3 * second)) t)
        found-Quiet)

  acquire_remote-Quiet : Emits Quiet (acquire_remote env)
  unfolding acquire_remote
  acquire_remote-Quiet = search (emits, call-Quiet, do_call-Quiet, propagate-Quiet) depth 12

  -- `acquire_remote` has both locks if it says so, when this host's was taken before.
  acquire_remote-Both :
      Triple
        (λ w. here_locked w.trace ≡ true)
        (acquire_remote env)
        (λ b w. b ≡ true → BothLocked w.trace)
        Any
  unfolding acquire_remote propagate calls
  acquire_remote-Both w h = ground arith

  asks_local :
      Triple
        (λ _. Unit)
        (call env Call.local_lock_asked)
        (λ b w. b ≡ true → here_locked w.trace ≡ true)
        Any
  unfolding calls
  asks_local w h = ground arith

  -- Both at once: the guard is kept, and the locks are held if the answer says so.
  abbrev Holding : Bool → World → Type 0
  Holding b w = Guarded w × (b ≡ true → BothLocked w.trace)

  with_quiet :
      {A : Type 0} (m : Action A) (H : World → Type 0) (P : A → World → Type 0)
      → Emits Quiet m
      → Triple H m P Any
      → Triple (λ w. Guarded w × H w) m (λ a w. Guarded w × P a w) (λ _. Guarded)
  with_quiet m H P e t =
      Triple-weaken m (λ w. Guarded w × H w) (λ a w. Guarded w × P a w) (λ a w. Guarded w × P a w)
        (λ _ w. Guarded w × Unit) (λ _. Guarded)
        (Triple-both m Guarded H (λ _. Guarded) P (λ _. Guarded) Any (quiet e) t) (λ _ _ h. h)
        (λ _ _ h. h.0)

  both_locks :
      (b : Bool)
      → Triple
          (λ w. Guarded w × (b ≡ true → here_locked w.trace ≡ true))
          (when b then acquire_remote env else pure false)
          Holding
          (λ _. Guarded)
  unfolding when◌then◌else◌ pure
  both_locks true w h =
      with_quiet (acquire_remote env) (λ u. here_locked u.trace ≡ true)
        (λ b u. b ≡ true → BothLocked u.trace) acquire_remote-Quiet acquire_remote-Both w
        (h.0, h.1 refl)
  both_locks false w h = (h.0, (λ e. absurd cc))

  -- With `raise_on_timeout`, `tick` never says that the time is over.
  ticks_on :
      (t : TimeOut)
      → t.raise_on_timeout ≡ true
      → Triple (λ _. Unit) (tick env t) (λ x _. (x.1 ≡ true) × (x.0.raise_on_timeout ≡ true)) Any
  unfolding tick calls
  ticks_on t r w h = ground arith

  abbrev pub Locked : World → Type 0
  Locked w = Guarded w × BothLocked w.trace

  acquire_both-Locked :
      (again : Action (Unit {0}))
      → Triple Guarded again (λ _. Locked) (λ _. Guarded)
      → Triple Guarded (acquire_both env again) (λ _. Locked) (λ _. Guarded)
  unfolding acquire_both pure
  acquire_both-Locked again k =
      Triple-bind (call env Call.local_lock_asked) _ Guarded
        (λ b w. Guarded w × (b ≡ true → here_locked w.trace ≡ true)) (λ _. Locked) (λ _. Guarded)
        (λ w h.
          with_quiet (call env Call.local_lock_asked) (λ _. Unit)
            (λ b u. b ≡ true → here_locked u.trace ≡ true) (call-Quiet env _) asks_local w (h, tt))
        (λ here.
          Triple-bind (when here then acquire_remote env else pure false)
            (λ both. when both then pure tt else again) _ Holding (λ _. Locked) (λ _. Guarded)
            (both_locks here)
            (λ both.
              Triple-if both (pure tt) again (Holding both) (λ _. Locked) (λ _. Guarded)
                (λ e w h. (h.0, h.1 e)) (λ _ w h. k w h.0)))

  acquire_round-Locked :
      (tries : ℕ) (again : ℕ → Action (Unit {0}))
      → ((slots : ℕ) → Triple Guarded (again slots) (λ _. Locked) (λ _. Guarded))
      → Triple Guarded (acquire_round env tries again) (λ _. Locked) (λ _. Guarded)
  unfolding acquire_round raise
  acquire_round-Locked tries again k =
      Triple-bind (random env (2 ^ tries)) _ Guarded (λ _. Guarded) (λ _. Locked) (λ _. Guarded)
        (quiet (random-Quiet _))
        (λ slots.
          Triple-bind (call env Call.new_config_sought)
            (λ new_config.
              when new_config
              then (do_call env Call.remote_cancelled >> raise config_changed)
              else (propagate env >> acquire_both env (again slots)))
            Guarded (λ _. Guarded) (λ _. Locked) (λ _. Guarded) (quiet (call-Quiet env _))
            (λ new_config.
              Triple-if new_config (do_call env Call.remote_cancelled >> raise config_changed)
                (propagate env >> acquire_both env (again slots)) Guarded (λ _. Locked)
                (λ _. Guarded)
                (λ _.
                  Triple-bind (do_call env Call.remote_cancelled) (λ _. raise config_changed)
                    Guarded (λ _. Guarded) (λ _. Locked) (λ _. Guarded) (quiet (do_call-Quiet _))
                    (λ _ w h. h))
                (λ _.
                  Triple-bind (propagate env) (λ _. acquire_both env (again slots)) Guarded
                    (λ _. Guarded) (λ _. Locked) (λ _. Guarded) (quiet propagate-Quiet)
                    (λ _. acquire_both-Locked (again slots) (k slots)))))

  acquire_loop-Locked :
      (fuel : ℕ) (t : TimeOut) (tries : ℕ)
      → t.raise_on_timeout ≡ true
      → Triple Guarded (acquire_loop env fuel t tries) (λ _. Locked) (λ _. Guarded)
  unfolding acquire_loop diverge
  acquire_loop-Locked zero t tries r = λ w h. h
  acquire_loop-Locked (suc fuel) t tries r =
      Triple-bind (tick env t) _ Guarded
        (λ x w. Guarded w × ((x.1 ≡ true) × (x.0.raise_on_timeout ≡ true))) (λ _. Locked)
        (λ _. Guarded)
        (λ w h.
          with_quiet (tick env t) (λ _. Unit) (λ x _. (x.1 ≡ true) × (x.0.raise_on_timeout ≡ true))
            (tick-Quiet env t) (ticks_on t r) w (h, tt))
        (λ x.
          Triple-if x.1
            (acquire_round env (min (tries + 1) 11) (λ slots.
              acquire_loop env fuel (let t' = x.0 in record t' { interval = slots * 10 })
                (min (tries + 1) 11)))
            (pure tt) _ (λ _. Locked) (λ _. Guarded)
            (λ _ w h.
              acquire_round-Locked (min (tries + 1) 11) _
                (λ slots.
                  acquire_loop-Locked fuel (let t' = x.0 in record t' { interval = slots * 10 })
                    (min (tries + 1) 11) h.1.1)
                w h.0)
            (λ e w h. absurd (ground arith)))

  raising :
      (d i : ℕ) → Triple (λ _. Unit) (time_out env d i true) (λ t _. t.raise_on_timeout ≡ true) Any
  unfolding time_out calls
  raising d i w h = refl

  -- Where `acquire_migration_locks` returns, the newest replies about the migration locks are that
  -- this host has its own and the other host's.
  pub acquire_migration_locks-Both :
      (fuel : ℕ) → Triple Guarded (acquire_migration_locks env fuel) (λ _. Locked) (λ _. Guarded)
  unfolding acquire_migration_locks
  acquire_migration_locks-Both fuel =
      Triple-bind (time_out env (43200 * second) (3 * second) true) (λ t. acquire_loop env fuel t 0)
        Guarded (λ t w. Guarded w × (t.raise_on_timeout ≡ true)) (λ _. Locked) (λ _. Guarded)
        (λ w h.
          with_quiet (time_out env (43200 * second) (3 * second) true) (λ _. Unit)
            (λ t _. t.raise_on_timeout ≡ true) (time_out-Quiet env _ _ true) (raising _ _) w
            (h, tt))
        (λ t w h. acquire_loop-Locked fuel t 0 h.1 w h.0)
