-- ===== src/Ensure/Handed.antt =====
-- What an outgoing migration that reports success has heard from the other side: `run_outgoing`.
use fc_qemu.Base.{
  ℕ, zero, suc, ◌*◌, Bool, true, false, not, ◌||◌, ◌≡◌, Option, none, some, [], ◌∷◌, returns,
  Result, ok, err, stuck, assertion_error, arith, if◌then◌else◌,
}
use fc_qemu.World.{
  Call, Event, Trace, World, Env, Action, pure, raise, ◌>>=◌, ◌>>◌, when◌then◌else◌, try_exception,
  call, Fails, Ends, Triple, Keeps, Triple-bind, Triple-if, Triple-except, Triple-exception,
  Triple-weaken, Stable, On, Emits, Emits-bind, Emits-pure, Emits-raise, Emits-if, Emits-except,
  Emits-option, Emits-mono, Keeps-bind, Keeps-pure, Keeps-exception,
}
use fc_qemu.Timeout.{TimeOut, second, time_out, next_round, while_ticking, fuel_for}
use fc_qemu.Qemu.Quiet.{
  diverge-Quiet, tick-Quiet, time_out-Quiet, is_running-Quiet, destroy-Quiet, call-Quiet,
}
use fc_qemu.Agent.{release_if_gone, destroy_vm, is_qemu_not_running}
use fc_qemu.Agent.Careful.{Never, stop-Release, consul_deregister-Release, cleanup-Release}
use fc_qemu.Outgoing.{
  do_call, acquire_migration_locks, transfer_ceph_locks, poll, migrate, continue_locally, rescue,
  leave_failed, leave, transfer, run_outgoing,
}

-- Was the migration over, or has the other side said that it has the VM?
abbrev pub hands_over : Event → Bool
hands_over (Event.called Call.migration_ended (returns true)) = true
hands_over (Event.called Call.remote_rescued (returns _)) = true
hands_over _ = false

abbrev pub handed : Trace → Bool
handed [] = false
handed (e ∷ t) = hands_over e || handed t

abbrev pub Handed : Trace → Type 0
Handed t = handed t ≡ true

abbrev pub Anything : Event → Type 0
Anything _ = Unit

pub Handed-Stable : Stable Anything Handed
Handed-Stable e t h k = ground (arith, k)

pub anything : {A : Type 0} {E : Event → Type 0} {m : Action A} → Emits E m → Emits Anything m
anything x = Emits-mono (λ e h. tt) x

abbrev pub Free : Fails
Free _ _ = Unit

abbrev pub True : World → Type 0
True _ = Unit

somehow-Ends : {A : Type 0} (x : Result A × World) → Ends (λ _ _. Unit) Free x
somehow-Ends (ok a, v) = tt
somehow-Ends (err e, v) = tt
somehow-Ends (stuck, v) = tt

-- Every action ends somehow.
somehow : {A : Type 0} (m : Action A) → Triple True m (λ _ _. Unit) Free
somehow m w h = somehow-Ends (m w)

after :
    {A B : Type 0} (m : Action A) (f : A → Action B) (R : B → World → Type 0)
    → ((a : A) → Triple True (f a) R Free)
    → Triple True (m >>= f) R Free
after m f R k = Triple-bind m f True (λ _ _. Unit) R Free (somehow m) k

loosen :
    {A : Type 0} (m : Action A) (H : World → Type 0) (P : A → World → Type 0) (Q : Fails)
    → Triple H m P Q
    → Triple H m P Free
loosen m H P Q h = Triple-weaken m H P P Q Free h (λ a w p. p) (λ e w q. tt)

module _ (env : Env) where
  while_ticking-Anything :
      {A : Type 0} (body : Action (Option A))
      → Emits Anything body
      → (n : ℕ) (t : TimeOut) → Emits Anything (while_ticking env n t body)
  unfolding while_ticking
  while_ticking-Anything body q zero t = anything diverge-Quiet
  while_ticking-Anything body q (suc n) t =
      Emits-bind (anything (tick-Quiet env t)) (round (while_ticking-Anything body q n))
    where
      round :
          ((t' : TimeOut) → Emits Anything (while_ticking env n t' body))
          → (x : TimeOut × Bool)
          → Emits Anything (next_round env body (λ t'. while_ticking env n t' body) x)
      round rest (t', true) =
          Emits-bind q (λ r. Emits-option r (rest t') (λ a. Emits-pure (some a)))
      round rest (t', false) = Emits-pure none

  release_if_gone-Anything : Emits Anything (release_if_gone env)
  unfolding release_if_gone
  release_if_gone-Anything = Emits-bind (anything (is_running-Quiet env)) (λ runs.
      Emits-if runs (Emits-pure none) (
        Emits-bind
          (Emits-bind
            (Emits-bind
              (Emits-except (anything (stop-Release Never env))
                (λ e. Emits-if _ (Emits-pure tt) (Emits-raise e)))
              (λ _. anything (consul_deregister-Release Never env)))
            (λ _. anything (cleanup-Release Never env)))
          (λ _. Emits-pure (some tt))))

  destroy_vm-Anything : (kills : Bool) → Emits Anything (destroy_vm env kills)
  unfolding destroy_vm
  destroy_vm-Anything kills =
      Emits-bind (anything (time_out-Quiet env (15 * second) second false)) (λ t.
        Emits-bind
          (Emits-except (anything (destroy-Quiet env kills))
            (λ e. Emits-if (is_qemu_not_running e) (Emits-pure tt) (Emits-raise e)))
          (λ _.
            Emits-bind
              (while_ticking-Anything _ release_if_gone-Anything (fuel_for (15 * second) second) t)
              (λ _. Emits-pure tt)))

  do_call-Anything : (c : Call) → Emits Anything (do_call env c)
  do_call-Anything c = Emits-bind (anything (call-Quiet env c)) (λ _. Emits-pure tt)

  keep : {A : Type 0} {m : Action A} → Emits Anything m → Keeps (On Handed) m
  keep x = x.keeps Handed Handed-Stable

  ended-Handed :
      Triple (λ _. Unit) (call env Call.migration_ended) (λ b w. b ≡ true → On Handed w) Free
  unfolding call
  ended-Handed w h = ground arith

  rescued-Handed : Triple (λ _. Unit) (do_call env Call.remote_rescued) (λ _. On Handed) Free
  unfolding call ◌>>=◌ pure
  rescued-Handed w h = ground arith

  finish-Handed :
      Triple
        (On Handed)
        (destroy_vm env true >>= λ _. try_exception (do_call env Call.incoming_finished) (pure tt))
        (λ _. On Handed)
        (λ _. On Handed)
  finish-Handed =
      Keeps-bind (On Handed) (destroy_vm env true) _ (keep (destroy_vm-Anything true)) (λ _.
        Keeps-exception (On Handed) _ _ (keep (do_call-Anything _)) (Keeps-pure (On Handed) tt))

  checked-Handed :
      (ended : Bool)
      → Triple
          (λ w. ended ≡ true → On Handed w)
          (when not ended then raise assertion_error else pure tt)
          (λ _. On Handed)
          Free
  unfolding raise pure
  checked-Handed ended =
      Triple-if (not ended) (raise assertion_error) (pure tt) _ (λ _. On Handed) Free (λ _ w h. tt)
        (λ e w h. h (ground (arith, e)))

  migrate-Handed : (fuel : ℕ) → Triple True (migrate env fuel) (λ _. On Handed) Free
  unfolding migrate
  migrate-Handed fuel = after (do_call env _) _ _ (λ _. after (do_call env _) _ _ (λ _.
      after (do_call env _) _ _ (λ _. after (time_out env _ _ true) _ _ (λ t.
        after (poll env fuel t) _ _ (λ _.
          Triple-bind (call env Call.migration_ended) _ True (λ b w. b ≡ true → On Handed w)
            (λ _. On Handed) Free ended-Handed
            (λ ended.
              Triple-bind (when not ended then raise assertion_error else pure tt) _ _
                (λ _. On Handed) (λ _. On Handed) Free (checked-Handed ended)
                (λ _. loosen _ (On Handed) (λ _. On Handed) (λ _. On Handed) finish-Handed)))))))

  abbrev Answer : Bool → World → Type 0
  Answer b w = b ≡ true → On Handed w

  rescue_remote-Handed :
      Triple True
        (do_call env Call.remote_rescued
          >> do_call env Call.incoming_finished
          >> destroy_vm env true
          >> pure true)
        Answer
        Free
  unfolding pure
  rescue_remote-Handed =
      Triple-bind
        (do_call env Call.remote_rescued
          >> do_call env Call.incoming_finished
          >> destroy_vm env true)
        _ True (λ _. On Handed) Answer Free
        (Triple-bind (do_call env Call.remote_rescued >> do_call env Call.incoming_finished) _ True
          (λ _. On Handed) (λ _. On Handed) Free
          (Triple-bind (do_call env Call.remote_rescued) _ True (λ _. On Handed) (λ _. On Handed)
            Free rescued-Handed
            (λ _.
              loosen _ (On Handed) (λ _. On Handed) (λ _. On Handed) (keep (do_call-Anything _))))
          (λ _.
            loosen _ (On Handed) (λ _. On Handed) (λ _. On Handed)
              (keep (destroy_vm-Anything true))))
        (λ _ w h e. h)

  falsely : {A : Type 0} (m : Action A) → Triple True (m >>= λ _. pure false) Answer Free
  unfolding pure
  falsely m = after m _ Answer (λ _ w h e. ground (arith, e))

  abbrev pub Code : ℕ → World → Type 0
  Code n w = n ≡ 0 → On Handed w

  rescue-Handed : (connected : Bool) → Triple True (rescue env connected) Code Free
  unfolding rescue pure
  rescue-Handed connected =
      Triple-bind _ _ True Answer Code Free
        (Triple-if connected _ (pure false) True Answer Free
          (λ _.
            Triple-exception _ _ True Answer True Free rescue_remote-Handed
              (falsely (try_exception (do_call env Call.remote_destroyed) (pure tt))) (λ e w h. tt))
          (λ _ w h e. ground (arith, e)))
        (λ rescued.
          Triple-if rescued (pure 0) (continue_locally env >>= λ _. pure 1) (Answer rescued) Code
            Free (λ e w h z. h e)
            (λ _ w h.
              after (continue_locally env) (λ _. pure 1) Code (λ _ u k z. ground (arith, z)) w tt))

  leave_failed-Handed : (connected : Bool) → Triple True (leave_failed env connected) Code Free
  unfolding leave_failed raise
  leave_failed-Handed connected =
      Triple-except (rescue env connected) _ True Code Free Free (rescue-Handed connected)
        (λ e w h. tt) (λ w h. tt)

  leave-Handed : Triple (On Handed) (leave env) Code Free
  unfolding leave pure
  leave-Handed =
      Triple-bind _ _ (On Handed) (λ _. On Handed) Code Free
        (loosen _ (On Handed) (λ _. On Handed) (λ _. On Handed) (released _))
        (λ _.
          Triple-bind _ _ (On Handed) (λ _. On Handed) Code Free
            (loosen _ (On Handed) (λ _. On Handed) (λ _. On Handed) (released _)) (λ _ w h e. h))
    where
      released : (c : Call) → Keeps (On Handed) (try_exception (do_call env c) (pure tt))
      released c =
          Keeps-exception (On Handed) _ _ (keep (do_call-Anything c)) (Keeps-pure (On Handed) tt)

  transfer-Handed : (fuel : ℕ) → Triple True (transfer env fuel) (λ _. On Handed) Free
  unfolding transfer
  transfer-Handed fuel =
      after (acquire_migration_locks env fuel >> transfer_ceph_locks env) (λ _. migrate env fuel) _
        (λ _. migrate-Handed fuel)

  -- An outgoing migration that reports success has seen the migration end, or has heard that the
  -- other side has the VM.
  pub run_outgoing-Handed : (fuel : ℕ) → Triple True (run_outgoing env fuel) Code Free
  unfolding run_outgoing pure
  run_outgoing-Handed fuel = after _ _ Code (λ connected.
      Triple-if connected _ (leave_failed env false) True Code Free
        (λ _.
          Triple-bind _ _ True Answer Code Free
            (Triple-except _ _ True Answer Free Free
              (Triple-bind (transfer env fuel) (λ _. pure true) True (λ _. On Handed) Answer Free
                (transfer-Handed fuel) (λ _ w h e. h))
              (λ e w h z. ground (arith, z)) (λ w h. tt))
            (λ fine.
              Triple-if fine (leave env) (leave_failed env true) (Answer fine) Code Free
                (λ e w h. leave-Handed w (h e)) (λ _ w h. leave_failed-Handed true w tt)))
        (λ _. leave_failed-Handed false))
