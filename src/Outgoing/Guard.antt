-- ===== src/Outgoing/Guard.antt =====
-- What the sending side of a migration gives up, and when: `run_outgoing` and its parts.
use fc_qemu.Base.{ℕ, zero, suc, ◌*◌, Bool, true, false, not, assertion_error, attribute_error}
use fc_qemu.World.{
  MigrationStatus, setup, active, completed, other, Call, Env, Action, pure, raise, diverge, ◌>>=◌,
  ◌>>◌, try_exception, call, query_migrate, Triple, Keeps, Triple-bind, Triple-weaken, Keeps-bind,
  Keeps-pure, Keeps-if, Keeps-except, Keeps-exception, Emits, Emits-if, Emits-bind, Emits-pure,
  Emits-raise,
}
use fc_qemu.Timeout.{TimeOut, second, time_out, tick}
use fc_qemu.Qemu.{is_running}
use fc_qemu.Qemu.Quiet.{Quiet, call-Quiet, tick-Quiet, time_out-Quiet, is_running-Quiet}
use fc_qemu.Ceph as Ceph
use fc_qemu.Ceph.Calls as Ceph_calls
use fc_qemu.Agent.{destroy_vm}
use fc_qemu.Agent.Careful.{CarefulOr}
use fc_qemu.Agent.Commands.{destroy_vm_keeps}
use fc_qemu.Outgoing.{
  do_call, propagate, acquire_migration_locks, transfer_ceph_locks, slower, by_status, poll,
  migrate, continue_locally, rescue, leave_failed, leave, transfer, run_outgoing,
}
use fc_qemu.Outgoing.Locks.{
  BothLocked, Guarded, Locked, LockCall-Stable, quiet, do_call-Quiet, propagate-Quiet,
  query_migrate-Quiet, connect-Quiet, acquire_migration_locks-Both,
}
use fc_qemu.Ceph.Quiet.{lock-Quiet}

module _ (env : Env) where
  unlocks : Triple (Locked env) (Ceph.unlock env) (λ _. Guarded) (λ _. Guarded)
  unlocks =
      Triple-weaken (Ceph.unlock env) (Locked env) (λ _. Locked env) (λ _. Guarded)
        (λ _. Locked env) (λ _. Guarded)
        ((Ceph_calls.unlock-LockCall env).keeps (λ t. CarefulOr BothLocked t × BothLocked t)
          LockCall-Stable)
        (λ _ _ h. h.0) (λ _ _ h. h.0)

  then_quiet :
      {A B : Type 0} (m : Action A) (f : A → Action B)
      → Emits Quiet m
      → ((a : A) → Keeps Guarded (f a))
      → Keeps Guarded (m >>= f)
  then_quiet m f e k = Keeps-bind Guarded m f (quiet env e) k

  by_status-Guarded :
      (s : MigrationStatus) (m : Action (Unit {0}))
      → Keeps Guarded m
      → Keeps Guarded (by_status env s m)
  unfolding pure raise
  by_status-Guarded setup m k = k
  by_status-Guarded active m k = k
  by_status-Guarded completed m k = λ w h. h
  by_status-Guarded other m k = λ w h. h

  poll-Guarded : (fuel : ℕ) (t : TimeOut) → Keeps Guarded (poll env fuel t)
  unfolding poll diverge
  poll-Guarded zero t = λ w h. h
  poll-Guarded (suc fuel) t = then_quiet (tick env t) _ (tick-Quiet env t) (λ x.
      Keeps-if Guarded x.1 _ _
        (then_quiet (query_migrate env) _ (query_migrate-Quiet env) (λ s.
          then_quiet (propagate env) _ (propagate-Quiet env)
            (λ _. by_status-Guarded s _ (poll-Guarded fuel (slower env x.0)))))
        (Keeps-pure Guarded tt))

  finish-Guarded : Keeps Guarded (try_exception (do_call env Call.incoming_finished) (pure tt))
  finish-Guarded =
      Keeps-exception Guarded _ _ (quiet env (do_call-Quiet env _)) (Keeps-pure Guarded tt)

  migrate-Guarded : (fuel : ℕ) → Keeps Guarded (migrate env fuel)
  unfolding migrate
  migrate-Guarded fuel = then_quiet (do_call env _) _ (do_call-Quiet env _) (λ _.
      then_quiet (do_call env _) _ (do_call-Quiet env _) (λ _.
        then_quiet (do_call env _) _ (do_call-Quiet env _) (λ _.
          then_quiet (time_out env (30 * second) second true) _ (time_out-Quiet env _ _ true) (λ t.
            Keeps-bind Guarded (poll env fuel t) _ (poll-Guarded fuel t) (λ _.
              then_quiet (call env _) _ (call-Quiet env _) (λ ended.
                then_quiet _ _ (Emits-if (not ended) (Emits-raise assertion_error) (Emits-pure tt))
                  (λ _.
                    Keeps-bind Guarded (destroy_vm env true) _
                      (destroy_vm_keeps BothLocked env true) (λ _. finish-Guarded))))))))

  continue_locally-Guarded : Keeps Guarded (continue_locally env)
  unfolding continue_locally
  continue_locally-Guarded =
      Keeps-exception Guarded _ _
        (Keeps-bind Guarded (Ceph.lock env) _ (quiet env (lock-Quiet env)) (λ _.
          then_quiet (is_running env) _ (is_running-Quiet env) (λ running.
            quiet env (Emits-if (not running) (Emits-raise assertion_error) (Emits-pure tt)))))
        (destroy_vm_keeps BothLocked env false)

  rescue_remote-Guarded : Keeps Guarded (
      do_call env Call.remote_rescued
      >> do_call env Call.incoming_finished
      >> destroy_vm env true
      >> pure true)
  rescue_remote-Guarded =
      Keeps-bind Guarded
        (do_call env Call.remote_rescued
          >> do_call env Call.incoming_finished
          >> destroy_vm env true)
        _
        (Keeps-bind Guarded (do_call env Call.remote_rescued >> do_call env Call.incoming_finished)
          _
          (then_quiet (do_call env _) _ (do_call-Quiet env _)
            (λ _. quiet env (do_call-Quiet env _)))
          (λ _. destroy_vm_keeps BothLocked env true))
        (λ _. Keeps-pure Guarded true)

  destroy_remote-Guarded :
      Keeps Guarded (try_exception (do_call env Call.remote_destroyed) (pure tt) >> pure false)
  destroy_remote-Guarded =
      Keeps-bind Guarded (try_exception (do_call env Call.remote_destroyed) (pure tt)) _
        (Keeps-exception Guarded _ _ (quiet env (do_call-Quiet env _)) (Keeps-pure Guarded tt))
        (λ _. Keeps-pure Guarded false)

  rescue-Guarded : (connected : Bool) → Keeps Guarded (rescue env connected)
  unfolding rescue
  rescue-Guarded connected =
      Keeps-bind Guarded _ _
        (Keeps-if Guarded connected _ _
          (Keeps-exception Guarded _ _ rescue_remote-Guarded destroy_remote-Guarded)
          (Keeps-pure Guarded false))
        (λ rescued. Keeps-if Guarded rescued _ _ (Keeps-pure Guarded 0) (
          Keeps-bind Guarded (continue_locally env) _ continue_locally-Guarded
            (λ _. Keeps-pure Guarded 1)))

  leave_failed-Guarded : (connected : Bool) → Keeps Guarded (leave_failed env connected)
  unfolding leave_failed
  leave_failed-Guarded connected =
      Keeps-except Guarded _ _ (rescue-Guarded connected)
        (λ _. quiet env (Emits-raise attribute_error))

  leave-Guarded : Keeps Guarded (leave env)
  unfolding leave
  leave-Guarded =
      Keeps-bind Guarded _ _
        (Keeps-exception Guarded _ _ (quiet env (do_call-Quiet env _)) (Keeps-pure Guarded tt))
        (λ _.
          Keeps-bind Guarded _ _
            (Keeps-exception Guarded _ _ (quiet env (do_call-Quiet env _)) (Keeps-pure Guarded tt))
            (λ _. Keeps-pure Guarded 0))

  transfer-Guarded : (fuel : ℕ) → Keeps Guarded (transfer env fuel)
  unfolding transfer transfer_ceph_locks
  transfer-Guarded fuel =
      Keeps-bind Guarded
        (acquire_migration_locks env fuel
          >> (Ceph.unlock env >> do_call env Call.remote_ceph_locks_asked))
        _
        (Triple-bind (acquire_migration_locks env fuel) _ Guarded (λ _. Locked env) (λ _. Guarded)
          (λ _. Guarded) (acquire_migration_locks-Both env fuel)
          (λ _.
            Triple-bind (Ceph.unlock env) _ (Locked env) (λ _. Guarded) (λ _. Guarded)
              (λ _. Guarded) unlocks (λ _. quiet env (do_call-Quiet env _))))
        (λ _. migrate-Guarded fuel)

-- In an outgoing migration, on every path, a lock, the registration or the run files are given up
-- only while both hosts' migration locks are held, or when the newest look at the VM has found it
-- off.
pub run_outgoing-Guarded : (env : Env) (fuel : ℕ) → Keeps Guarded (run_outgoing env fuel)
unfolding run_outgoing
run_outgoing-Guarded env fuel =
    Keeps-bind Guarded _ _
      (Keeps-except Guarded _ _ (quiet env (Emits-bind (connect-Quiet env) (λ _. Emits-pure true)))
        (λ _. Keeps-pure Guarded false))
      (λ connected.
        Keeps-if Guarded connected _ _
          (Keeps-bind Guarded _ _
            (Keeps-except Guarded _ _
              (Keeps-bind Guarded (transfer env fuel) _ (transfer-Guarded env fuel)
                (λ _. Keeps-pure Guarded true))
              (λ _. Keeps-pure Guarded false))
            (λ fine. Keeps-if Guarded fine _ _ (leave-Guarded env) (leave_failed-Guarded env true)))
          (leave_failed-Guarded env false))
