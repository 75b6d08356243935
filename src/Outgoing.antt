-- ===== src/Outgoing.antt =====
-- The sending side of a live migration: class Outgoing of outgoing.py, after the cookie has been made,
-- with `poll_migration_status` of hazmat/qemu.py. The heartbeat runs in a thread of its own; here it is
-- what `propagate` finds.
pub mod Locks
pub mod Guard
use fc_qemu.Base.{
  ℕ, zero, suc, ◌+◌, ◌*◌, ◌/◌, ◌^◌, min, Bool, true, false, not, Option, none, some, List, [], ◌∷◌,
  Exc, runtime_error, config_changed, invalid_migration_status, assertion_error, attribute_error,
  ltb, if◌then◌else◌,
}
use fc_qemu.World.{
  Candidate, MigrationStatus, setup, active, completed, other, Call, Env, Action, pure, raise,
  diverge, ◌>>=◌, ◌>>◌, when◌then◌else◌, only_if, option, try_except, try_exception, call,
  list_services, query_migrate, random,
}
use fc_qemu.Timeout.{TimeOut, second, time_out, tick, while_ticking, fuel_for}
use fc_qemu.Qemu.{is_running}
use fc_qemu.Ceph as Ceph
use fc_qemu.Agent.{destroy_vm}

-- `sorted(candidates, key=ModifyIndex, reverse=True)`, which is stable.
abbrev pub insert : Candidate → List Candidate → List Candidate
insert c [] = c ∷ []
insert c (d ∷ ds) = if ltb c.modify_index d.modify_index then d ∷ insert c ds else c ∷ d ∷ ds

abbrev pub newest_first : List Candidate → List Candidate
newest_first [] = []
newest_first (c ∷ cs) = insert c (newest_first cs)

module _ (env : Env) where
  -- A call of which only matters whether it raises.
  abbrev pub do_call : Call → Action (Unit {0})
  do_call c = call env c >>= λ _. pure tt

  -- `Heartbeat.propagate`
  unfoldable pub propagate : Action (Unit {0})
  propagate = call env Call.heartbeat_failed >>= λ failed. only_if failed (raise runtime_error)

  -- The first candidate that answers a ping.
  unfoldable pub first_viable : List Candidate → Action (Option ℕ)
  first_viable [] = pure none
  first_viable (c ∷ cs) = do
    answers ← try_exception (do_call (Call.pinged c.url) >> pure true) (pure false)
    when answers then pure (some c.url) else first_viable cs

  unfoldable pub look_for_service : Action (Option ℕ)
  look_for_service = do
    new_config ← call env Call.new_config_sought
    when new_config
        then raise config_changed
        else (do candidates ← list_services env; first_viable (newest_first candidates))

  -- `connect`: the address of the service that was found.
  unfoldable pub connect : Action ℕ
  connect = do
    timeout ← time_out env (3600 * second) (3 * second) true
    found ← while_ticking env (fuel_for (3600 * second) (3 * second)) timeout look_for_service
    option found (raise runtime_error) pure

  -- The part of `acquire_migration_locks` that asks the other host: is its lock taken?
  unfoldable pub acquire_remote : Action Bool
  acquire_remote =
      try_exception
        (do
          taken ← call env Call.remote_lock_asked
          when taken
              then (propagate >> pure true)
              else (do_call Call.local_lock_released >> pure false))
        (do_call Call.local_lock_released >> pure false)

  -- The part of a round that asks for the locks; `again` is the next round.
  unfoldable pub acquire_both : Action (Unit {0}) → Action (Unit {0})
  acquire_both again = do
    here ← call env Call.local_lock_asked
    both ← when here then acquire_remote else pure false
    when both then pure tt else again

  -- A round with its random interval, in slots of 10 ms.
  unfoldable pub acquire_round : ℕ → (ℕ → Action (Unit {0})) → Action (Unit {0})
  acquire_round tries again = do
    slots ← random env (2 ^ tries)
    new_config ← call env Call.new_config_sought
    when new_config
        then (do_call Call.remote_cancelled >> raise config_changed)
        else (propagate >> acquire_both (again slots))

  -- The loop of `acquire_migration_locks`, with its number of tries.
  unfoldable pub acquire_loop : ℕ → TimeOut → ℕ → Action (Unit {0})
  acquire_loop zero t tries = diverge
  acquire_loop (suc fuel) t tries = do
    x ← tick env t
    only_if x.1 (
        acquire_round (min (tries + 1) 11) (λ slots.
          acquire_loop fuel (let t' = x.0 in record t' { interval = slots * 10 })
            (min (tries + 1) 11)))

  unfoldable pub acquire_migration_locks : ℕ → Action (Unit {0})
  acquire_migration_locks fuel = do
    timeout ← time_out env (43200 * second) (3 * second) true
    acquire_loop fuel timeout 0

  unfoldable pub transfer_ceph_locks : Action (Unit {0})
  transfer_ceph_locks = Ceph.unlock env >> do_call Call.remote_ceph_locks_asked

  -- What `poll_migration_status` does with the timeout: the interval grows while it is below 10 s.
  abbrev pub slower : TimeOut → TimeOut
  slower t = record t {
    interval = (if ltb t.interval (10 * second) then t.interval * 14142 / 10000 else t.interval);
    cutoff = t.cutoff + 30 * second;
  }

  abbrev pub by_status : MigrationStatus → Action (Unit {0}) → Action (Unit {0})
  by_status setup go_on = go_on
  by_status active go_on = go_on
  by_status completed go_on = pure tt
  by_status other go_on = raise invalid_migration_status

  -- The loop over `poll_migration_status`.
  unfoldable pub poll : ℕ → TimeOut → Action (Unit {0})
  poll zero t = diverge
  poll (suc fuel) t = do
    x ← tick env t
    only_if x.1
        (do status ← query_migrate env; propagate; by_status status (poll fuel (slower x.0)))

  -- `migrate`. `migration_ended` answers whether the VM is stopped in the state postmigrate.
  unfoldable pub migrate : ℕ → Action (Unit {0})
  migrate fuel = do
    do_call Call.config_read
    do_call Call.incoming_prepared
    do_call Call.migration_started
    timeout ← time_out env (30 * second) second true
    poll fuel timeout
    ended ← call env Call.migration_ended
    only_if (not ended) (raise assertion_error)
    destroy_vm env true
    try_exception (do_call Call.incoming_finished) (pure tt)

  -- The end of `rescue`.
  unfoldable pub continue_locally : Action (Unit {0})
  continue_locally =
      try_exception
        (do Ceph.lock env; running ← is_running env; only_if (not running) (raise assertion_error))
        (destroy_vm env false)

  -- `rescue`, where `connected` says that there is a target: the exit code.
  unfoldable pub rescue : Bool → Action ℕ
  rescue connected = do
    rescued ←
        when connected
        then try_exception
            (do_call Call.remote_rescued
              >> do_call Call.incoming_finished
              >> destroy_vm env true
              >> pure true)
            (try_exception (do_call Call.remote_destroyed) (pure tt) >> pure false)
        else pure false
    when rescued then pure 0 else (continue_locally >> pure 1)

  -- The part of `__exit__` for an exception. The class has no method `destroy`.
  unfoldable pub leave_failed : Bool → Action ℕ
  leave_failed connected = try_except (rescue connected) (λ _. raise attribute_error)

  -- The part of `__exit__` without one.
  unfoldable pub leave : Action ℕ
  leave = do
    try_exception (do_call Call.local_lock_released) (pure tt)
    try_exception (do_call Call.remote_lock_released) (pure tt)
    pure 0

  -- `__call__`: whether the body went well, or else whether there was a target by then.
  unfoldable pub transfer : ℕ → Action (Unit {0})
  transfer fuel = acquire_migration_locks fuel >> transfer_ceph_locks >> migrate fuel

  unfoldable pub run_outgoing : ℕ → Action ℕ
  run_outgoing fuel = do
    connected ← try_except (connect >>= λ _. pure true) (λ _. pure false)
    when connected
        then (do
          fine ← try_except (transfer fuel >> pure true) (λ _. pure false)
          when fine then leave else leave_failed true)
        else leave_failed false
