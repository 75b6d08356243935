-- ===== src/Tests/Commands.antt =====
-- Examples for the commands of the agent and the migration.
use fc_qemu.Base.{◌≡◌, ℕ, refl, true, some, none, inl, Option, arith, Bool}
use fc_qemu.World.{Env, Request, Ends, On, Action, pure}
use fc_qemu.Tests.{calm, busy, idle, calm-ClockRuns}
use fc_qemu.Timeout.Ends.{Returns, Terminates}
use fc_qemu.Qemu.{is_running}
use fc_qemu.Qemu.Running.{Shows, True, is_running-Shows}
use fc_qemu.Agent.{stop, locked}
use fc_qemu.Agent.Careful.{Careful}
use fc_qemu.Agent.Commands.{stop-Careful}
use fc_qemu.Agent.Locked.{Level, Fails_at, KeepsLevel, locked-Level}
use fc_qemu.Qemu.Ends.{is_running-Terminates}
use fc_qemu.Incoming.{serve, run_incoming}
use fc_qemu.Incoming.Success.{Confirmed, Anything, run_incoming-success}
use fc_qemu.Incoming.Cookies.{Authenticated, serve-Authenticated}
use fc_qemu.Maintenance.{maintenance_enter}
use fc_qemu.Maintenance.Ready.{Promised, NoMatter, maintenance_enter-Promised}
use fc_qemu.Outgoing.{acquire_migration_locks, run_outgoing}
use fc_qemu.Outgoing.Locks.{Guarded, Locked, acquire_migration_locks-Both}
use fc_qemu.Outgoing.Guard.{run_outgoing-Guarded}

is_running-Shows_example : Ends (λ b. Shows busy (some b)) (λ _. True busy) (is_running busy idle)
is_running-Shows_example = is_running-Shows busy idle tt

stop-Careful_example : Ends (λ _. On Careful) (λ _. On Careful) (stop busy 5000 idle)
stop-Careful_example = stop-Careful busy 5000 idle tt

run_outgoing-Guarded_example : Ends (λ _. Guarded) (λ _. Guarded) (run_outgoing busy 9 idle)
run_outgoing-Guarded_example = run_outgoing-Guarded busy 9 idle tt

acquire_migration_locks-Both_example :
    Ends (λ _. Locked busy) (λ _. Guarded) (acquire_migration_locks busy 9 idle)
acquire_migration_locks-Both_example = acquire_migration_locks-Both busy 9 idle tt

three : Action ℕ
three = pure 3

three_keeps : KeepsLevel 1 three
unfolding three pure
three_keeps w h = h

locked-Level_example : Ends (λ _. Level 0) (Fails_at 0) (locked calm true three idle)
locked-Level_example = locked-Level calm true 0 three three_keeps idle (refl, refl, inl refl)

nothing_yet : Action (Option Bool)
nothing_yet = pure none

nothing_yet-Terminates : Terminates calm nothing_yet
unfolding nothing_yet pure
nothing_yet-Terminates w = ((λ s. s), omega arith)

is_running-Terminates_example : Returns calm idle (is_running calm idle)
is_running-Terminates_example = is_running-Terminates calm calm-ClockRuns idle

abbrev stranger : Env
stranger = record calm { take_request = λ _. some (6, Request.destroy) }

serve-Authenticated_example :
    Ends
      (λ _. Authenticated stranger idle)
      (λ _. Authenticated stranger idle)
      (serve stranger 4 1 idle)
serve-Authenticated_example = serve-Authenticated stranger 4 1 idle

-- The other side asks to finish the migration, and the VM runs.
abbrev finishing : Env
finishing = record busy { take_request = λ _. some (5, Request.finish_incoming) }

run_incoming-success_example :
    Ends
      (λ code w. code ≡ 0 → Confirmed finishing w.trace)
      (Anything finishing)
      (run_incoming finishing 4 1 idle)
run_incoming-success_example = run_incoming-success finishing 4 1 idle refl

maintenance_enter-Promised_example :
    Ends (Promised calm) NoMatter (maintenance_enter calm 60000 idle)
maintenance_enter-Promised_example = maintenance_enter-Promised calm 60000 idle tt
