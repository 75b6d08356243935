-- ===== src/Command/Codes.antt =====
-- The code that a command exits with.
use fc_qemu.Base.{
  ℕ, ◌≡◌, Bool, Option, controlled_runtime_exception, keyboard_interrupt, system_exit, ok, err,
  stuck, if◌then◌else◌, Result, arith,
}
use fc_qemu.World.{Action, World, when◌then◌else◌, try_except, try_finally, pure, raise, ◌>>=◌}
use fc_qemu.Command.{handle, main, or_ok, ex_unavailable, with_agent}

-- What the process exits with, by the outcome of the command: `err` is an exception that ends the
-- interpreter.
pub expected : Option ℕ → Result (Option ℕ) → Result ℕ
expected code (ok r) = ok (or_ok r)
expected code (err controlled_runtime_exception) = ok 1
expected code (err system_exit) = ok (or_ok code)
expected code (err keyboard_interrupt) = err keyboard_interrupt
expected code (err _) = ok ex_unavailable
expected code stuck = stuck

-- The command as it is run between `__enter__` and `__exit__`.
pub body :
    Action (Unit {0})
    → Bool
    → Action (Unit {0})
    → Action (Unit {0})
    → Action (Option ℕ)
    → Action (Option ℕ)
body load vm enter leave func = load >>= λ _. when vm then with_agent enter leave func else func

-- A command exits with its return value or 0, with 1 after a controlled exception, with the code of a
-- SystemExit, and with EX_UNAVAILABLE after any other exception; a KeyboardInterrupt and a loop that is
-- out of fuel go through.
pub main-expected :
    (code : Option ℕ) (load : Action (Unit {0})) (vm : Bool) (enter leave : Action (Unit {0}))
    (func : Action (Option ℕ)) (w : World)
    → (main code load vm enter leave func w).0 ≡ expected code (body load vm enter leave func w).0
unfolding main handle with_agent expected body when◌then◌else◌ ◌>>=◌ pure raise try_except
    try_finally
main-expected code load vm enter leave func w = ground arith
