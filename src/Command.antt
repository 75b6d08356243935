-- ===== src/Command.antt =====
-- The command line: `main` of main.py from the parsed arguments on, with `__enter__` and `__exit__`
-- of the Agent as actions. A command gives its return value, none for None.
pub mod Codes
use fc_qemu.Base.{
  ℕ, Bool, true, false, Option, none, some, List, [], ◌∷◌, ◌++◌, Exc, controlled_runtime_exception,
  vm_config_not_found, invalid_command, system_exit, is_exception, if◌then◌else◌, ◌==◌, any,
}
use fc_qemu.Util.Text.{Text, split}
use fc_qemu.World.{
  Action, pure, raise, ◌>>=◌, ◌>>◌, when◌then◌else◌, try_except, try_finally, option,
}

abbrev pub ex_ok : ℕ
ex_ok = 0

abbrev pub ex_unavailable : ℕ
ex_unavailable = 69

abbrev pub is_controlled_runtime_exception : Exc → Bool
is_controlled_runtime_exception controlled_runtime_exception = true
is_controlled_runtime_exception _ = false

abbrev pub is_vm_config_not_found_or_invalid_command : Exc → Bool
is_vm_config_not_found_or_invalid_command vm_config_not_found = true
is_vm_config_not_found_or_invalid_command invalid_command = true
is_vm_config_not_found_or_invalid_command _ = false

abbrev pub is_system_exit : Exc → Bool
is_system_exit system_exit = true
is_system_exit _ = false

-- `value or 0`
abbrev pub or_ok : Option ℕ → ℕ
or_ok none = ex_ok
or_ok (some n) = n

-- The handlers, where `code` is the code of a SystemExit.
unfoldable pub handle : Option ℕ → Exc → Action ℕ
handle code e =
    when is_controlled_runtime_exception e
    then pure 1
    else (when is_vm_config_not_found_or_invalid_command e
        then pure ex_unavailable
        else (when is_exception e
            then pure ex_unavailable
            else (when is_system_exit e then pure (or_ok code) else raise e)))

-- `with agent: func()`. `__exit__` gives None, so that an exception goes on.
unfoldable pub with_agent :
    {A : Type 0} → Action (Unit {0}) → Action (Unit {0}) → Action A → Action A
with_agent enter leave func = enter >> try_finally func leave

-- The `try` with its handlers: `load` is the set-up that comes first, `vm` says whether the command
-- is one on a VM. The code is what `sys.exit` gets.
unfoldable pub main :
    Option ℕ
    → Action (Unit {0})
    → Bool
    → Action (Unit {0})
    → Action (Unit {0})
    → Action (Option ℕ)
    → Action ℕ
main code load vm enter leave func =
    try_except
      (load
        >> (when vm
            then (with_agent enter leave func >>= λ r. pure (or_ok r))
            else (func >>= λ r. pure (or_ok r))))
      (handle code)

-- `os.path.basename`
unfoldable pub basename : Text → Text
basename [] = []
basename (c ∷ path) =
    if any (λ d. d == b'/') path then basename path else (if c == b'/' then path else c ∷ path)

abbrev first : List Text → Text
first [] = []
first (w ∷ ws) = w

-- The name of the VM: that of a file where the argument has a dot.
unfoldable pub vm_name : Text → Text
vm_name vm = if any (λ c. c == b'.') vm then first (split b'.' (basename vm)) else vm
