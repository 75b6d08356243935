-- ===== src/Base/Exceptions.antt =====
-- exc.py and the built-in exceptions that the code raises or catches, and the outcome of a call.
use mathlib.Core.Bool.{Bool, true, false}

-- `os_error` is also `IOError`, `socket.error` and `socket.timeout`, which Python makes one class.
pub data Exc : Type 0 where
  lock_error migration_error destruction_error qemu_not_running invalid_command : Exc
  vm_config_not_found vm_state_inconsistent config_changed environment_changed : Exc
  controlled_runtime_exception timeout_error runtime_error invalid_migration_status : Exc
  image_not_found image_busy image_exists not_implemented_error : Exc
  called_process_error timeout_expired assertion_error value_error key_error index_error
        attribute_error type_error :
      Exc
  os_error qmp_connect_error client_error fault : Exc
  config_error eof_error : Exc
  system_exit keyboard_interrupt : Exc

-- `except Exception` takes all but the last two. `config_error` is `configparser.Error`.
abbrev pub is_exception : Exc → Bool
is_exception system_exit = false
is_exception keyboard_interrupt = false
is_exception _ = true

-- RuntimeError and its subclasses.
abbrev pub is_runtime_error : Exc → Bool
is_runtime_error runtime_error = true
is_runtime_error lock_error = true
is_runtime_error migration_error = true
is_runtime_error destruction_error = true
is_runtime_error invalid_command = true
is_runtime_error vm_config_not_found = true
is_runtime_error vm_state_inconsistent = true
is_runtime_error controlled_runtime_exception = true
is_runtime_error timeout_error = true
is_runtime_error client_error = true
is_runtime_error not_implemented_error = true
is_runtime_error _ = false

-- `stuck` is a loop that was given too little fuel; no handler catches it.
pub data Result (A : Type 0) : Type 0 where
  ok : A → Result A
  err : Exc → Result A
  stuck : Result A

-- What a call to the outside comes back with.
pub data Reply (A : Type 0) : Type 0 where
  returns : A → Reply A
  raises : Exc → Reply A

abbrev pub result : {A : Type 0} → Reply A → Result A
result (returns a) = ok a
result (raises e) = err e
