-- ===== src/Memory.antt =====
-- The memory of a host: `_current_vms_booked_memory` and `_verify_memory` of class Qemu in
-- hazmat/qemu.py, and `check` of class Agent in agent.py. Sizes are in bytes, or in MiB where it is
-- said.
pub mod Running
pub mod Booking
pub mod Health
use fc_qemu.Base.{
  ℕ, zero, suc, ◌+◌, ◌*◌, Bool, true, false, not, ◌&&◌, ◌||◌, Option, none, some, List, [], ◌∷◌,
  Result, ok, err, Exc, controlled_runtime_exception, index_error, ltb, ◌==◌, if◌then◌else◌,
  is_empty, stuck,
}

abbrev pub mi_b : ℕ
mi_b = 1048576

abbrev pub gi_b : ℕ
gi_b = 1073741824

-- An argument of a command line. `number` is one that `int` reads.
pub data Argument : Type 0 where
  qemu_system m_flag word : Argument
  number : ℕ → Argument

-- A process: gone by the time that it is looked at, or with its command line. `named_kvm` says that
-- its name starts with `kvm.`.
pub data Process : Type 0 where
  gone : Process
  alive : (named_kvm : Bool) (cmdline : List Argument) → Process

-- The argument after the first `-m`. A missing `-m` or a word is a ValueError, which the code catches;
-- an `-m` at the end is an IndexError, which it does not.
abbrev pub to_int : Argument → Result ℕ
to_int (number n) = ok n
to_int _ = err controlled_runtime_exception

abbrev pub first_int : List Argument → Result ℕ
first_int [] = err index_error
first_int (a ∷ args) = to_int a

abbrev pub memory_flag : List Argument → Result ℕ
memory_flag [] = err controlled_runtime_exception
memory_flag (m_flag ∷ args) = first_int args
memory_flag (_ ∷ args) = memory_flag args

abbrev pub is_vm : Process → Bool
is_vm (alive true (qemu_system ∷ args)) = true
is_vm _ = false

abbrev pub cmdline_of : Process → List Argument
cmdline_of gone = []
cmdline_of (alive b args) = args

abbrev pub then_add : ℕ → Result ℕ → Result ℕ → Result ℕ
then_add overhead (ok memory) (ok total) = ok (memory + overhead + total)
then_add overhead (ok memory) r = r
then_add overhead r _ = r

-- `_current_vms_booked_memory`, in MiB: the sum, or the failure of the first process that fails.
unfoldable pub booked_memory : ℕ → List Process → Result ℕ
booked_memory overhead [] = ok 0
booked_memory overhead (p ∷ ps) =
    let total = booked_memory overhead ps in
    if is_vm p then then_add overhead (memory_flag (cmdline_of p)) total else total

-- The test of `_verify_memory`: `available` is in bytes, the others are in MiB, and a `limit` of 0 is
-- none. The code subtracts below 0.
abbrev pub is_insufficient : (limit available required current : ℕ) → Bool
is_insufficient limit available required current =
    (not (limit == 0) && ltb limit (current + required)) || ltb available (required * mi_b)

abbrev pub verdict_on : (limit available required : ℕ) → Result ℕ → Result (Unit {0})
verdict_on limit available required (ok current) =
    if is_insufficient limit available required current
    then err controlled_runtime_exception
    else ok tt
verdict_on limit available required (err e) = err e
verdict_on limit available required stuck = stuck

unfoldable pub verify_memory :
    (memory overhead limit available : ℕ) → List Process → Result (Unit {0})
verify_memory memory overhead limit available ps =
    verdict_on limit available (memory + overhead) (booked_memory overhead ps)

-- What `memory_full_info` says of a process.
pub record Usage : Type 0 where
  pub swap : ℕ
  pub pss : ℕ

-- A VM: its memory and overhead in MiB, and what it uses, or none where that cannot be read.
pub record Vm : Type 0 where
  pub name : ℕ
  pub memory : ℕ
  pub overhead : ℕ
  pub usage : Option Usage

-- The Nagios codes.
pub data Code : Type 0 where
  fine warning critical : Code

-- The variables of `check`.
pub record Tally : Type 0 where
  pub large_overhead_vms : List ℕ
  pub swapping_vms : List ℕ
  pub total : ℕ
  pub expected : ℕ

abbrev pub is_large : Vm → Usage → Bool
is_large vm u = ltb (vm.memory * mi_b + 2 * vm.overhead * mi_b) u.pss

abbrev pub is_swapping : Usage → Bool
is_swapping u = ltb (1 * gi_b) u.swap

abbrev pub count_usage : Vm → Usage → Tally → Tally
count_usage vm u t = record {
  large_overhead_vms =
      (if is_large vm u then vm.name ∷ t.large_overhead_vms else t.large_overhead_vms);
  swapping_vms = (if is_swapping u then vm.name ∷ t.swapping_vms else t.swapping_vms);
  total = t.total + u.pss;
  expected = t.expected + (vm.memory * mi_b + vm.overhead * mi_b);
}

abbrev pub count_vm : Vm → Tally → Tally
count_vm vm t = count_used vm.usage
  where
    count_used : Option Usage → Tally
    count_used none = t
    count_used (some u) = count_usage vm u t

-- The loop of `check`. It lists names in the reverse of the code's order.
abbrev pub count_vms : List Vm → Tally → Tally
count_vms [] t = t
count_vms (vm ∷ vms) t = count_vms vms (count_vm vm t)

abbrev pub no_vms : Tally
no_vms = record { large_overhead_vms = []; swapping_vms = []; total = 0; expected = 0 }

-- The value of `result` at the end of `check`.
abbrev pub code : Tally → Code
code t =
    if ltb t.expected t.total
    then critical
    else (if is_empty t.large_overhead_vms && is_empty t.swapping_vms then fine else warning)

unfoldable pub check : List Vm → Code
check vms = code (count_vms vms no_vms)
