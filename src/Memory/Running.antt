-- ===== src/Memory/Running.antt =====
-- The VMs that run, and the memory that `_current_vms_booked_memory` counts for them.
use fc_qemu.Base.{
  ℕ, ◌+◌, ◌*◌, ◌≡◌, refl, true, List, ◌∷◌, Result, ok, err, stuck, arith, [], length, true, false,
}
use fc_qemu.Memory.{
  Argument, qemu_system, m_flag, number, word, gone, memory_flag, then_add, Process, alive,
  booked_memory,
}

-- The number after the first `-m` of a command line.
pub data HasMemory : List Argument → ℕ → Type 0 where
  flag : (m : ℕ) (args : List Argument) → HasMemory (m_flag ∷ number m ∷ args) m
  after_system :
      (m : ℕ) (args : List Argument) → HasMemory args m → HasMemory (qemu_system ∷ args) m
  after_word : (m : ℕ) (args : List Argument) → HasMemory args m → HasMemory (word ∷ args) m
  after_number : (n m : ℕ) (args : List Argument) → HasMemory args m → HasMemory (number n ∷ args) m

-- The VMs that run, by the memory that their command lines give them. A process that is gone, that has
-- another name or that runs another program is none.
pub data Runs : List Process → List ℕ → Type 0 where
  nothing : Runs [] []
  ended : (ps : List Process) (ms : List ℕ) → Runs ps ms → Runs (gone ∷ ps) ms
  unnamed :
      (args : List Argument) (ps : List Process) (ms : List ℕ)
      → Runs ps ms
      → Runs (alive false args ∷ ps) ms
  empty : (ps : List Process) (ms : List ℕ) → Runs ps ms → Runs (alive true [] ∷ ps) ms
  another :
      (a : Argument) (args : List Argument) (ps : List Process) (ms : List ℕ)
      → ¬ (a ≡ qemu_system)
      → Runs ps ms
      → Runs (alive true (a ∷ args) ∷ ps) ms
  vm :
      (m : ℕ) (args : List Argument) (ps : List Process) (ms : List ℕ)
      → HasMemory args m
      → Runs ps ms
      → Runs (alive true (qemu_system ∷ args) ∷ ps) (m ∷ ms)

abbrev pub sum : List ℕ → ℕ
sum [] = 0
sum (m ∷ ms) = m + sum ms

-- What VMs of the memory `ms` take, each with the overhead.
abbrev pub taken : ℕ → List ℕ → ℕ
taken overhead ms = sum ms + length ms * overhead

HasMemory-flag : (m : ℕ) (args : List Argument) → HasMemory args m → memory_flag args ≡ ok m
HasMemory-flag m _ (flag _ args) = refl
HasMemory-flag m _ (after_system _ args h) = HasMemory-flag m args h
HasMemory-flag m _ (after_word _ args h) = HasMemory-flag m args h
HasMemory-flag m _ (after_number n _ args h) = HasMemory-flag m args h

flag-HasMemory : (m : ℕ) (args : List Argument) → memory_flag args ≡ ok m → HasMemory args m
flag-HasMemory m [] h = absurd cc
flag-HasMemory m (m_flag ∷ []) h = absurd cc
flag-HasMemory m (m_flag ∷ number n ∷ args) h = let p : n ≡ m = cc in rw (← p) (flag n args)
flag-HasMemory m (m_flag ∷ qemu_system ∷ args) h = absurd cc
flag-HasMemory m (m_flag ∷ m_flag ∷ args) h = absurd cc
flag-HasMemory m (m_flag ∷ word ∷ args) h = absurd cc
flag-HasMemory m (qemu_system ∷ args) h = after_system m args (flag-HasMemory m args h)
flag-HasMemory m (word ∷ args) h = after_word m args (flag-HasMemory m args h)
flag-HasMemory m (number n ∷ args) h = after_number n m args (flag-HasMemory m args h)

pub Runs-booked :
    (overhead : ℕ) (ps : List Process) (ms : List ℕ)
    → Runs ps ms
    → booked_memory overhead ps ≡ ok (taken overhead ms)
unfolding booked_memory
Runs-booked overhead _ _ nothing = ground arith
Runs-booked overhead _ _ (ended ps ms r) = Runs-booked overhead ps ms r
Runs-booked overhead _ _ (unnamed args ps ms r) = Runs-booked overhead ps ms r
Runs-booked overhead _ _ (empty ps ms r) = Runs-booked overhead ps ms r
Runs-booked overhead _ _ (another qemu_system args ps ms n r) = absurd (n refl)
Runs-booked overhead _ _ (another m_flag args ps ms n r) = Runs-booked overhead ps ms r
Runs-booked overhead _ _ (another word args ps ms n r) = Runs-booked overhead ps ms r
Runs-booked overhead _ _ (another (number k) args ps ms n r) = Runs-booked overhead ps ms r
Runs-booked overhead _ _ (vm m args ps ms h r) =
    rw (HasMemory-flag m args h, Runs-booked overhead ps ms r) (ground arith)

pub booked-Runs :
    (overhead n : ℕ) (ps : List Process)
    → booked_memory overhead ps ≡ ok n
    → (ms : List ℕ) × Runs ps ms × (n ≡ taken overhead ms)
unfolding booked_memory
booked-Runs overhead n [] h = ([], nothing, ground arith)
booked-Runs overhead n (gone ∷ ps) h =
    let (ms, r, e) = booked-Runs overhead n ps h in (ms, ended ps ms r, e)
booked-Runs overhead n (alive false args ∷ ps) h =
    let (ms, r, e) = booked-Runs overhead n ps h in (ms, unnamed args ps ms r, e)
booked-Runs overhead n (alive true [] ∷ ps) h =
    let (ms, r, e) = booked-Runs overhead n ps h in (ms, empty ps ms r, e)
booked-Runs overhead n (alive true (m_flag ∷ args) ∷ ps) h =
    let (ms, r, e) = booked-Runs overhead n ps h in (ms, another m_flag args ps ms (λ q. cc) r, e)
booked-Runs overhead n (alive true (word ∷ args) ∷ ps) h =
    let (ms, r, e) = booked-Runs overhead n ps h in (ms, another word args ps ms (λ q. cc) r, e)
booked-Runs overhead n (alive true (number k ∷ args) ∷ ps) h =
    let (ms, r, e) = booked-Runs overhead n ps h in
    (ms, another (number k) args ps ms (λ q. cc) r, e)
booked-Runs overhead n (alive true (qemu_system ∷ args) ∷ ps) h =
    both (λ k. booked-Runs overhead k ps) (memory_flag args) (booked_memory overhead ps) refl refl h
  where
    both :
        (rest : (k : ℕ)
          → booked_memory overhead ps ≡ ok k
          → (ms : List ℕ) × Runs ps ms × (k ≡ taken overhead ms))
        (x y : Result ℕ)
        → memory_flag args ≡ x
        → booked_memory overhead ps ≡ y
        → then_add overhead x y ≡ ok n
        → (ms : List ℕ) × Runs (alive true (qemu_system ∷ args) ∷ ps) ms × (n ≡ taken overhead ms)
    both rest (ok m) (ok k) f b e =
        let (ms, r, q) = rest k b in
        (m ∷ ms, vm m args ps ms (flag-HasMemory m args f) r, ground (arith, e, q))
    both rest (ok m) (err x) f b e = absurd cc
    both rest (ok m) stuck f b e = absurd cc
    both rest (err x) y f b e = absurd cc
    both rest stuck y f b e = absurd cc
