-- ===== src/Memory/Booking.antt =====
-- `_verify_memory`: what it lets through.
use fc_qemu.Base.{
  ℕ, ◌+◌, ◌*◌, ◌≤◌, ◌≡◌, ◌⊎◌, ◌↔◌, refl, true, List, ◌∷◌, Result, ok, err, stuck, arith, inl, inr,
  true,
}
use fc_qemu.Memory.{
  mi_b, Argument, qemu_system, m_flag, number, Process, alive, booked_memory, verify_memory,
}
use fc_qemu.Memory.Running.{Runs, taken, Runs-booked, booked-Runs}

-- What the memory check is for: the booked memory with the new VM stays within the limit, if there is
-- one, and the host has the memory.
abbrev pub Fits : (memory overhead limit available booked : ℕ) → Type 0
Fits memory overhead limit available booked =
    ((limit ≡ 0) ⊎ (booked + (memory + overhead) ≤ limit))
    × ((memory + overhead) * mi_b ≤ available)

-- Where the booked memory can be read, a VM passes exactly if it fits.
fits_lem :
    (memory overhead limit available booked : ℕ) (ps : List Process)
    → booked_memory overhead ps ≡ ok booked
    → (verify_memory memory overhead limit available ps ≡ ok tt)
      ↔ Fits memory overhead limit available booked
unfolding verify_memory
fits_lem memory overhead limit available booked ps h =
    rw h ((λ k. ground arith), (λ k. ground arith))

-- A new VM passes exactly if the command line of each VM that runs gives its memory, and the new one
-- fits in beside what these take, the overhead of each included.
pub verify_memory-Fits :
    (memory overhead limit available : ℕ) (ps : List Process)
    → (verify_memory memory overhead limit available ps ≡ ok tt)
      ↔ ((ms : List ℕ) × Runs ps ms × Fits memory overhead limit available (taken overhead ms))
unfolding verify_memory
verify_memory-Fits memory overhead limit available ps = (there, back)
  where
    there :
        verify_memory memory overhead limit available ps ≡ ok tt
        → (ms : List ℕ) × Runs ps ms × Fits memory overhead limit available (taken overhead ms)
    there h = split (booked_memory overhead ps) refl
      where
        split :
            (r : Result ℕ)
            → booked_memory overhead ps ≡ r
            → (ms : List ℕ) × Runs ps ms × Fits memory overhead limit available (taken overhead ms)
        split (ok n) e =
            let (ms, r, q) = booked-Runs overhead n ps e in
            (ms, r, rw (← q) ((fits_lem memory overhead limit available n ps e).0 h))
        split (err x) e = absurd (ground arith)
        split stuck e = absurd (ground arith)

    back :
        ((ms : List ℕ) × Runs ps ms × Fits memory overhead limit available (taken overhead ms))
        → verify_memory memory overhead limit available ps ≡ ok tt
    back (ms, r, f) =
        (fits_lem memory overhead limit available (taken overhead ms) ps
            (Runs-booked overhead ps ms r)).1
          f

-- Where a VM has passed and its process then runs, the booked memory can be read and is within the
-- limit, if there is one.
pub verify_memory-booked :
    (memory overhead limit available : ℕ) (ps : List Process) (rest : List Argument)
    → verify_memory memory overhead limit available ps ≡ ok tt
    → (limit ≡ 0)
      ⊎ ((total : ℕ) × (booked_memory overhead
              (alive true (qemu_system ∷ m_flag ∷ number memory ∷ rest) ∷ ps)
            ≡ ok total)
          × (total ≤ limit))
unfolding verify_memory booked_memory
verify_memory-booked memory overhead limit available ps rest h =
    split (booked_memory overhead ps) refl
  where
    split :
        (r : Result ℕ)
        → booked_memory overhead ps ≡ r
        → (limit ≡ 0)
          ⊎ ((total : ℕ) × (booked_memory overhead
                  (alive true (qemu_system ∷ m_flag ∷ number memory ∷ rest) ∷ ps)
                ≡ ok total)
              × (total ≤ limit))
    split (ok n) e = elim ((fits_lem memory overhead limit available n ps e).0 h).0 [
      | inl z ↦ inl z
      | inr le ↦ inr (memory + overhead + n, rw e refl, omega (arith, le))
    ]
    split (err x) e = absurd (ground arith)
    split stuck e = absurd (ground arith)
