-- ===== src/Memory/Health.antt =====
-- `check`: its verdict against the sums over the VMs.
use fc_qemu.Base.{
  ℕ, ◌+◌, ◌*◌, ◌≤◌, ◌<◌, ◌≡◌, refl, ◌↔◌, Bool, true, ◌&&◌, List, [], ◌∷◌, Option, none, some, arith,
  All, is_empty,
}
use fc_qemu.Memory.{
  mi_b, gi_b, Usage, Vm, fine, critical, Tally, count_vm, count_vms, no_vms, code, check,
}

-- The memory that the VMs use which can be read, and the memory that is expected of them.
abbrev pub used : List Vm → ℕ
used [] = 0
used (vm ∷ vms) = of_usage vm.usage (used vms)
  where
    of_usage : Option Usage → ℕ → ℕ
    of_usage none n = n
    of_usage (some u) n = u.pss + n

abbrev pub wanted : List Vm → ℕ
wanted [] = 0
wanted (vm ∷ vms) = of_usage vm.usage (wanted vms)
  where
    of_usage : Option Usage → ℕ → ℕ
    of_usage none n = n
    of_usage (some u) n = (vm.memory * mi_b + vm.overhead * mi_b) + n

-- A VM that cannot be read, or that is not too large and has no more than 1 GiB of swap.
abbrev pub IsFine : Vm → Type 0
IsFine vm = of_usage vm.usage
  where
    of_usage : Option Usage → Type 0
    of_usage none = Unit
    of_usage (some u) = (u.pss ≤ (vm.memory + 2 * vm.overhead) * mi_b) × (u.swap ≤ gi_b)

abbrev quiet : Tally → Bool
quiet t = is_empty t.large_overhead_vms && is_empty t.swapping_vms

total_lem : (vms : List Vm) (t : Tally) → (count_vms vms t).total ≡ t.total + used vms
total_lem [] t = ground arith
total_lem (vm ∷ vms) t = rw (total_lem vms (count_vm vm t)) (ground arith)

expected_lem : (vms : List Vm) (t : Tally) → (count_vms vms t).expected ≡ t.expected + wanted vms
expected_lem [] t = ground arith
expected_lem (vm ∷ vms) t = rw (expected_lem vms (count_vm vm t)) (ground arith)

quiet_step : (vm : Vm) (t : Tally) → (quiet (count_vm vm t) ≡ true) ↔ ((quiet t ≡ true) × IsFine vm)
quiet_step vm t = ((λ h. ground arith), (λ h. ground arith))

quiet_lem :
    (vms : List Vm) (t : Tally)
    → (quiet (count_vms vms t) ≡ true) ↔ ((quiet t ≡ true) × All IsFine vms)
quiet_lem [] t = ((λ h. (h, tt)), (λ h. h.0))
quiet_lem (vm ∷ vms) t =
    let step = quiet_step vm t in
    let rest = quiet_lem vms (count_vm vm t) in
    (
      (λ h. let a = rest.0 h in let b = step.0 a.0 in (b.0, (b.1, a.1))),
      (λ h. rest.1 (step.1 (h.0, h.1.0), h.1.1)),
    )

-- `check` is critical exactly if the VMs use more memory in total than is expected of them, and
-- fine exactly if they do not and each of them is fine. VMs that cannot be read do not count.
pub check-verdict :
    (vms : List Vm)
    → ((check vms ≡ critical) ↔ (wanted vms < used vms))
      × ((check vms ≡ fine) ↔ ((used vms ≤ wanted vms) × All IsFine vms))
unfolding check
check-verdict vms =
    let t = count_vms vms no_vms in
    let q = quiet_lem vms no_vms in
    let u : t.total ≡ used vms = omega (arith, total_lem vms no_vms) in
    let x : t.expected ≡ wanted vms = omega (arith, expected_lem vms no_vms) in
    (
      ((λ h. ground (arith, u, x)), (λ h. ground (arith, u, x))),
      (
        (λ h. (ground (arith, u, x), (q.0 (ground arith)).1)),
        (λ h. fine_if t u x (q.1 (refl, h.1)) h.0),
      ),
    )
  where
    fine_if :
        (t : Tally)
        → t.total ≡ used vms
        → t.expected ≡ wanted vms
        → quiet t ≡ true
        → used vms ≤ wanted vms
        → code t ≡ fine
    fine_if t u x k le = ground arith
