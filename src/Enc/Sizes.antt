-- ===== src/Enc/Sizes.antt =====
-- The sizes of the swap and tmp disks.
use fc_qemu.Base.{
  ℕ, zero, suc, ◌+◌, ◌*◌, ◌≤◌, ◌<◌, max, ◌-◌, List, Result, ok, sym, ◌≡◌, refl, ap, ◌⊎◌, inl, inr,
  Bool, Bool-cases, leb, arith, if◌then◌else◌,
}
use fc_qemu.Util.Text.{Text}
use fc_qemu.Util.Parse.{Dict}
use fc_qemu.Config.Template.{format}
use fc_qemu.Config.Bind.{bind_ok}
use fc_qemu.Enc.{isqrt, mib, gib, swap_size, tmp_size, Enc, Cfg, find_template, update_from_enc}

-- The whole part of the root.
abbrev pub IsRoot : ℕ → ℕ → Type 0
IsRoot r n = (r * r ≤ n) × (n < (r + 1) * (r + 1))

square : (a : ℕ) → (a + 1) * (a + 1) ≡ a * a + (a + a + 1)
square a = omega arith

next-IsRoot :
    (r n : ℕ) → IsRoot r n → IsRoot (if leb ((r + 1) * (r + 1)) (suc n) then r + 1 else r) (suc n)
next-IsRoot r n (h, k) = elim (Bool-cases (leb ((r + 1) * (r + 1)) (suc n))) [
  | inl e ↦ rw e (ground (arith, e), omega (arith, k, square (r + 1)))
  | inr e ↦ rw e (omega (arith, h), ground (arith, e))
]

isqrt-IsRoot : (n : ℕ) → IsRoot (isqrt n) n
unfolding isqrt
isqrt-IsRoot zero = (omega arith, omega arith)
isqrt-IsRoot (suc n) = next-IsRoot (isqrt n) n (isqrt-IsRoot n)

-- A whole number that is `low` or the root of `n`, whichever is larger.
abbrev pub IsSize : ℕ → ℕ → ℕ → Type 0
IsSize low n s = (low ≤ s) × ((n < (s + 1) * (s + 1)) × ((s ≡ low) ⊎ (s * s ≤ n)))

grows : (r d : ℕ) → (r + 1) * (r + 1) ≤ (r + d + 1) * (r + d + 1)
grows r d = omega arith

larger : (low r n : ℕ) → IsRoot r n → IsSize low n (max low r)
larger low r n (h, k) = elim (Bool-cases (leb low r)) [
  | inl e ↦
      let is_root : max low r ≡ r = ground (arith, e) in rw is_root (ground (arith, e), (k, inr h))
  | inr e ↦
      let is_low : max low r ≡ low = ground (arith, e) in
      let more : low ≡ r + (low - r) = ground (arith, e) in
      rw is_low (omega arith, (rw (more) (omega (arith, k, grows r (low - r))), inl refl))
]

-- The swap disk has as many MiB as the root of 1024 times the memory, and the tmp disk as many GiB as the root of the
-- size of the root disk, rounded down, but no less than 1024 and 5.
pub update_from_enc-IsSize :
    (ceph_id : Text) (generation : ℕ) (address : Text) (settings : Dict Text) (exists : Text → Bool)
    (templates : List Text) (enc : Enc) (cfg : Cfg)
    → update_from_enc ceph_id generation address settings exists templates enc ≡ ok cfg
    → ((s : ℕ) × ((cfg.swap_size ≡ s * mib) × IsSize 1024 (1024 * enc.memory) s))
      × ((s : ℕ) × ((cfg.tmp_size ≡ s * gib) × IsSize 5 enc.disk s))
unfolding update_from_enc swap_size tmp_size
update_from_enc-IsSize ceph_id generation address settings exists templates enc cfg h =
    let (a, (_, h1)) = bind_ok (format address settings) _ h in
    let (t, (_, h2)) = bind_ok (find_template exists templates) _ h1 in
    (
      (
        max 1024 (isqrt (1024 * enc.memory)),
        (
          sym (ap (λ r. r.swap_size) (computed h2)),
          larger 1024 (isqrt (1024 * enc.memory)) (1024 * enc.memory)
              (isqrt-IsRoot (1024 * enc.memory)),
        ),
      ),
      (
        max 5 (isqrt enc.disk),
        (
          sym (ap (λ r. r.tmp_size) (computed h2)),
          larger 5 (isqrt enc.disk) enc.disk (isqrt-IsRoot enc.disk),
        ),
      ),
    )
  where
    computed : {c d : Cfg} → ok c ≡ ok d → c ≡ d
    computed {c} e = ap (λ (r : Result Cfg). elim r [ ok x ↦ x | _ ↦ c ]) e
