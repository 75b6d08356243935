-- ===== src/Throttle/Settled.antt =====
-- What `ensure_online_disk_throttle` comes to.
use mathlib.Core.Path.{subst, sym}
use fc_qemu.Base.{
  not, Bool, if◌then◌else◌, ℕ, ◌≡◌, refl, ◌⊎◌, inl, inr, true, false, List, [], ◌∷◌, some, All,
  Result, ok, err, stuck, Bool-cases, ◌==◌, ==_iff,
}
use fc_qemu.Throttle.{
  Key, Settings, iops_settings, same, Drives, block_info, and_then, throttle, Pool, Cfg, target,
  ensure_online_disk_throttle,
}
use fc_qemu.Throttle.Target.{Throttled, target-Throttled, set-Throttled}

-- What Qemu's documentation says of `block_set_io_throttle`: it sets what it is given, on the disk that
-- it names, and leaves the other disks alone.
pub record Sets (block_io_throttle : ℕ → Settings → Drives → Result Drives) : Type 0 where
  pub own :
      (d : ℕ) (t : Settings) (s s' : Drives) (k : Key) (n : ℕ)
      → block_io_throttle d t s ≡ ok s'
      → t k ≡ some n
      → s' d k ≡ some n
  pub others :
      (d e : ℕ) (t : Settings) (s s' : Drives)
      → block_io_throttle d t s ≡ ok s'
      → (e == d) ≡ false
      → s' e ≡ s e

and_then_ok :
    {A B : Type 0} (r : Result A) (f : A → Result B) (b : B)
    → and_then r f ≡ ok b
    → (a : A) × (r ≡ ok a) × (f a ≡ ok b)
and_then_ok (ok a) f b h = (a, refl, h)
and_then_ok (err e) f b h = absurd cc
and_then_ok stuck f b h = absurd cc

module _ (block_io_throttle : ℕ → Settings → Drives → Result Drives)
    (documented : Sets block_io_throttle) (t : Settings) (T : Settings → Type 0)
    (at : (x : Settings) → same (iops_settings x) t ≡ true → T x)
    (set : (x : Settings) → ((k : Key) (v : ℕ) → t k ≡ some v → x k ≡ some v) → T x) where
  -- As it was, or with the target.
  abbrev Settles : Settings → Settings → Type 0
  Settles x y = (y ≡ x) ⊎ T y

  -- A turn of the loop.
  abbrev turn : ℕ → Settings → Drives → Result Drives
  turn d x u = if not (same (iops_settings x) t) then block_io_throttle d t u else ok u

  set_T : (d : ℕ) (u u' : Drives) → block_io_throttle d t u ≡ ok u' → T (u' d)
  set_T d u u' h = set (u' d) (λ k v e. documented.own d t u u' k v h e)

  set_keeps :
      (d e : ℕ) (z : Settings) (u u' : Drives)
      → block_io_throttle d t u ≡ ok u'
      → Settles z (u e)
      → Settles z (u' e)
  set_keeps d e z u u' h k = elim (Bool-cases (e == d)) [
    | inl y ↦ inr (rw ((==_iff e d).0 y) (set_T d u u' h))
    | inr n ↦ rw (documented.others d e t u u' h n) k
  ]

  turn_keeps :
      (d e : ℕ) (x z : Settings) (u u' : Drives)
      → turn d x u ≡ ok u'
      → Settles z (u e)
      → Settles z (u' e)
  turn_keeps d e x z u u' h k = decided (same (iops_settings x) t) h
    where
      decided :
          (b : Bool) → (if not b then block_io_throttle d t u else ok u) ≡ ok u' → Settles z (u' e)
      decided true h = let p : u ≡ u' = cc in subst (λ v. Settles z (v e)) p k
      decided false h = set_keeps d e z u u' h k

  turn_settles :
      (d : ℕ) (x : Settings) (u u' : Drives) → turn d x u ≡ ok u' → Settles x (u d) → T (u' d)
  turn_settles d x u u' h k = decided (same (iops_settings x) t) refl h
    where
      settled : same (iops_settings x) t ≡ true → Settles x (u d) → T (u d)
      settled e (inl p) = subst T (sym p) (at x e)
      settled e (inr y) = y

      decided :
          (b : Bool)
          → same (iops_settings x) t ≡ b
          → (if not b then block_io_throttle d t u else ok u) ≡ ok u'
          → T (u' d)
      decided true e h = let p : u ≡ u' = cc in subst (λ v. T (v d)) p (settled e k)
      decided false e h = set_T d u u' h

  loop_keeps :
      (names : List ℕ) (s u u' : Drives) (e : ℕ)
      → throttle block_io_throttle t (block_info names s) u ≡ ok u'
      → T (u e)
      → T (u' e)
  unfolding throttle
  loop_keeps [] s u u' e h k = let p : u ≡ u' = cc in subst (λ v. T (v e)) p k
  loop_keeps (d ∷ ds) s u u' e h k =
      let (u1, a, b) = and_then_ok _ _ _ h in
      loop_keeps ds s u1 u' e b
        (elim (turn_keeps d e (s d) (u e) u u1 a (inr k)) [ inl p ↦ subst T (sym p) k | inr y ↦ y ])

  pub loop-T :
      (names : List ℕ) (s u u' : Drives)
      → throttle block_io_throttle t (block_info names s) u ≡ ok u'
      → ((e : ℕ) → Settles (s e) (u e))
      → All (λ d. T (u' d)) names
  unfolding throttle
  loop-T [] s u u' h k = tt
  loop-T (d ∷ ds) s u u' h k =
      let (u1, a, b) = and_then_ok _ _ _ h in
      (
        loop_keeps ds s u1 u' d b (turn_settles d (s d) u u1 a (k d)),
        loop-T ds s u1 u' b (λ e. turn_keeps d e (s d) (s e) u u1 a (k e)),
      )

-- After a run of `ensure_online_disk_throttle` that raises nothing every disk has the limits that the
-- configurations of the VM and of its pool ask for, where the command sets what it is given on the
-- disk that it names, and leaves the others alone.
pub ensure_online_disk_throttle-Throttled :
    (block_io_throttle : ℕ → Settings → Drives → Result Drives)
    → Sets block_io_throttle
    → (cfg : Cfg) (pool : Pool) (names : List ℕ) (s s' : Drives)
    → ensure_online_disk_throttle block_io_throttle cfg pool names s ≡ ok s'
    → All (λ d. Throttled cfg pool (s' d)) names
unfolding ensure_online_disk_throttle
ensure_online_disk_throttle-Throttled set documented cfg pool names s s' h =
    let (t, made, run) = and_then_ok (target cfg pool) _ s' h in
    loop-T set documented t (Throttled cfg pool) (λ x. target-Throttled cfg pool t x made)
      (λ x. set-Throttled cfg pool t x made) names s s s' run (λ e. inl refl)
