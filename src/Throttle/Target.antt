-- ===== src/Throttle/Target.antt =====
-- The target of `ensure_online_disk_throttle`, and the disks that have it.
use mathlib.Core.Path.{subst, sym}
use fc_qemu.Base.{
  Bool, ◌&&◌, all, if◌then◌else◌, ℕ, ◌*◌, min, ◌≡◌, refl, ◌⊎◌, ◌↔◌, inl, inr, true, false, Option,
  List, [], ◌∷◌, none, some, All, ok, arith, key_error, err, Bool-cases, ◌==◌, ==_iff,
}
use fc_qemu.Throttle.{
  Key, value, same_value, or_else, is_zero, known_keys, iops, iops_rd, iops_wr, iops_rd_max,
  iops_wr_max, iops_rd_max_length, iops_wr_max_length, bps, bps_rd, bps_wr, Settings, iops_settings,
  same, Pool, Cfg, target, target_for,
}

-- What is reported under a key, and 0 where nothing is.
abbrev pub reported : Settings → Key → ℕ
reported x k = elim (x k) [ none ↦ 0 | some n ↦ n ]

-- The setting of the VM, else that of its pool, else the default.
abbrev pub chosen : Option ℕ → Option ℕ → ℕ → ℕ
chosen (some n) _ d = n
chosen none (some n) d = n
chosen none none d = d

-- A disk with `n` operations and `b` bytes per second either way, and bursts of up to `m` operations
-- for `l` seconds.
abbrev pub Limited : (n b m l : ℕ) → Settings → Type 0
Limited n b m l x =
    (reported x iops ≡ 0)
    × (reported x bps ≡ 0)
    × (reported x iops_rd ≡ n)
    × (reported x iops_wr ≡ n)
    × (reported x bps_rd ≡ b)
    × (reported x bps_wr ≡ b)
    × (reported x iops_rd_max ≡ m)
    × (reported x iops_wr_max ≡ m)
    × ((m ≡ 0) ⊎ ((reported x iops_rd_max_length ≡ l) × (reported x iops_wr_max_length ≡ l)))

-- The limits that the configuration asks for: the burst is the factor times the operations, and 25000 at
-- most.
abbrev pub Throttled : Cfg → Pool → Settings → Type 0
Throttled cfg pool =
    let n = chosen cfg.iops pool.iops 250 in
    Limited n (chosen cfg.bps pool.bps (250 * 1048576))
      (min (n * chosen cfg.burst_factor pool.burst_factor 10) 25000)
      (chosen cfg.burst pool.burst_length 60)

same_value_lem : (x y : Option ℕ) → same_value x y ≡ true → x ≡ y
same_value_lem none none h = refl
same_value_lem none (some n) h = absurd cc
same_value_lem (some m) none h = absurd cc
same_value_lem (some m) (some n) h = rw ((==_iff m n).0 h) refl

both_true : (a b : Bool) → (a && b) ≡ true → (a ≡ true) × (b ≡ true)
both_true true b h = (refl, h)
both_true false b h = absurd cc

all_same :
    (a t : Settings) (ks : List Key)
    → all (λ k. same_value (a k) (t k)) ks ≡ true
    → All (λ k. a k ≡ t k) ks
all_same a t [] h = tt
all_same a t (k ∷ ks) h =
    let (x, y) = both_true _ _ h in (same_value_lem (a k) (t k) x, all_same a t ks y)

-- A value over the default 0.
over_zero :
    (o : Option ℕ) (n : ℕ) → or_else o (some 0) ≡ some n → elim o [ none ↦ 0 | some k ↦ k ] ≡ n
over_zero none n h = cc
over_zero (some k) n h = cc

length_lem :
    (o l : Option ℕ) (m n : ℕ)
    → o ≡ some m
    → (if is_zero o then none else or_else l (some 0)) ≡ (if is_zero (some m) then none else some n)
    → (m ≡ 0) ⊎ (elim l [ none ↦ 0 | some k ↦ k ] ≡ n)
length_lem o l m n p h = ground arith

either : {A B C : Type 0} → A ⊎ B → A ⊎ C → A ⊎ (B × C)
either (inl a) y = inl a
either (inr b) (inl a) = inl a
either (inr b) (inr c) = inr (b, c)

same-Limited :
    (n b f l : ℕ) (x : Settings)
    → same (iops_settings x) (target_for n b f l) ≡ true
    → Limited n b (min (n * f) 25000) l x
same-Limited n b f l x h =
    let (a, (c, (d, (e, (g, (i, (j, (q, (r, (u, _)))))))))) =
      all_same (iops_settings x) (target_for n b f l) known_keys h in
    let m = min (n * f) 25000 in
    (
      over_zero (x iops) 0 a,
      over_zero (x bps) 0 q,
      over_zero (x iops_rd) n c,
      over_zero (x iops_wr) n d,
      over_zero (x bps_rd) b u,
      over_zero (x bps_wr) b r,
      over_zero (x iops_rd_max) m e,
      over_zero (x iops_wr_max) m i,
      either (length_lem _ (x iops_rd_max_length) m l e g)
          (length_lem _ (x iops_wr_max_length) m l i j),
    )

-- The target, by what the configurations set.
made_lem :
    (ci pi cb pb cl pl cf pf : Option ℕ) (t : Settings)
    → target
        (record { iops = ci; bps = cb; burst = cl; burst_factor = cf })
        (record { iops = pi; bps = pb; burst_length = pl; burst_factor = pf })
      ≡ ok t
    → target_for
        (value ci (value pi 250))
        (value cb (value pb (250 * 1048576)))
        (chosen cf pf 10)
        (chosen cl pl 60)
      ≡ t
unfolding target
made_lem ci pi cb pb cl pl none none t h = absurd cc
made_lem ci pi cb pb cl pl (some f) none t h = absurd cc
made_lem ci pi cb pb none none none (some g) t h = absurd cc
made_lem ci pi cb pb (some l) none none (some g) t h = absurd cc
made_lem ci pi cb pb none none (some f) (some g) t h = absurd cc
made_lem ci pi cb pb (some l) none (some f) (some g) t h = absurd cc
made_lem ci pi cb pb none (some k) none (some g) t h = cc
made_lem ci pi cb pb (some l) (some k) none (some g) t h = cc
made_lem ci pi cb pb none (some k) (some f) (some g) t h = cc
made_lem ci pi cb pb (some l) (some k) (some f) (some g) t h = cc

value-chosen : (o p : Option ℕ) (d : ℕ) → value o (value p d) ≡ chosen o p d
value-chosen (some n) p d = refl
value-chosen none (some n) d = refl
value-chosen none none d = refl

pub target-Throttled :
    (cfg : Cfg) (pool : Pool) (t : Settings) (x : Settings)
    → target cfg pool ≡ ok t
    → same (iops_settings x) t ≡ true
    → Throttled cfg pool x
target-Throttled cfg pool t x h k =
    rw (← value-chosen cfg.iops pool.iops 250, ← value-chosen cfg.bps pool.bps (250 * 1048576))
      (same-Limited _ _ _ _ x (
        subst (λ u. same (iops_settings x) u ≡ true)
          (sym (
            made_lem cfg.iops pool.iops cfg.bps pool.bps cfg.burst pool.burst_length
              cfg.burst_factor pool.burst_factor t h))
          k))

some_lem : (x : Settings) (k : Key) (n : ℕ) → x k ≡ some n → reported x k ≡ n
some_lem x k n h = rw (h, reported) refl

set-Limited :
    (n b f l : ℕ) (x : Settings)
    → ((k : Key) (v : ℕ) → target_for n b f l k ≡ some v → x k ≡ some v)
    → Limited n b (min (n * f) 25000) l x
set-Limited n b f l x own =
    let m = min (n * f) 25000 in
    (
      get iops 0 refl,
      get bps 0 refl,
      get iops_rd n refl,
      get iops_wr n refl,
      get bps_rd b refl,
      get bps_wr b refl,
      get iops_rd_max m refl,
      get iops_wr_max m refl,
      elim (Bool-cases (m == 0)) [
        | inl z ↦ inl ((==_iff m 0).0 z)
        | inr z ↦ inr (get iops_rd_max_length l (rw z refl), get iops_wr_max_length l (rw z refl))
      ],
    )
  where
    get : (k : Key) (v : ℕ) → target_for n b f l k ≡ some v → reported x k ≡ v
    get k v h = some_lem x k v (own k v h)

-- A disk that has what the target sets.
pub set-Throttled :
    (cfg : Cfg) (pool : Pool) (t : Settings) (x : Settings)
    → target cfg pool ≡ ok t
    → ((k : Key) (v : ℕ) → t k ≡ some v → x k ≡ some v)
    → Throttled cfg pool x
set-Throttled cfg pool t x h k =
    rw (← value-chosen cfg.iops pool.iops 250, ← value-chosen cfg.bps pool.bps (250 * 1048576))
      (set-Limited _ _ _ _ x (
        subst (λ u. (k : Key) (v : ℕ) → u k ≡ some v → x k ≡ some v)
          (sym (
            made_lem cfg.iops pool.iops cfg.bps pool.bps cfg.burst pool.burst_length
              cfg.burst_factor pool.burst_factor t h))
          k))

-- The target cannot be made exactly if the pool's section lacks the burst length or factor, even where
-- the VM's configuration sets both.
pub target-fails :
    (cfg : Cfg) (pool : Pool)
    → (target cfg pool ≡ err key_error) ↔ ((pool.burst_factor ≡ none) ⊎ (pool.burst_length ≡ none))
unfolding target
target-fails cfg pool = ((λ h. ground arith), (λ h. ground arith))
