-- ===== src/Throttle.antt =====
-- The throttling of the disks: `iops_settings`, `nonzero` and `ensure_online_disk_throttle` of
-- agent.py.
pub mod Target
pub mod Settled
use fc_qemu.Base.{
  ℕ, ◌+◌, ◌*◌, min, Bool, true, false, not, ◌&&◌, Option, none, some, List, [], ◌∷◌, all, Result,
  ok, err, stuck, Exc, key_error, ◌==◌, if◌then◌else◌,
}

-- The settings that there are, and every other name.
pub data Key : Type 0 where
  iops iops_rd iops_wr iops_rd_max iops_rd_max_length iops_wr_max iops_wr_max_length : Key
  bps bps_wr bps_rd other : Key

abbrev pub index : Key → ℕ
index iops = 0
index iops_rd = 1
index iops_wr = 2
index iops_rd_max = 3
index iops_rd_max_length = 4
index iops_wr_max = 5
index iops_wr_max_length = 6
index bps = 7
index bps_wr = 8
index bps_rd = 9
index other = 10

abbrev pub known_keys : List Key
known_keys =
    iops ∷ iops_rd ∷ iops_wr ∷ iops_rd_max ∷ iops_rd_max_length ∷ iops_wr_max ∷ iops_wr_max_length
    ∷ bps ∷ bps_wr ∷ bps_rd ∷ []

-- A dict of settings: what a key has, if anything.
abbrev pub Settings : Type 0
Settings = Key → Option ℕ

abbrev pub zero_if_known : Key → Option ℕ
zero_if_known other = none
zero_if_known _ = some 0

abbrev pub or_else : Option ℕ → Option ℕ → Option ℕ
or_else none d = d
or_else (some n) d = some n

-- The keyword arguments over the defaults; unknown ones are ignored.
abbrev pub overridden : Settings → Settings
overridden kw other = none
overridden kw k = or_else (kw k) (some 0)

abbrev pub is_zero : Option ℕ → Bool
is_zero none = false
is_zero (some n) = n == 0

abbrev pub iops_settings : Settings → Settings
iops_settings kw iops_rd_max_length =
    if is_zero (overridden kw iops_rd_max) then none else overridden kw iops_rd_max_length
iops_settings kw iops_wr_max_length =
    if is_zero (overridden kw iops_wr_max) then none else overridden kw iops_wr_max_length
iops_settings kw k = overridden kw k

-- `nonzero`
abbrev pub nonzero : Settings → Settings
nonzero d k = if is_zero (d k) then none else d k

abbrev pub same_value : Option ℕ → Option ℕ → Bool
same_value none none = true
same_value (some m) (some n) = m == n
same_value _ _ = false

-- The test `current == target`.
abbrev pub same : Settings → Settings → Bool
same a b = all (λ k. same_value (a k) (b k)) known_keys

-- The throttle section of a pool: `settings.update(block_throttle[pool])`. The defaults of the code
-- are under `burst_length` and `burst_factor`, which it does not read.
pub record Pool : Type 0 where
  pub iops : Option ℕ
  pub bps : Option ℕ
  pub burst_length : Option ℕ
  pub burst_factor : Option ℕ

-- What the configuration of the VM sets.
pub record Cfg : Type 0 where
  pub iops : Option ℕ
  pub bps : Option ℕ
  pub burst : Option ℕ
  pub burst_factor : Option ℕ

abbrev pub value : Option ℕ → ℕ → ℕ
value none d = d
value (some n) d = n

abbrev pub get : Option ℕ → Option ℕ → Result ℕ
get x none = err key_error
get none (some d) = ok d
get (some n) (some d) = ok n

abbrev pub target_for : (iops bps factor length : ℕ) → Settings
target_for n b factor length = iops_settings given
  where
    given : Settings
    given iops_rd = some n
    given iops_rd_max = some (min (n * factor) 25000)
    given iops_rd_max_length = some length
    given iops_wr = some n
    given iops_wr_max = some (min (n * factor) 25000)
    given iops_wr_max_length = some length
    given bps_wr = some b
    given bps_rd = some b
    given _ = none

-- `self.cfg.get(k, settings[k])` evaluates the default first.
unfoldable pub target : Cfg → Pool → Result Settings
target cfg pool = with_factor (get cfg.burst_factor pool.burst_factor)
  where
    n : ℕ
    n = value cfg.iops (value pool.iops 250)

    b : ℕ
    b = value cfg.bps (value pool.bps (250 * 1048576))

    with_length : ℕ → Result ℕ → Result Settings
    with_length factor (ok length) = ok (target_for n b factor length)
    with_length factor (err e) = err e
    with_length factor stuck = stuck

    with_factor : Result ℕ → Result Settings
    with_factor (ok factor) = with_length factor (get cfg.burst pool.burst_length)
    with_factor (err e) = err e
    with_factor stuck = stuck

-- A disk, in the reply to `query-block`: its name, and what is inserted.
pub record Device : Type 0 where
  pub device : ℕ
  pub inserted : Settings

-- What Qemu has set for each disk.
abbrev pub Drives : Type 0
Drives = ℕ → Settings

-- `block_info`, where the disks have the names `names`.
abbrev pub block_info : List ℕ → Drives → List Device
block_info [] s = []
block_info (d ∷ ds) s = record { device = d; inserted = s d } ∷ block_info ds s

abbrev pub and_then : {A B : Type 0} → Result A → (A → Result B) → Result B
and_then (ok a) f = f a
and_then (err e) f = err e
and_then stuck f = stuck

-- The loop over the disks, where `block_io_throttle d t` is the command of that name: what is set
-- afterwards, or its failure.
module _ (block_io_throttle : ℕ → Settings → Drives → Result Drives) where
  unfoldable pub throttle : Settings → List Device → Drives → Result Drives
  throttle t [] s = ok s
  throttle t (d ∷ ds) s =
      and_then
        (if not (same (iops_settings d.inserted) t) then block_io_throttle d.device t s else ok s)
        (throttle t ds)

  unfoldable pub ensure_online_disk_throttle : Cfg → Pool → List ℕ → Drives → Result Drives
  ensure_online_disk_throttle cfg pool names s =
      and_then (target cfg pool) (λ t. throttle t (block_info names s) s)
