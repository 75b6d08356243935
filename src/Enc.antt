-- ===== src/Enc.antt =====
-- The settings of a VM: `swap_size`, `tmp_size` and `_update_from_enc` of agent.py. The
-- square roots of the code are floats; their whole part is that of the exact root, as long as the memory and the disk
-- are below 2 ^ 42.
pub mod Sizes
use fc_qemu.Base.{
  ℕ, zero, suc, ◌+◌, ◌*◌, ◌^◌, max, Bool, true, false, Option, none, some, List, [], ◌∷◌, Result,
  ok, err, stuck, runtime_error, leb, if◌then◌else◌,
}
use fc_qemu.Util.Text.{Text, chars}
use fc_qemu.Util.Parse.{Dict}
use fc_qemu.Config.Template.{format}
use fc_qemu.Config.{◌>>=◌}

-- `int(math.sqrt(n))`
unfoldable pub isqrt : ℕ → ℕ
isqrt zero = 0
isqrt (suc n) = let r = isqrt n in if leb ((r + 1) * (r + 1)) (suc n) then r + 1 else r

abbrev pub mib : ℕ
mib = 1024 * 1024

abbrev pub gib : ℕ
gib = 1024 * 1024 * 1024

-- `int(max(1024, 32 * sqrt(memory)))` MiB, where 32 times the root is the root of 1024 times the memory.
unfoldable pub swap_size : ℕ → ℕ
swap_size memory = max 1024 (isqrt (1024 * memory)) * mib

unfoldable pub tmp_size : ℕ → ℕ
tmp_size disk = max 5 (isqrt disk) * gib

-- What is read of the ENC data.
pub record Enc : Type 0 where
  pub name : Text
  pub disk : ℕ
  pub memory : ℕ
  pub cpu_model : Option Text
  pub consul_generation : ℕ

-- The computed part of `cfg`, and the attributes of the agent.
pub record Cfg : Type 0 where
  pub name : Text
  pub root_size : ℕ
  pub swap_size : ℕ
  pub tmp_size : ℕ
  pub cidata_size : ℕ
  pub ceph_id : Text
  pub cpu_model : Text
  pub binary_generation : ℕ
  pub consul_generation : ℕ
  pub migration_ctl_address : Text
  pub vm_config_template : Text

-- The first template that exists.
unfoldable pub find_template : (Text → Bool) → List Text → Result Text
find_template exists [] = err runtime_error
find_template exists (t ∷ ts) =
    let rest = find_template exists ts in if exists t then ok t else rest

abbrev pub cpu_model_or : Option Text → Text
cpu_model_or none = chars "qemu64"
cpu_model_or (some m) = m

-- `_update_from_enc`, with the settings of the host, the candidates for the template, and `cfg` as texts
-- for the address.
unfoldable pub update_from_enc :
    (ceph_id : Text) (binary_generation : ℕ) (address : Text) (cfg : Dict Text)
    → (Text → Bool)
    → List Text
    → Enc
    → Result Cfg
update_from_enc ceph_id binary_generation address cfg exists templates enc =
    format address cfg >>= λ migration_ctl_address.
    find_template exists templates >>= λ vm_config_template. ok (record {
      name = enc.name;
      root_size = enc.disk * gib;
      swap_size = swap_size enc.memory;
      tmp_size = tmp_size enc.disk;
      cidata_size = 10 * mib;
      ceph_id = ceph_id;
      cpu_model = cpu_model_or enc.cpu_model;
      binary_generation = binary_generation;
      consul_generation = enc.consul_generation;
      migration_ctl_address = migration_ctl_address;
      vm_config_template = vm_config_template;
    })
