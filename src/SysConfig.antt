-- ===== src/SysConfig.antt =====
-- The settings of a host: sysconfig.py. A configuration is what `configparser` makes of the files: the
-- sections in their order, each with its options. `float` is that of Python, for one setting.
pub mod Hooks
pub mod Sections
pub mod Throttles
use fc_qemu.Base.{
  ℕ, Bool, true, false, not, ◌&&◌, ◌||◌, Option, none, some, List, [], ◌∷◌, map, any, is_empty, leb,
  Result, ok, err, stuck, config_error, value_error, runtime_error, ◌==◌, ◌+◌, if◌then◌else◌,
}
use fc_qemu.Util.Text.{Text, ℤ, chars, same, lstrip, int}
use fc_qemu.Util.Parse.{Dict, get, assign_all}
use fc_qemu.Config.{◌>>=◌}

abbrev pub Sections : Type 0
Sections = Dict (Dict Text)

-- The group of `block-throttle-(?P<section>[a-zA-Z\.0-9]+)`, which need not reach the end of the name.
abbrev pub is_pool_char : ℕ → Bool
is_pool_char c =
    leb b'a' c && leb c b'z' || leb b'A' c && leb c b'Z' || leb b'0' c && leb c b'9' || c == b'.'

unfoldable pub pool_chars : Text → Text
pool_chars [] = []
pool_chars (c ∷ s) = let rest = pool_chars s in if is_pool_char c then c ∷ rest else []

-- What is behind the literal part of a pattern.
unfoldable pub after : Text → Text → Option Text
after [] s = some s
after (d ∷ w) [] = none
after (d ∷ w) (c ∷ s) = let rest = after w s in if c == d then rest else none

abbrev pub throttle_prefix : Text
throttle_prefix = chars "block-throttle-"

abbrev pub group : Text → Option Text
group s = elim (pool_chars s) [ [] ↦ none | c ∷ cs ↦ some (c ∷ cs) ]

-- The name of the pool in the name of a section.
unfoldable pub match : Text → Option Text
match s = elim (after throttle_prefix s) [ none ↦ none | some rest ↦ group rest ]

abbrev pub section_match : Text × Dict Text → Option (Text × Dict Text)
section_match (name, items) = elim (match name) [ none ↦ none | some pool ↦ some (pool, items) ]

unfoldable pub section_matches_as_dicts : Sections → Sections
section_matches_as_dicts sections = assign_all section_match sections []

abbrev pub int_of : Text → Result ℤ
int_of s = elim (int s) [ none ↦ err value_error | some n ↦ ok n ]

unfoldable pub int_items : Dict Text → Result (Dict ℤ)
int_items [] = ok []
int_items ((k, v) ∷ items) = int_of v >>= λ n. int_items items >>= λ ns. ok ((k, n) ∷ ns)

unfoldable pub int_sections : Sections → Result (Dict (Dict ℤ))
int_sections [] = ok []
int_sections ((pool, items) ∷ more) =
    int_items items >>= λ ns. int_sections more >>= λ rest. ok ((pool, ns) ∷ rest)

unfoldable pub block_throttle : Sections → Result (Dict (Dict ℤ))
block_throttle sections = int_sections (section_matches_as_dicts sections)

-- `key.lstrip("tap-")` takes characters, not a prefix.
abbrev pub is_tap : ℕ → Bool
is_tap c = c == b't' || c == b'a' || c == b'p' || c == b'-'

abbrev pub hook : Text × Text → Option (Text × Text)
hook (key, path) = some (lstrip is_tap key, path)

unfoldable pub network_hooks : Dict Text → Dict Text
network_hooks items = assign_all hook items []

-- `cp.items`
abbrev pub items : Sections → Text → Result (Dict Text)
items cp section = elim (get section cp) [ none ↦ err config_error | some d ↦ ok d ]

-- `cp.get`, `cp.getint`, `cp.getboolean`
abbrev pub option_of : Sections → Text → Text → Result Text
option_of cp section key =
    items cp section >>= λ d. elim (get key d) [ none ↦ err config_error | some v ↦ ok v ]

abbrev pub get_int : Sections → Text → Text → Result ℤ
get_int cp section key = option_of cp section key >>= int_of

abbrev pub lower : Text → Text
lower s = map (λ c. if leb b'A' c && leb c b'Z' then c + 32 else c) s

abbrev pub is_one_of : Text → List Text → Bool
is_one_of s ws = any (same (lower s)) ws

abbrev pub boolean : Text → Result Bool
boolean s =
    if is_one_of s (chars "1" ∷ chars "yes" ∷ chars "true" ∷ chars "on" ∷ [])
    then ok true
    else (if is_one_of s (chars "0" ∷ chars "no" ∷ chars "false" ∷ chars "off" ∷ [])
        then ok false
        else err value_error)

-- `cp.get` with `fallback`
abbrev pub get_or : Sections → Text → Text → Text → Text
get_or cp section key fallback = elim (option_of cp section key) [ ok v ↦ v | _ ↦ fallback ]

pub record QemuSettings (F : Type 0) : Type 0 where
  pub migration_address : Text
  pub require_kvm : Bool
  pub vnc : Text
  pub max_downtime : F
  pub migration_bandwidth : ℤ
  pub vm_max_total_memory : ℤ
  pub vm_expected_overhead : ℤ
  pub throttle : Dict (Dict ℤ)

pub record AgentSettings : Type 0 where
  pub consul_token : Text
  pub consul_event_threads : ℤ
  pub accelerator : Text
  pub machine_type : Text
  pub migration_ctl_address : Text
  pub binary_generation : ℤ
  pub timeout_graceful : ℤ
  pub vhost : Bool
  pub maintenance_evacuation_timeout : ℤ
  pub hooks : Dict Text
  pub this_host : Text
  pub ceph_id : Text

pub record CephSettings : Type 0 where
  pub client : Text
  pub cluster : Text
  pub conf : Text
  pub lock_host : Text
  pub create_vm : Text
  pub mkfs_xfs : Text
  pub mkfs_vfat : Text

-- `read_config_files`, once the files are read.
unfoldable pub read_config_files : Sections → Result Sections
read_config_files cp = elim (get (chars "qemu") cp) [ none ↦ err runtime_error | some d ↦ ok cp ]

unfoldable pub load_qemu : {F : Type 0} → (Text → Result F) → Sections → Result (QemuSettings F)
load_qemu float cp =
    option_of cp (chars "qemu") (chars "migration-address") >>= λ migration_address.
    option_of cp (chars "qemu") (chars "accelerator") >>= λ accelerator.
    option_of cp (chars "qemu") (chars "vnc") >>= λ vnc.
    option_of cp (chars "qemu") (chars "max-downtime") >>= float >>= λ max_downtime.
    get_int cp (chars "qemu") (chars "migration-bandwidth") >>= λ migration_bandwidth.
    get_int cp (chars "qemu") (chars "vm-max-total-memory") >>= λ vm_max_total_memory.
    get_int cp (chars "qemu") (chars "vm-expected-overhead") >>= λ vm_expected_overhead.
    block_throttle cp >>= λ throttle. ok (record {
      migration_address = migration_address;
      require_kvm = not (is_empty accelerator);
      vnc = vnc;
      max_downtime = max_downtime;
      migration_bandwidth = migration_bandwidth;
      vm_max_total_memory = vm_max_total_memory;
      vm_expected_overhead = vm_expected_overhead;
      throttle = throttle;
    })

unfoldable pub load_agent : Sections → Result AgentSettings
load_agent cp = option_of cp (chars "consul") (chars "access-token") >>= λ consul_token.
    get_int cp (chars "consul") (chars "event-threads") >>= λ consul_event_threads.
    option_of cp (chars "qemu") (chars "accelerator") >>= λ accelerator.
    option_of cp (chars "qemu") (chars "machine-type") >>= λ machine_type.
    option_of cp (chars "qemu") (chars "migration-ctl-address") >>= λ migration_ctl_address.
    get_int cp (chars "qemu") (chars "binary-generation") >>= λ binary_generation.
    get_int cp (chars "qemu") (chars "timeout-graceful") >>= λ timeout_graceful.
    option_of cp (chars "qemu") (chars "vhost") >>= boolean >>= λ vhost.
    get_int cp (chars "qemu") (chars "maintenance-evacuation-timeout") >>= λ evacuation.
    items cp (chars "network") >>= λ network.
    option_of cp (chars "ceph") (chars "lock_host") >>= λ this_host.
    option_of cp (chars "ceph") (chars "client-id") >>= λ ceph_id. ok (record {
      consul_token = consul_token;
      consul_event_threads = consul_event_threads;
      accelerator = accelerator;
      machine_type = machine_type;
      migration_ctl_address = migration_ctl_address;
      binary_generation = binary_generation;
      timeout_graceful = timeout_graceful;
      vhost = vhost;
      maintenance_evacuation_timeout = evacuation;
      hooks = network_hooks network;
      this_host = this_host;
      ceph_id = ceph_id;
    })

unfoldable pub load_ceph : Sections → Result CephSettings
load_ceph cp = option_of cp (chars "ceph") (chars "ceph-conf") >>= λ conf.
    option_of cp (chars "ceph") (chars "lock_host") >>= λ lock_host.
    option_of cp (chars "ceph") (chars "create-vm") >>= λ create_vm.
    option_of cp (chars "ceph") (chars "mkfs-xfs") >>= λ mkfs_xfs.
    option_of cp (chars "ceph") (chars "mkfs-vfat") >>= λ mkfs_vfat. ok (record {
      client = get_or cp (chars "ceph") (chars "client-id") (chars "admin");
      cluster = get_or cp (chars "ceph") (chars "cluster") (chars "ceph");
      conf = conf;
      lock_host = lock_host;
      create_vm = create_vm;
      mkfs_xfs = mkfs_xfs;
      mkfs_vfat = mkfs_vfat;
    })

unfoldable pub load_system_config :
    {F : Type 0}
    → (Text → Result F)
    → Sections
    → Result (QemuSettings F × (AgentSettings × CephSettings))
load_system_config float files = read_config_files files >>= λ cp.
    load_qemu float cp >>= λ q. load_agent cp >>= λ a. load_ceph cp >>= λ c. ok (q, (a, c))
