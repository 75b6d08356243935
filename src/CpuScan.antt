-- ===== src/CpuScan.antt =====
-- The CPU models that Qemu supports on a host: `QemuHost.detect` and `scan_cpus` of hazmat/cpuscan.py,
-- and `report_supported_cpu_models` of agent.py.
pub mod Variations
use fc_qemu.Base.{
  ℕ, zero, suc, Bool, true, false, Option, none, some, List, [], ◌∷◌, ◌++◌, map, Result, ok, err,
  length, value_error, runtime_error, attribute_error, stuck, ◌==◌, if◌then◌else◌,
}
use fc_qemu.Util.Text.{Text, chars, same, starts_with, split, is_space, strip, splitlines}
use fc_qemu.Config.Words.{text_le}

pub record CpuHost : Type 0 where
  pub cpu_models : List Text
  pub bug_flags : List Text

abbrev pub amd_host : CpuHost
amd_host = record {
  cpu_models =
      chars "qemu64-v1"
      ∷ chars "EPYC-v1"
      ∷ chars "EPYC-v2"
      ∷ chars "EPYC-v3"
      ∷ chars "EPYC-Rome-v1"
      ∷ [];
  bug_flags =
      chars "ibpb"
      ∷ chars "virt-ssbd"
      ∷ chars "amd-ssbd"
      ∷ chars "amd-no-ssb"
      ∷ chars "pdpe1gb"
      ∷ [];
}

abbrev pub intel_host : CpuHost
intel_host = record {
  cpu_models =
      chars "Broadwell-v1"
      ∷ chars "Broadwell-v2"
      ∷ chars "Broadwell-v3"
      ∷ chars "Broadwell-v4"
      ∷ chars "Cascadelake-Server-v1"
      ∷ chars "Cascadelake-Server-v2"
      ∷ chars "Haswell-v1"
      ∷ chars "Haswell-v2"
      ∷ chars "Haswell-v3"
      ∷ chars "Haswell-v4"
      ∷ chars "IvyBridge-v1"
      ∷ chars "IvyBridge-v2"
      ∷ chars "Nehalem-v1"
      ∷ chars "Nehalem-v2"
      ∷ chars "SandyBridge-v1"
      ∷ chars "SandyBridge-v2"
      ∷ chars "Skylake-Server-v1"
      ∷ chars "Skylake-Server-v2"
      ∷ chars "Westmere-v1"
      ∷ chars "Westmere-v2"
      ∷ chars "qemu64-v1"
      ∷ [];
  bug_flags = chars "pcid" ∷ chars "spec-ctrl" ∷ chars "ssbd" ∷ chars "pdpe1gb" ∷ [];
}

-- The host of a vendor. `none` is what `detect` returns for a vendor that it does not know.
abbrev pub host_of : Text → Option CpuHost
host_of vendor =
    if same vendor (chars "AuthenticAMD")
    then some amd_host
    else (if same vendor (chars "GenuineIntel") then some intel_host else none)

abbrev pub vendor_of : List Text → Result (Option CpuHost)
vendor_of (_ ∷ vendor ∷ []) = ok (host_of (strip is_space vendor))
vendor_of _ = err value_error

-- The lines of /proc/cpuinfo, of which the first that names a vendor counts.
unfoldable pub detect : List Text → Result (Option CpuHost)
detect [] = err runtime_error
detect (line ∷ lines) =
    let rest = detect lines in
    if starts_with line (chars "vendor_id") then vendor_of (split b':' line) else rest

-- `itertools.combinations(flags, n)`
unfoldable pub combinations : List Text → ℕ → List (List Text)
combinations flags zero = [] ∷ []
combinations [] (suc n) = []
combinations (f ∷ flags) (suc n) =
    map (λ fs. f ∷ fs) (combinations flags n) ++ combinations flags (suc n)

-- The loop over the sizes up to `n`.
unfoldable pub combinations_to : List Text → ℕ → List (List Text)
combinations_to flags zero = combinations flags zero
combinations_to flags (suc n) = combinations_to flags n ++ combinations flags (suc n)

-- `sorted(set(flags))`
unfoldable pub insert_flag : Text → List Text → List Text
insert_flag f [] = f ∷ []
insert_flag f (g ∷ gs) =
    let rest = insert_flag f gs in
    if same f g then g ∷ gs else (if text_le f g then f ∷ g ∷ gs else g ∷ rest)

unfoldable pub sorted_set : List Text → List Text
sorted_set [] = []
sorted_set (f ∷ fs) = insert_flag f (sorted_set fs)

pub record Variation : Type 0 where
  pub model : Text
  pub flags : List Text

abbrev pub new_variation : Text → List Text → Variation
new_variation model flags = record { model = model; flags = sorted_set flags }

abbrev pub commas : List Text → Text
commas [] = []
commas (f ∷ fs) = b',' ∷ f ++ commas fs

pub cpu_arg : Variation → Text
cpu_arg v = v.model ++ commas v.flags

unfoldable pub variations : List Text → List (List Text) → List Variation
variations [] combos = []
variations (m ∷ ms) combos = map (new_variation m) combos ++ variations ms combos

-- The runs of Qemu, of which `accepts` says whether they end with the exit code 0.
unfoldable pub valid : (Text → Bool) → List Variation → List Variation
valid accepts [] = []
valid accepts (v ∷ vs) =
    let rest = valid accepts vs in
    if accepts (cpu_arg v ++ chars ",enforce") then v ∷ rest else rest

unfoldable pub scan_cpus : (Text → Bool) → CpuHost → List Variation
scan_cpus accepts host =
    valid accepts
      (variations host.cpu_models (combinations_to host.bug_flags (length host.bug_flags)))

-- What goes to the directory; without a host there is an AttributeError.
unfoldable pub report_supported_cpu_models : (Text → Bool) → List Text → Result (List Text)
report_supported_cpu_models accepts cpuinfo = elim (detect cpuinfo) [
  | ok (some host) ↦ ok (map cpu_arg (scan_cpus accepts host))
  | ok none ↦ err attribute_error
  | err e ↦ err e
  | stuck ↦ stuck
]
