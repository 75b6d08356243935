-- ===== src/Tests/Values.antt =====
-- Examples for the configurations, the memory, the disks and the routes.
use mathlib.Core.Path.{subst}
use fc_qemu.Base.{
  Result, ==_iff, if◌then◌else◌, ℕ, ◌≡◌, refl, ◌↔◌, ◌<◌, ◌≤◌, List, [], ◌∷◌, All, Bool, true, false,
  some, none, ok, arith, ◌||◌, ◌&&◌, not, ◌==◌,
}
use fc_qemu.Staging.{Config, Store, holds, Round, done, environment_changed, ensure}
use fc_qemu.Staging.Updates.{Promise, ensure-Promise}
use fc_qemu.Memory.{
  Process, gone, alive, qemu_system, m_flag, number, word, verify_memory, booked_memory, Vm, check,
  fine, critical,
}
use fc_qemu.Memory.Running.{Runs, taken}
use fc_qemu.Memory.Booking.{Fits, verify_memory-Fits}
use fc_qemu.Memory.Health.{used, wanted, IsFine, check-verdict}
use fc_qemu.Throttle.{
  Settings, Drives, or_else, target, target_for, throttle, ensure_online_disk_throttle, Cfg, Pool,
}
use fc_qemu.Throttle.Target.{Throttled}
use fc_qemu.Throttle.Settled.{Sets, ensure_online_disk_throttle-Throttled}
use fc_qemu.Routes.{Route, Ip, has, filter, current_routes, each, reconcile}
use fc_qemu.Routes.Reconciled.{Works, routed, reconcile-routed}

abbrev first_config : Config
first_config = record { generation = 3; content = 30 }

abbrev second_config : Config
second_config = record { generation = 4; content = 40 }

abbrev old_config : Config
old_config = record { generation = 2; content = 20 }

abbrev store : Store
store = record {
  staging = holds second_config;
  active = holds old_config;
  enc = some old_config;
  generation = some 2;
}

abbrev rounds : List Round
rounds =
    record { staged_before = first_config ∷ []; staged_during = []; outcome = environment_changed }
    ∷ record { staged_before = []; staged_during = second_config ∷ []; outcome = done }
    ∷ []

ensure-Promise_example : Promise store (ensure rounds true store)
ensure-Promise_example = ensure-Promise rounds true store

abbrev one_vm : List Process
one_vm = gone ∷ alive true (qemu_system ∷ word ∷ m_flag ∷ number 2048 ∷ []) ∷ alive false [] ∷ []

verify_memory-Fits_example :
    (verify_memory 1024 512 8192 8000000000 one_vm ≡ ok tt)
    ↔ ((ms : List ℕ) × Runs one_vm ms × Fits 1024 512 8192 8000000000 (taken 512 ms))
verify_memory-Fits_example = verify_memory-Fits 1024 512 8192 8000000000 one_vm

one_vm-verified : verify_memory 1024 512 8192 8000000000 one_vm ≡ ok tt
unfolding verify_memory booked_memory
one_vm-verified = refl

abbrev vms : List Vm
vms =
    record { name = 1; memory = 1024; overhead = 512; usage = none }
    ∷ record {
      name = 2;
      memory = 1;
      overhead = 0;
      usage = some (record { swap = 0; pss = 2000000 });
    }
    ∷ []

check-verdict_example :
    ((check vms ≡ critical) ↔ (wanted vms < used vms))
    × ((check vms ≡ fine) ↔ ((used vms ≤ wanted vms) × All IsFine vms))
check-verdict_example = check-verdict vms

abbrev cfg : Cfg
cfg = record { iops = none; bps = none; burst = none; burst_factor = some 20 }

abbrev pool : Pool
pool = record { iops = some 100; bps = none; burst_length = some 60; burst_factor = some 10 }

-- Two disks: one has no limits, the other has those of the configuration.
abbrev found : Drives
found d = if d == 1 then target_for 100 262144000 20 60 else (λ _. some 0)

-- A Qemu that sets what it is given.
abbrev merged : Settings → Settings → Settings
merged t x k = or_else (t k) (x k)

abbrev set_for : ℕ → Settings → Drives → Drives
set_for d t s e = if e == d then merged t (s e) else s e

abbrev as_told : ℕ → Settings → Drives → Result Drives
as_told d t s = ok (set_for d t s)

as_told-Sets : Sets as_told
as_told-Sets = record {
  own = λ d t s s' k n h e.
      let p : set_for d t s ≡ s' = cc in
      subst (λ v. v d k ≡ some n) p (rw ((==_iff d d).1 refl) (rw e refl));
  others =
      λ d e t s s' h n. let p : set_for d t s ≡ s' = cc in subst (λ v. v e ≡ s e) p (rw n refl);
}

throttle_run :
    ensure_online_disk_throttle as_told cfg pool (0 ∷ 1 ∷ []) found
    ≡ ok (set_for 0 (target_for 100 262144000 20 60) found)
unfolding ensure_online_disk_throttle throttle target
throttle_run = refl

ensure_online_disk_throttle-Throttled_example :
    All (λ d. Throttled cfg pool (set_for 0 (target_for 100 262144000 20 60) found d)) (0 ∷ 1 ∷ [])
ensure_online_disk_throttle-Throttled_example =
    ensure_online_disk_throttle-Throttled as_told as_told-Sets cfg pool (0 ∷ 1 ∷ []) found
      (set_for 0 (target_for 100 262144000 20 60) found) throttle_run

-- A table of routes that is a list.
abbrev stays : ℕ → Route → Bool
stays x r = r.by_kernel || not (r.dst == x)

abbrev table : Ip (List Route)
table = record {
  show = λ t. some t;
  add = λ x t. some (record { dst = x; by_kernel = false } ∷ t);
  del = λ x t. some (filter (stays x) t);
}

has-stays :
    (x y : ℕ) (t : List Route)
    → has y (current_routes (filter (stays x) t)) ≡ (has y (current_routes t) && not (x == y))
has-stays x y [] = refl
has-stays x y (r ∷ t) = ground (arith, has-stays x y t)

table-Works : Works table
table-Works = record {
  adds = λ x y t t' e. ground arith;
  dels = λ x y t t' e. ground (arith, has-stays x y t);
}

abbrev routes : List Route
routes = record { dst = 9; by_kernel = true } ∷ record { dst = 8; by_kernel = false } ∷ []

routes-done : (reconcile table (7 ∷ 9 ∷ []) routes).1 ≡ true
unfolding reconcile each
routes-done = refl

reconcile-routed_example :
    routed table 7 (reconcile table (7 ∷ 9 ∷ []) routes).0 ≡ has 7 (7 ∷ 9 ∷ [])
reconcile-routed_example = reconcile-routed table table-Works (7 ∷ 9 ∷ []) routes routes-done 7
