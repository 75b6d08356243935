-- ===== src/Tests.antt =====
-- Surroundings and states for the examples.
pub mod Locks
pub mod Commands
pub mod Values
pub mod Utilities
pub mod Disks
pub mod Guests
pub mod Configs
pub mod Hosts
pub mod Logs
pub mod Migrations
use fc_qemu.Base.{
  ℕ, ◌+◌, ◌≤◌, Bool, true, false, Option, none, some, List, [], ◌∷◌, returns, raises, os_error,
  arith, ◌==◌, if◌then◌else◌,
}
use fc_qemu.Util.Text.{chars}
use fc_qemu.World.{
  Env, World, VolumeState, Image, Locker, Event, Trace, Call, completed, Request, unfinished,
  thawed,
}
use fc_qemu.Timeout.Ends.{ClockRuns}

-- A clock that goes on while the agent sleeps.
abbrev pub clock : Trace → ℕ
clock [] = 0
clock (Event.slept d ∷ t) = clock t + d
clock (_ ∷ t) = clock t

-- A host on which no VM runs, whose calls all succeed. Host 1 has the locks.
abbrev pub calm : Env
calm = record {
  host = 1;
  time = clock;
  puppet = false;
  find_process = λ _. false;
  process_runs = λ _. false;
  terminate_process = λ _. true;
  qmp_connect = λ _. raises os_error;
  query_status = λ _. raises os_error;
  command = λ _ _. returns tt;
  find_supervisor = λ _. returns false;
  supervisor_runs = λ _. false;
  terminate_supervisor = λ _. true;
  start_qemu = λ _. returns tt;
  open_image = λ _ _. some true;
  list_locks = λ _ _. some (record { client = 7; id = 1 } ∷ []);
  add_lock = λ _ _ _. true;
  remove_lock = λ _ _ _. true;
  service_known = λ _. returns true;
  deregister = λ _. returns tt;
  register = λ _. returns tt;
  flock = λ _ _. true;
  call = λ _ _. returns true;
  candidates = λ _. [];
  random = λ _ n. n;
  migration_status = λ _. completed;
  take_request = λ _. some (5, Request.rescue);
  cookie = 5;
  live_service = λ _. none;
  guest = λ _. some thawed;
  pools = λ _. 0 ∷ 1 ∷ [];
  pool_name = λ n. chars (if n == 0 then "rbd.ssd" else "rbd.hdd");
  image_size = λ _ _. 5;
  snapshot_names = λ _ _. [];
  partition_export = λ _ _. chars "TYPE=xfs";
  image_migration = λ _ _. none;
  rbd_pool = 0;
  desired_size = λ _. 8;
  cloudinit = true;
}

-- The same host while the VM runs.
abbrev pub busy : Env
busy = record calm {
  find_process = λ _. true;
  process_runs = λ _. true;
  qmp_connect = λ _. returns tt;
  query_status = λ _. returns true;
}

abbrev pub root_volume : Image
root_volume = record { pool = 0; name = 0 }

abbrev pub tmp_volume : Image
tmp_volume = record { pool = 0; name = 1 }

abbrev pub new_volume : VolumeState
new_volume = record {
  opened = false;
  locked_by_me = false;
  mapped_device = false;
  device = false;
  part1dev = false;
  mountpoint = false;
}

abbrev pub idle : World
idle = record {
  trace = [];
  qmp_open = false;
  volumes = root_volume ∷ tmp_volume ∷ [];
  volume = λ _. new_volume;
  lock_open = false;
  lock_count = 0;
  server = record { finished = unfinished; had_contact = false; cutoff = 90000; first = true };
  global_lock_open = false;
  global_lock_count = 0;
  attached = true;
  ioctxs = 0 ∷ 1 ∷ [];
  connection = record { connected = true; sent = []; pending = [] };
}

pub clock-steady : (e : Event) (t : Trace) → clock t ≤ clock (e ∷ t)
clock-steady e t = ground arith

pub calm-ClockRuns : ClockRuns calm
calm-ClockRuns = record { steady = clock-steady; sleeps = λ d t. omega arith }
