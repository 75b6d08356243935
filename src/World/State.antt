-- ===== src/World/State.antt =====
-- Events, surroundings, the state of one agent process, and its state-and-exception monad.
use fc_qemu.Base.{
  ℕ, Bool, true, false, Option, none, some, List, ◌∷◌, Exc, Reply, Result, ok, err, stuck,
  is_exception, if◌then◌else◌, ◌==◌,
}
use fc_qemu.Util.Text.{Text}

-- A libceph image, `pool/name`. Names of pools, images, hosts and clients are only compared, so
-- they are numbers.
pub record Image : Type 0 where
  pub pool : ℕ
  pub name : ℕ

-- A service that Consul has for an inmigration: its ModifyIndex, and its address.
pub record Candidate : Type 0 where
  pub modify_index : ℕ
  pub url : ℕ

-- One entry of `rbd lock list`.
pub record Locker : Type 0 where
  pub client : ℕ
  pub id : ℕ

-- The QMP commands that the agent issues, but for `query-status`.
pub data Command : Type 0 where
  quit system_powerdown send_key migrate : Command
  block_resize : ℕ → Command
  watchdog_action : ℕ → Command

-- The status of a migration, by `query-migrate`.
pub data MigrationStatus : Type 0 where
  setup active completed other : MigrationStatus

-- Further calls. Of a migration: the lock of this host, the calls of the other host's server, and what is
-- asked of the VM that moves.
pub data Call : Type 0 where
  new_config_sought heartbeat_failed : Call
  services_listed : Call
  pinged : ℕ → Call
  local_lock_asked local_lock_released : Call
  remote_lock_asked remote_lock_released : Call
  remote_ceph_locks_asked incoming_prepared incoming_finished : Call
  remote_rescued remote_destroyed remote_cancelled : Call
  inmigrate_registered inmigrate_deregistered : Call
  maintenance_volume_checked maintenance_volume_created maintenance_info_read : Call
  maintenance_locked maintenance_unlocked : Call
  directory_connected evacuation_requested consul_reloaded vms_counted : Call
  config_read migration_started migration_polled migration_ended : Call
  run_files_listed config_activated config_generated routes_ensured throttle_ensured : Call
  users_read blocks_queried : Call
  kvm_found memory_verified config_prepared log_prepared inmigrate_status_read : Call
  global_lock_opened global_lock_taken global_lock_released : Call
  pools_listed : Call
  image_created : Image → ℕ → Call
  image_removed size_read : Image → Call
  image_resized : Image → ℕ → Call
  image_mapped image_unmapped device_seen : Image → Call
  partition_probed partition_identified partition_typed : Image → Call
  partition_seen : Image → Bool → Call
  devices_settled : Call
  image_mounted image_unmounted : Image → Call
  snapshots_listed : Image → Call
  snapshot_created snapshot_removed : Image → ℕ → Call
  filesystem_made image_seeded uuid_generated : Image → Call
  root_created : Call
  migration_status_read migration_executed migration_committed : Image → Call
  migration_prepared : Option ℕ → Image → Call

-- The state of the migration of an image to another pool.
pub data ImageMigration : Type 0 where
  prepared executed executing : ImageMigration

-- A call of the server that receives a VM.
pub data Request : Type 0 where
  ping : ℕ → Request
  acquire_migration_lock release_migration_lock acquire_ceph_locks prepare_incoming : Request
  finish_incoming rescue destroy cancel : Request

-- What is asked of the agent in the guest, and what it answers: an error, a number, the state of the
-- file systems, or the state of a program (has it exited, by which signal, with which code).
pub data GuestRequest : Type 0 where
  freeze thaw freeze_status ping file_open execute : GuestRequest
  synchronize file_write file_close execution_status : ℕ → GuestRequest

pub data GuestResponse : Type 0 where
  failure frozen thawed empty_return : GuestResponse
  number : ℕ → GuestResponse
  execution : Bool → Option ℕ → ℕ → GuestResponse

-- The connection to that agent: all requests, newest first, and the responses that are not read yet,
-- oldest first. They outlast the connection.
pub record Connection : Type 0 where
  pub connected : Bool
  pub sent : List GuestRequest
  pub pending : List GuestResponse

-- A call to the outside, with its reply.
pub data Event : Type 0 where
  time_read : ℕ → Event
  slept : ℕ → Event
  process_found : Bool → Event
  process_running : Bool → Event
  qmp_connected : Reply (Unit {0}) → Event
  status_queried : Reply Bool → Event
  commanded : Command → Reply (Unit {0}) → Event
  process_terminated : Bool → Event
  supervisor_found : Reply Bool → Event
  supervisor_running : Bool → Event
  supervisor_terminated : Bool → Event
  qemu_started : Reply (Unit {0}) → Event
  image_opened : Image → Option Bool → Event
  lock_listed : Image → Option (List Locker) → Event
  lock_added : Image → ℕ → Bool → Event
  lock_removed : Image → Locker → Bool → Event
  consul_services : Reply Bool → Event
  consul_deregistered : Reply (Unit {0}) → Event
  consul_registered : Reply (Unit {0}) → Event
  run_files_removed : Event
  flock_asked : Bool → Bool → Event
  flock_released : Event
  called : Call → Reply Bool → Event
  request_taken : Option (ℕ × Request) → Event
  guest_asked : GuestRequest → Event
  guest_heard : GuestResponse → Event

abbrev pub Trace : Type 0
Trace = List Event

-- How the surroundings answer, given all that happened. `host` is CEPH_LOCK_HOST, `puppet` says
-- whether the VM's environment class is puppet. Pools are
-- numbers, of which `pool_name` gives the names; `rbd_pool`, `desired_size` (by volume) and `cloudinit`
-- are settings of the VM. A process that is told to terminate may be gone. Of an `rbd` command
-- we see whether it failed (`none` or `false`); of `rbd info`, also whether the image exists.
pub record Env : Type 0 where
  pub host : ℕ
  pub time : Trace → ℕ
  pub puppet : Bool
  pub find_process : Trace → Bool
  pub process_runs : Trace → Bool
  pub terminate_process : Trace → Bool
  pub qmp_connect : Trace → Reply (Unit {0})
  pub query_status : Trace → Reply Bool
  pub command : Trace → Command → Reply (Unit {0})
  pub find_supervisor : Trace → Reply Bool
  pub supervisor_runs : Trace → Bool
  pub terminate_supervisor : Trace → Bool
  pub start_qemu : Trace → Reply (Unit {0})
  pub open_image : Trace → Image → Option Bool
  pub list_locks : Trace → Image → Option (List Locker)
  pub add_lock : Trace → Image → ℕ → Bool
  pub remove_lock : Trace → Image → Locker → Bool
  pub service_known : Trace → Reply Bool
  pub deregister : Trace → Reply (Unit {0})
  pub register : Trace → Reply (Unit {0})
  pub flock : Trace → Bool → Bool
  pub call : Trace → Call → Reply Bool
  pub candidates : Trace → List Candidate
  pub random : Trace → ℕ → ℕ
  pub migration_status : Trace → MigrationStatus
  pub take_request : Trace → Option (ℕ × Request)
  pub cookie : ℕ
  pub live_service : Trace → Option ℕ
  pub guest : List GuestRequest → Option GuestResponse
  pub pools : Trace → List ℕ
  pub pool_name : ℕ → Text
  pub image_size : Trace → Image → ℕ
  pub snapshot_names : Trace → Image → List ℕ
  pub partition_export : Trace → Image → Text
  pub image_migration : Trace → Image → Option ImageMigration
  pub rbd_pool : ℕ
  pub desired_size : ℕ → ℕ
  pub cloudinit : Bool

-- The attributes of a Volume object: whether `_image` is set, `locked_by_me`, whether its image has
-- a `mapped_device`, and whether `device`, `part1dev` and `mountpoint` are set.
pub record VolumeState : Type 0 where
  pub opened : Bool
  pub locked_by_me : Bool
  pub mapped_device : Bool
  pub device : Bool
  pub part1dev : Bool
  pub mountpoint : Bool

-- The attribute `finished` of an IncomingServer.
pub data Finish : Type 0 where
  unfinished success cancelled destroyed : Finish

-- The attributes of an IncomingServer, with `cutoff` and `first` of its timeout.
pub record Server : Type 0 where
  pub finished : Finish
  pub had_contact : Bool
  pub cutoff : ℕ
  pub first : Bool

-- `qmp_open` says that `Qemu.__qmp` is set. `volumes` are the volumes that `Ceph.volumes` holds, in
-- the order of the dict, without the keys that map to None. `lock_open` says that
-- `Agent._lock_file_fd` is set, `lock_count` is `Agent._lock_count`; so do
-- `global_lock_open` and `global_lock_count` for `Qemu._global_lock_fd`. `attached` and `ioctxs` are
-- attributes of Ceph.
pub record World : Type 0 where
  pub trace : Trace
  pub qmp_open : Bool
  pub volumes : List Image
  pub volume : ℕ → VolumeState
  pub lock_open : Bool
  pub lock_count : ℕ
  pub server : Server
  pub global_lock_open : Bool
  pub global_lock_count : ℕ
  pub attached : Bool
  pub ioctxs : List ℕ
  pub connection : Connection

abbrev pub Action : Type 0 → Type 0
Action A = World → Result A × World

unfoldable pub pure : {A : Type 0} → A → Action A
pure a w = (ok a, w)

unfoldable pub raise : {A : Type 0} → Exc → Action A
raise e w = (err e, w)

-- A loop that has run out of fuel.
unfoldable pub diverge : {A : Type 0} → Action A
diverge w = (stuck, w)

infixl 5 ◌>>=◌ ◌>>◌
unfoldable pub ◌>>=◌ : {A B : Type 0} → Action A → (A → Action B) → Action B
◌>>=◌ m f w =
    let (r, w') = m w in elim r [ ok a ↦ f a w' | err e ↦ (err e, w') | stuck ↦ (stuck, w') ]

abbrev pub ◌>>◌ : {B : Type 0} → Action (Unit {0}) → Action B → Action B
m >> k = m >>= λ _. k

-- `if b: m else: n`
infix 1 when◌then◌else◌
unfoldable pub when◌then◌else◌ : {A : Type 0} → Bool → Action A → Action A → Action A
when true then m else n = m
when false then m else n = n

-- `if b: m`
abbrev pub only_if : Bool → Action (Unit {0}) → Action (Unit {0})
only_if b m = when b then m else pure tt

-- A test whether there is a value, with what is done without one first.
unfoldable pub option : {A B : Type 0} → Option A → Action B → (A → Action B) → Action B
option none m f = m
option (some a) m f = f a

-- `try: m` with a handler that gets the exception.
unfoldable pub try_except : {A : Type 0} → Action A → (Exc → Action A) → Action A
try_except m h w =
    let (r, w') = m w in elim r [ ok a ↦ (ok a, w') | err e ↦ h e w' | stuck ↦ (stuck, w') ]

-- `try: m except Exception: h`
abbrev pub try_exception : {A : Type 0} → Action A → Action A → Action A
try_exception m h = try_except m (λ e. when is_exception e then h else raise e)

-- `try: m finally: k`, where an exception of `k` replaces that of `m`.
unfoldable pub try_finally : {A : Type 0} → Action A → Action (Unit {0}) → Action A
unfolding ◌>>=◌ pure raise
try_finally m k w =
    let (r, w') = m w in
    elim r [ stuck ↦ (stuck, w') | ok a ↦ (k >> pure a) w' | err e ↦ (k >> raise e) w' ]

-- The result of a reply, in the state that has it on record.
abbrev pub reply : {A : Type 0} → Result A → Event → Action A
reply r e w = (r, record w { trace = e ∷ w.trace })

abbrev pub update {ℓ} : {A : Type ℓ} → (ℕ → A) → ℕ → A → ℕ → A
update f k v j = if k == j then v else f j
