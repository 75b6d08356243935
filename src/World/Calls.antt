-- ===== src/World/Calls.antt =====
-- The calls that the program makes, each on record with its reply.
use fc_qemu.Base.{
  result, Option, none, some, called_process_error, image_not_found, ℕ, Bool, true, false, List,
  ◌∷◌, ok, err, Result,
}
use fc_qemu.Util.Text.{Text}
use fc_qemu.World.State.{
  Image, Locker, Command, Call, Candidate, ImageMigration, VolumeState, Connection, Request, Server,
  MigrationStatus, Event, Env, World, Action, pure, raise, diverge, ◌>>=◌, when◌then◌else◌, option,
  try_except, try_finally, reply, update,
}

abbrev pub or_called_process_error : {A : Type 0} → Option A → Result A
or_called_process_error none = err called_process_error
or_called_process_error (some a) = ok a

abbrev pub succeeded : Bool → Result (Unit {0})
succeeded true = ok tt
succeeded false = err called_process_error

abbrev pub image_result : Option Bool → Result (Unit {0})
image_result none = err called_process_error
image_result (some false) = err image_not_found
image_result (some true) = ok tt

module _ (env : Env) where
  unfoldable pub get_time : Action ℕ
  get_time w = let t = env.time w.trace in reply (ok t) (Event.time_read t) w

  -- `Qemu.proc()`: is there a process of this VM behind the PID file?
  unfoldable pub find_process : Action Bool
  find_process w = let b = env.find_process w.trace in reply (ok b) (Event.process_found b) w

  -- `p.is_running()` of that process.
  unfoldable pub process_runs : Action Bool
  process_runs w = let b = env.process_runs w.trace in reply (ok b) (Event.process_running b) w

  -- `p.terminate()`: false where it raises NoSuchProcess.
  unfoldable pub terminate_process : Action Bool
  terminate_process w =
      let b = env.terminate_process w.trace in reply (ok b) (Event.process_terminated b) w

  unfoldable pub qmp_connect : Action (Unit {0})
  qmp_connect w = let r = env.qmp_connect w.trace in reply (result r) (Event.qmp_connected r) w

  unfoldable pub query_status : Action Bool
  query_status w = let r = env.query_status w.trace in reply (result r) (Event.status_queried r) w

  unfoldable pub command : Command → Action (Unit {0})
  command c w = let r = env.command w.trace c in reply (result r) (Event.commanded c r) w

  -- Is the parent of the process the supervisor? There may be none, or its command line too short.
  unfoldable pub find_supervisor : Action Bool
  find_supervisor w =
      let r = env.find_supervisor w.trace in reply (result r) (Event.supervisor_found r) w

  unfoldable pub supervisor_runs : Action Bool
  supervisor_runs w =
      let b = env.supervisor_runs w.trace in reply (ok b) (Event.supervisor_running b) w

  unfoldable pub terminate_supervisor : Action Bool
  terminate_supervisor w =
      let b = env.terminate_supervisor w.trace in reply (ok b) (Event.supervisor_terminated b) w

  -- `rbd lock list`
  unfoldable pub list_locks : Image → Action (List Locker)
  list_locks v w =
      let r = env.list_locks w.trace v in
      reply (or_called_process_error r) (Event.lock_listed v r) w

  -- `rbd info`, when an Image is made.
  unfoldable pub open_image : Image → Action (Unit {0})
  open_image v w =
      let r = env.open_image w.trace v in reply (image_result r) (Event.image_opened v r) w

  -- `rbd lock add`: did the command succeed?
  unfoldable pub add_lock : Image → ℕ → Action Bool
  add_lock v cookie w =
      let b = env.add_lock w.trace v cookie in reply (ok b) (Event.lock_added v cookie b) w

  -- `rbd lock rm`
  unfoldable pub remove_lock : Image → Locker → Action (Unit {0})
  remove_lock v l w =
      let b = env.remove_lock w.trace v l in reply (succeeded b) (Event.lock_removed v l b) w

  unfoldable pub service_known : Action Bool
  service_known w =
      let r = env.service_known w.trace in reply (result r) (Event.consul_services r) w

  unfoldable pub deregister : Action (Unit {0})
  deregister w = let r = env.deregister w.trace in reply (result r) (Event.consul_deregistered r) w

  unfoldable pub register : Action (Unit {0})
  register w = let r = env.register w.trace in reply (result r) (Event.consul_registered r) w

  -- `fcntl.flock` on the VM's lock file, blocking or not: did it get the lock?
  unfoldable pub flock : Bool → Action Bool
  flock blocking w =
      let b = env.flock w.trace blocking in reply (ok b) (Event.flock_asked blocking b) w

  -- A call of a migration.
  unfoldable pub call : Call → Action Bool
  call c w = let r = env.call w.trace c in reply (result r) (Event.called c r) w

  -- The services that Consul lists for the inmigration.
  unfoldable pub list_services : Action (List Candidate)
  list_services = call Call.services_listed >>= λ _. λ w. (ok (env.candidates w.trace), w)

  -- `query-migrate`
  unfoldable pub query_migrate : Action MigrationStatus
  query_migrate = call Call.migration_polled >>= λ _. λ w. (ok (env.migration_status w.trace), w)

  -- `random.randint(1, n)`
  unfoldable pub random : ℕ → Action ℕ
  random n w = (ok (env.random w.trace n), w)

  -- The start of a Qemu process.
  unfoldable pub start_qemu : Action (Unit {0})
  start_qemu w = let r = env.start_qemu w.trace in reply (result r) (Event.qemu_started r) w

  -- `handle_request`, up to the call of the handler: a cookie and a request, or none for some time.
  unfoldable pub take_request : Action (Option (ℕ × Request))
  take_request w = let r = env.take_request w.trace in reply (ok r) (Event.request_taken r) w

  -- `locate_live_service`
  unfoldable pub locate_live_service : Action (Option ℕ)
  locate_live_service = call Call.services_listed >>= λ _. λ w. (ok (env.live_service w.trace), w)

  unfoldable pub image_size : Image → Action ℕ
  image_size v = call (Call.size_read v) >>= λ _. λ w. (ok (env.image_size w.trace v), w)

  unfoldable pub list_snaps : Image → Action (List ℕ)
  list_snaps v = call (Call.snapshots_listed v) >>= λ _. λ w. (ok (env.snapshot_names w.trace v), w)

  -- The output of `blkid -o export` for the partition.
  unfoldable pub export_partition : Image → Action Text
  export_partition v =
      call (Call.partition_typed v) >>= λ _. λ w. (ok (env.partition_export w.trace v), w)

  -- The migration in the output of `rbd status`.
  unfoldable pub image_migration : Image → Action (Option ImageMigration)
  image_migration v =
      call (Call.migration_status_read v) >>= λ _. λ w. (ok (env.image_migration w.trace v), w)

  unfoldable pub list_pools : Action (List ℕ)
  list_pools = call Call.pools_listed >>= λ _. λ w. (ok (env.pools w.trace), w)

unfoldable pub set_server : (Server → Server) → Action (Unit {0})
set_server f w = (ok tt, record w { server = f w.server })

unfoldable pub release_flock : Action (Unit {0})
release_flock = reply (ok tt) Event.flock_released

unfoldable pub set_lock_open : Bool → Action (Unit {0})
set_lock_open b w = (ok tt, record w { lock_open = b })

unfoldable pub set_lock_count : ℕ → Action (Unit {0})
set_lock_count n w = (ok tt, record w { lock_count = n })

unfoldable pub sleep : ℕ → Action (Unit {0})
sleep d = reply (ok tt) (Event.slept d)

unfoldable pub remove_run_files : Action (Unit {0})
remove_run_files = reply (ok tt) Event.run_files_removed

-- The attributes of this process.
unfoldable pub get_state : Action World
get_state w = (ok w, w)

unfoldable pub set_qmp_open : Bool → Action (Unit {0})
set_qmp_open b w = (ok tt, record w { qmp_open = b })

unfoldable pub set_opened : Image → Bool → Action (Unit {0})
set_opened v b w = (
  ok tt,
  record w { volume = update w.volume v.name (let s = w.volume v.name in record s { opened = b }) },
)

unfoldable pub set_locked_by_me : Image → Bool → Action (Unit {0})
set_locked_by_me v b w = (
  ok tt,
  record w {
    volume = update w.volume v.name (let s = w.volume v.name in record s { locked_by_me = b });
  },
)

unfoldable pub set_volume_state : Image → (VolumeState → VolumeState) → Action (Unit {0})
set_volume_state v f w = (ok tt, record w { volume = update w.volume v.name (f (w.volume v.name)) })

unfoldable pub set_volumes : (List Image → List Image) → Action (Unit {0})
set_volumes f w = (ok tt, record w { volumes = f w.volumes })

unfoldable pub set_ioctxs : (List ℕ → List ℕ) → Action (Unit {0})
set_ioctxs f w = (ok tt, record w { ioctxs = f w.ioctxs })

unfoldable pub set_attached : Bool → Action (Unit {0})
set_attached b w = (ok tt, record w { attached = b })

unfoldable pub set_global_lock_open : Bool → Action (Unit {0})
set_global_lock_open b w = (ok tt, record w { global_lock_open = b })

unfoldable pub set_global_lock_count : ℕ → Action (Unit {0})
set_global_lock_count n w = (ok tt, record w { global_lock_count = n })

unfoldable pub set_connection : (Connection → Connection) → Action (Unit {0})
set_connection f w = (ok tt, record w { connection = f w.connection })

-- What goes to the guest and comes from it.
unfoldable pub note : Event → Action (Unit {0})
note e w = (ok tt, record w { trace = e ∷ w.trace })

-- To unfold all calls at once, and what the code composes them with.
unfoldable pub calls : Unit {0}
unfolding get_time find_process process_runs terminate_process qmp_connect query_status command
    find_supervisor supervisor_runs terminate_supervisor list_locks open_image add_lock remove_lock
    service_known deregister register sleep remove_run_files flock call start_qemu take_request
    locate_live_service set_server list_services query_migrate random release_flock set_lock_open
    set_lock_count get_state set_qmp_open set_opened set_locked_by_me image_size list_snaps
    export_partition image_migration list_pools set_volume_state set_volumes set_ioctxs set_attached
    set_global_lock_open set_global_lock_count set_connection note pure raise diverge ◌>>=◌
    when◌then◌else◌ option try_except try_finally
calls = tt
