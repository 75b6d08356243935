-- ===== src/Incoming.antt =====
-- The receiving side of a live migration: classes IncomingServer and IncomingAPI of incoming.py. What
-- `prepare_incoming` does with the texts of the arguments and of the configuration is in the module
-- Config.
pub mod Rescue
pub mod Deadline
pub mod Calls
pub mod Kept
pub mod Rounds
pub mod Success
pub mod Cookies
use fc_qemu.Base.{
  ℕ, zero, suc, ◌+◌, ◌*◌, ◌-◌, ◌/◌, Bool, true, false, not, Option, none, some, Exc, is_exception,
  runtime_error, assertion_error, migration_error, environment_changed, ltb, ◌==◌, if◌then◌else◌,
}
use fc_qemu.World.{
  Request, Finish, unfinished, success, cancelled, destroyed, Server, Call, Env, Action, pure,
  raise, diverge, ◌>>=◌, ◌>>◌, when◌then◌else◌, only_if, option, try_except, try_exception,
  try_finally, get_state, get_time, call, start_qemu, take_request, locate_live_service, set_server,
  remove_run_files,
}
use fc_qemu.Timeout.{second, tick}
use fc_qemu.Qemu.{is_running}
use fc_qemu.Qemu as Qemu
use fc_qemu.Ceph as Ceph
use fc_qemu.Agent.{destroy_vm, requires_inmigrate_from}

abbrev pub is_unfinished : Finish → Bool
is_unfinished unfinished = true
is_unfinished _ = false

abbrev pub is_success : Finish → Bool
is_success success = true
is_success _ = false

module _ (env : Env) where
  -- `extend_cutoff_time(hard_timeout=d)`
  unfoldable pub extend_hard : ℕ → Action (Unit {0})
  extend_hard d = do now ← get_time env; set_server (λ s. record s { cutoff = now + d })

  -- `extend_cutoff_time(soft_timeout=d)`, for whole seconds.
  unfoldable pub extend_soft : ℕ → Action (Unit {0})
  extend_soft d = do
    now ← get_time env
    w ← get_state
    only_if (ltb ((w.server.cutoff - now) / second * second) d)
        (do later ← get_time env; set_server (λ s. record s { cutoff = later + d }))

  -- A handler that fails does so after it has cleaned up.
  abbrev pub cleaning : Action (Unit {0}) → Action (Unit {0}) → Action (Unit {0})
  cleaning m clean = try_except m (λ e. when is_exception e then (clean >> raise e) else raise e)

  -- The server's `destroy`.
  unfoldable pub destroy_incoming : Action (Unit {0})
  destroy_incoming = set_server (λ s. record s { finished = destroyed }) >> destroy_vm env false

  -- The server's `rescue`.
  unfoldable pub rescue_incoming : Action (Unit {0})
  rescue_incoming = do
    running ← is_running env
    when running
        then (cleaning (Ceph.lock env) destroy_incoming)
        else (remove_run_files >> Ceph.stop env >> raise runtime_error)

  unfoldable pub prepare_incoming : Action (Unit {0})
  prepare_incoming = cleaning (start_qemu env) (Ceph.stop env)

  unfoldable pub finish_incoming : Action (Unit {0})
  finish_incoming = do
    running ← is_running env
    when running then set_server (λ s. record s { finished = success }) else raise assertion_error

  unfoldable pub cancel : Action (Unit {0})
  cancel = Ceph.unlock env >> set_server (λ s. record s { finished = cancelled })

  -- `authenticated`, which each method of IncomingAPI has on its own.
  unfoldable pub authenticated : ℕ → Action (Unit {0}) → Action (Unit {0})
  authenticated cookie f = when cookie == env.cookie then f else raise migration_error

  -- `reset_timeout`
  unfoldable pub reset_timeout : Action (Unit {0}) → Action (Unit {0})
  reset_timeout f = f >> extend_soft (60 * second)

  -- The methods of IncomingAPI, called with a cookie.
  unfoldable pub perform : ℕ → Request → Action (Unit {0})
  perform cookie (Request.ping timeout) = authenticated cookie (
      when timeout == 0
      then raise assertion_error
      else (extend_hard timeout >> set_server (λ s. record s { had_contact = true })))
  perform cookie Request.acquire_migration_lock =
      authenticated cookie (reset_timeout (call env Call.local_lock_asked >>= λ _. pure tt))
  perform cookie Request.release_migration_lock =
      authenticated cookie (reset_timeout (call env Call.local_lock_released >>= λ _. pure tt))
  perform cookie Request.acquire_ceph_locks = authenticated cookie (reset_timeout (Ceph.lock env))
  perform cookie Request.prepare_incoming = authenticated cookie (reset_timeout prepare_incoming)
  perform cookie Request.finish_incoming = authenticated cookie (reset_timeout finish_incoming)
  perform cookie Request.rescue = authenticated cookie (reset_timeout rescue_incoming)
  perform cookie Request.destroy = authenticated cookie (reset_timeout destroy_incoming)
  perform cookie Request.cancel = authenticated cookie (reset_timeout cancel)

  -- `handle_request`: what a method raises goes to the caller.
  unfoldable pub handle_request : Action (Unit {0})
  handle_request = do
    request ← take_request env
    option request (pure tt) (λ r. try_except (perform r.0 r.1) (λ _. pure tt))

  -- Does the loop give up, where there was no contact yet?
  unfoldable pub is_outdated : ℕ → Action Bool
  is_outdated this_host = do
    new_config ← call env Call.new_config_sought
    when new_config then pure true else (do
      live ← locate_live_service env
      remote ← requires_inmigrate_from env this_host live
      option remote (pure true) (λ _. pure false))

  -- `self.timeout.tick()`
  unfoldable pub tick_server : Action Bool
  tick_server = do
    w ← get_state
    x ← tick env (record {
      cutoff = w.server.cutoff;
      interval = 0;
      timed_out = false;
      first = w.server.first;
      raise_on_timeout = false;
    })
    set_server (λ s. record s { first = x.0.first })
    pure x.1

  -- A round of the loop in `run`, before the test of `finished`.
  unfoldable pub serve_once : ℕ → Action (Unit {0})
  serve_once this_host = do
    handle_request
    w ← get_state
    outdated ← when w.server.had_contact then pure false else is_outdated this_host
    only_if outdated (raise environment_changed)

  unfoldable pub serve : ℕ → ℕ → Action (Unit {0})
  serve zero this_host = diverge
  serve (suc fuel) this_host = do
    goes_on ← tick_server
    only_if goes_on (do
      serve_once this_host
      w ← get_state
      only_if (is_unfinished w.server.finished) (serve fuel this_host))

  -- The end of `run`: the exit code.
  unfoldable pub stop_server : Action ℕ
  stop_server = do
    try_exception (call env Call.local_lock_released >>= λ _. pure tt) (pure tt)
    w ← get_state
    when is_success w.server.finished then pure 0 else (Qemu.destroy env false >> pure 1)

  unfoldable pub run_incoming : ℕ → ℕ → Action ℕ
  run_incoming fuel this_host = do
    _registered ← call env Call.inmigrate_registered
    try_finally (serve fuel this_host) (call env Call.inmigrate_deregistered >>= λ _. pure tt)
    stop_server
