-- ===== src/Guest.antt =====
-- The agent in the guest: class GuestAgent of hazmat/guestagent.py, and `freeze`, `thaw`, `write_file`
-- and `exec` of hazmat/qemu.py. `Env.guest` gives the response to the newest of the requests.
pub mod Order
pub mod Frozen
use fc_qemu.Base.{
  ℕ, zero, suc, ◌*◌, Bool, true, false, not, Option, none, some, List, [], ◌∷◌, ◌++◌, Exc, os_error,
  client_error, runtime_error, assertion_error, key_error, ◌==◌, if◌then◌else◌,
}
use fc_qemu.World.{
  GuestRequest, GuestResponse, failure, frozen, thawed, empty_return, number, execution, Connection,
  Env, Action, pure, raise, ◌>>=◌, ◌>>◌, when◌then◌else◌, only_if, option, try_except,
  try_exception, try_finally, get_state, random, set_connection, note, Event,
}
use fc_qemu.Timeout.{second, time_out, while_ticking, fuel_for}

abbrev pub is_client_error : Exc → Bool
is_client_error client_error = true
is_client_error _ = false

abbrev pub is_frozen : GuestResponse → Bool
is_frozen frozen = true
is_frozen _ = false

abbrev pub is_thawed : GuestResponse → Bool
is_thawed thawed = true
is_thawed _ = false

-- The `pid` in an answer, and a KeyError or a TypeError made a RuntimeError where there is none.
abbrev pub pid_of : GuestResponse → Action ℕ
pid_of (number pid) = pure pid
pid_of _ = raise runtime_error

-- A round of `exec`: none where the program still runs.
abbrev pub judge : GuestResponse → Action (Option (Unit {0}))
judge (execution false signal code) = pure none
judge (execution true (some signal) code) = raise runtime_error
judge (execution true none zero) = pure (some tt)
judge (execution true none (suc code)) = raise runtime_error
judge _ = raise key_error

abbrev pub has_id : ℕ → GuestResponse → Bool
has_id id (number n) = n == id
has_id id _ = false

-- `client.send`, with the response that comes of it.
abbrev pub with_request : Env → GuestRequest → Connection → Connection
with_request env r c = record c {
  sent = r ∷ c.sent;
  pending = c.pending ++ (elim (env.guest (r ∷ c.sent)) [ none ↦ [] | some a ↦ a ∷ [] ]);
}

module _ (env : Env) where
  unfoldable pub send : GuestRequest → Action (Unit {0})
  send r = set_connection (with_request env r) >> note (Event.guest_asked r)

  unfoldable pub disconnect : Action (Unit {0})
  disconnect = set_connection (λ c. record c { connected = false })

  -- An answer, which is an error or not.
  unfoldable pub checked : GuestResponse → Action GuestResponse
  checked failure = raise client_error
  checked answer = pure answer

  -- `read`: without a response the time runs out.
  unfoldable pub take : List GuestResponse → Action GuestResponse
  take [] = disconnect >> raise os_error
  take (answer ∷ more) =
      set_connection (λ c. record c { pending = more })
      >> note (Event.guest_heard answer)
      >> checked answer

  unfoldable pub read : Action GuestResponse
  read = do w ← get_state; take w.connection.pending

  -- The end of `cmd`, on a connection that is open.
  unfoldable pub exchange : GuestRequest → Action GuestResponse
  exchange r = send r >> read

  -- `sync`: a thaw, the buffer read until there is nothing left, and a number that must come back.
  unfoldable pub sync : Action (Unit {0})
  sync = do
    send GuestRequest.thaw
    set_connection (λ c. record c { pending = [] })
    sync_id ← random env 65535
    result ← exchange (GuestRequest.synchronize sync_id)
    only_if (not (has_id sync_id result)) (raise client_error)

  unfoldable pub connect : Action (Unit {0})
  connect = do
    w ← get_state
    only_if (not w.connection.connected)
        (disconnect >> set_connection (λ c. record c { connected = true }) >> sync)

  unfoldable pub cmd : GuestRequest → Action GuestResponse
  cmd r = connect >> exchange r

  -- `cmd` with `fire_and_forget`.
  unfoldable pub fire_and_forget : GuestRequest → Action (Unit {0})
  fire_and_forget r = connect >> send r

  unfoldable pub freeze : Action (Unit {0})
  freeze = do
    try_except (cmd GuestRequest.freeze >>= λ _. pure tt)
        (λ e. when is_client_error e then fire_and_forget GuestRequest.thaw else raise e)
    status ← cmd GuestRequest.freeze_status
    only_if (not (is_frozen status)) (raise assertion_error)

  -- Every failure ends in a new connection, and goes on.
  unfoldable pub thaw : Action (Unit {0})
  thaw =
      try_except
        (do
          _thawed ← cmd GuestRequest.thaw
          status ← cmd GuestRequest.freeze_status
          only_if (not (is_thawed status)) (raise runtime_error))
        (λ e. disconnect >> connect >> raise e)

  unfoldable pub write_file : Action (Unit {0})
  write_file = do
    opened ← cmd GuestRequest.file_open
    handle ← pid_of opened
    try_finally (cmd (GuestRequest.file_write handle) >>= λ _. pure tt)
        (cmd (GuestRequest.file_close handle) >>= λ _. pure tt)

  unfoldable pub exec : Action (Unit {0})
  exec = do
    output ← cmd GuestRequest.execute
    pid ← pid_of output
    timeout ← time_out env (5 * second) second true
    _done ←
        while_ticking env (fuel_for (5 * second) second) timeout
          (cmd (GuestRequest.execution_status pid) >>= judge)
    pure tt
