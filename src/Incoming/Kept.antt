-- ===== src/Incoming/Kept.antt =====
-- What the methods of IncomingAPI and the loop of the IncomingServer keep.
use fc_qemu.Base.{
  assertion_error, runtime_error, ◌*◌, ℕ, ◌≡◌, Bool, true, false, Option, none, some, [], ◌∷◌, ◌==◌,
  ==_iff,
}
use fc_qemu.World.{
  Request, success, cancelled, destroyed, Server, Call, Event, Trace, Env, World, Action, pure,
  raise, when◌then◌else◌, call, ◌>>=◌, ◌>>◌, Triple, Triple-bind, Triple-if, Triple-both,
  Triple-weaken, Keeps, Keeps-bind, Keeps-if, Keeps-pure, Keeps-except, Stable, Emits, Emits-serves,
  Emits-pure, Emits-raise, Emits-bind, set_server,
}
use fc_qemu.Timeout.{second}
use fc_qemu.Qemu.{is_running}
use fc_qemu.Qemu.Belief.{SeenOn}
use fc_qemu.Qemu.Looks.{Look, is_running-Look, get_state-Emits, get_time-Look}
use fc_qemu.Qemu.Running.{Shows, is_running-Shows}
use fc_qemu.Qemu.Quiet.{call-Quiet}
use fc_qemu.Incoming.{
  extend_hard, extend_soft, destroy_incoming, rescue_incoming, finish_incoming, cancel,
  authenticated, reset_timeout, perform,
}
use fc_qemu.Incoming.Calls.{
  Any, any, lock-Any, stop-Any, unlock-Any, remove_run_files-Any, is_running-Any, destroy_vm-Any,
  prepare_incoming-Any,
}

abbrev pub newest_request : Trace → Option (ℕ × Request)
newest_request [] = none
newest_request (Event.request_taken r ∷ t) = r
newest_request (e ∷ t) = newest_request t

-- What holds of the attributes of the server and the trace, and goes on to hold when calls are made,
-- when the deadline moves, when the other side is heard of or gives up, and when it finishes a
-- migration of which the VM is seen to run here.
pub record Kept (env : Env) (K : Server → Trace → Type 0) : Type 0 where
  pub events : (s : Server) → Stable Any (K s)
  pub starts : (s : Server) (t : Trace) (b : Bool) → K s t → K (record s { first = b }) t
  pub waits : (s : Server) (t : Trace) (c : ℕ) → K s t → K (record s { cutoff = c }) t
  pub meets : (s : Server) (t : Trace) → K s t → K (record s { had_contact = true }) t
  pub destroys : (s : Server) (t : Trace) → K s t → K (record s { finished = destroyed }) t
  pub cancels : (s : Server) (t : Trace) → K s t → K (record s { finished = cancelled }) t
  pub finishes :
      (s : Server) (t : Trace)
      → K s t
      → SeenOn t
      → newest_request t ≡ some (env.cookie, Request.finish_incoming)
      → K (record s { finished = success }) t

module _ (env : Env) where
  module _ (K : Server → Trace → Type 0) (k : Kept env K) where
    abbrev pub Holding : World → Type 0
    Holding w = K w.server w.trace

    pub any_keeps : {A : Type 0} {m : Action A} → Emits Any m → Keeps Holding m
    any_keeps x = Emits-serves K x k.events

    pub set_server-keeps :
        (f : Server → Server)
        → ((s : Server) (t : Trace) → K s t → K (f s) t)
        → Keeps Holding (set_server f)
    unfolding set_server
    set_server-keeps f g w h = g w.server w.trace h

    extend_hard-keeps : (d : ℕ) → Keeps Holding (extend_hard env d)
    unfolding extend_hard
    extend_hard-keeps d =
        Keeps-bind Holding _ _ (any_keeps (any (get_time-Look env)))
          (λ now. set_server-keeps _ (λ s t. k.waits s t _))

    extend_soft-keeps : (d : ℕ) → Keeps Holding (extend_soft env d)
    unfolding extend_soft
    extend_soft-keeps d = Keeps-bind Holding _ _ (any_keeps (any (get_time-Look env))) (λ now.
        Keeps-bind Holding _ _ (any_keeps get_state-Emits) (λ w.
          Keeps-if Holding _ _ _
            (Keeps-bind Holding _ _ (any_keeps (any (get_time-Look env)))
              (λ later. set_server-keeps _ (λ s t. k.waits s t _)))
            (Keeps-pure Holding tt)))

    destroy_incoming-keeps : Keeps Holding (destroy_incoming env)
    unfolding destroy_incoming
    destroy_incoming-keeps =
        Keeps-bind Holding _ _ (set_server-keeps _ k.destroys)
          (λ _. any_keeps (destroy_vm-Any env false))

    rescue_incoming-keeps : Keeps Holding (rescue_incoming env)
    unfolding rescue_incoming
    rescue_incoming-keeps = Keeps-bind Holding _ _ (any_keeps (is_running-Any env)) (λ b.
        Keeps-if Holding b _ _
          (Keeps-except Holding _ _ (any_keeps (lock-Any env)) (λ e.
            Keeps-if Holding _ _ _
              (Keeps-bind Holding _ _ destroy_incoming-keeps (λ _. any_keeps (Emits-raise e)))
              (any_keeps (Emits-raise e))))
          (any_keeps (
            Emits-bind (Emits-bind (remove_run_files-Any env) (λ _. stop-Any env))
              (λ _. Emits-raise runtime_error))))

    cancel-keeps : Keeps Holding (cancel env)
    unfolding cancel
    cancel-keeps =
        Keeps-bind Holding _ _ (any_keeps (unlock-Any env)) (λ _. set_server-keeps _ k.cancels)

    -- With the request that is being served.
    abbrev pub Serving : ℕ → Request → World → Type 0
    Serving c r w = Holding w × (newest_request w.trace ≡ some (c, r))

    abbrev Asked : Server → Trace → Type 0
    Asked s t = K s t × (newest_request t ≡ some (env.cookie, Request.finish_incoming))

    Asked-Stable : (s : Server) → Stable Look (Asked s)
    Asked-Stable s (Event.time_read n) t h a = (k.events s _ t tt a.0, a.1)
    Asked-Stable s (Event.slept d) t h a = (k.events s _ t tt a.0, a.1)
    Asked-Stable s (Event.process_found b) t h a = (k.events s _ t tt a.0, a.1)
    Asked-Stable s (Event.process_running b) t h a = (k.events s _ t tt a.0, a.1)
    Asked-Stable s (Event.qmp_connected r) t h a = (k.events s _ t tt a.0, a.1)
    Asked-Stable s (Event.status_queried r) t h a = (k.events s _ t tt a.0, a.1)
    Asked-Stable s _ t h a = elim h [ ]

    finish_incoming-keeps :
        Triple
          (Serving env.cookie Request.finish_incoming)
          (finish_incoming env)
          (λ _. Holding)
          (λ _. Holding)
    unfolding finish_incoming set_server raise when◌then◌else◌
    finish_incoming-keeps = λ w h.
        Triple-bind (is_running env) _ (λ u. Unit × Asked u.server u.trace)
          (λ b u. Shows env (some b) u × Asked u.server u.trace) (λ _. Holding) (λ _. Holding)
          (Triple-weaken (is_running env) (λ u. Unit × Asked u.server u.trace)
            (λ b u. Shows env (some b) u × Asked u.server u.trace)
            (λ b u. Shows env (some b) u × Asked u.server u.trace)
            (λ _ u. Unit × Asked u.server u.trace) (λ _. Holding)
            (Triple-both (is_running env) (λ _. Unit) (λ u. Asked u.server u.trace)
              (λ b. Shows env (some b)) (λ _ u. Asked u.server u.trace) (λ _ _. Unit)
              (λ _ u. Asked u.server u.trace) (is_running-Shows env)
              (Emits-serves Asked (is_running-Look env) Asked-Stable))
            (λ b u x. x) (λ e u x. x.1.0))
          finished w (tt, h)
      where
        finished :
            (b : Bool)
            → Triple
                (λ u. Shows env (some b) u × Asked u.server u.trace)
                (when b
                  then set_server (λ s. record s { finished = success })
                  else raise assertion_error)
                (λ _. Holding)
                (λ _. Holding)
        finished true u x = k.finishes u.server u.trace x.1.0 x.0 x.1.1
        finished false u x = x.1.0

    reset_timeout-keeps :
        (c : ℕ) (r : Request) (f : Action (Unit {0}))
        → Triple (Serving c r) f (λ _. Holding) (λ _. Holding)
        → Triple (Serving c r) (reset_timeout env f) (λ _. Holding) (λ _. Holding)
    unfolding reset_timeout
    reset_timeout-keeps c r f x =
        Triple-bind f _ (Serving c r) (λ _. Holding) (λ _. Holding) (λ _. Holding) x
          (λ _. extend_soft-keeps (60 * second))

    -- A method with the right cookie does what it is for, with a wrong one nothing.
    authenticated-keeps :
        (c : ℕ) (r : Request) (f : Action (Unit {0}))
        → (c ≡ env.cookie → Triple (Serving c r) f (λ _. Holding) (λ _. Holding))
        → Triple (Serving c r) (authenticated env c f) (λ _. Holding) (λ _. Holding)
    unfolding authenticated raise
    authenticated-keeps c r f x =
        Triple-if (c == env.cookie) f _ (Serving c r) (λ _. Holding) (λ _. Holding)
          (λ h. x ((==_iff c env.cookie).0 h)) (λ _ w h. h.0)

    serving :
        (c : ℕ) (r : Request) (f : Action (Unit {0}))
        → Keeps Holding f
        → Triple
            (Serving c r)
            (authenticated env c (reset_timeout env f))
            (λ _. Holding)
            (λ _. Holding)
    serving c r f x = authenticated-keeps c r _ (λ _. reset_timeout-keeps c r _ (λ w h. x w h.0))

    ping-keeps :
        (n : ℕ)
        → Keeps Holding (
            when n == 0
            then raise assertion_error
            else (extend_hard env n >> set_server (λ s. record s { had_contact = true })))
    ping-keeps n =
        Keeps-if Holding _ _ _ (any_keeps (Emits-raise assertion_error))
          (Keeps-bind Holding _ _ (extend_hard-keeps n) (λ _. set_server-keeps _ k.meets))

    call-Any : (c : Call) → Emits Any (call env c >>= λ _. pure tt)
    call-Any c = Emits-bind (any (call-Quiet env c)) (λ _. Emits-pure tt)

    pub perform-keeps :
        (c : ℕ) (r : Request) → Triple (Serving c r) (perform env c r) (λ _. Holding) (λ _. Holding)
    unfolding perform
    perform-keeps c (Request.ping n) =
        authenticated-keeps c (Request.ping n) _ (λ _ w h. ping-keeps n w h.0)
    perform-keeps c Request.acquire_migration_lock =
        serving c _ _ (any_keeps (call-Any Call.local_lock_asked))
    perform-keeps c Request.release_migration_lock =
        serving c _ _ (any_keeps (call-Any Call.local_lock_released))
    perform-keeps c Request.acquire_ceph_locks = serving c _ _ (any_keeps (lock-Any env))
    perform-keeps c Request.prepare_incoming = serving c _ _ (any_keeps (prepare_incoming-Any env))
    perform-keeps c Request.finish_incoming =
        authenticated-keeps c Request.finish_incoming _ (λ p.
          rw p (reset_timeout-keeps env.cookie Request.finish_incoming _ finish_incoming-keeps))
    perform-keeps c Request.rescue = serving c _ _ rescue_incoming-keeps
    perform-keeps c Request.destroy = serving c _ _ destroy_incoming-keeps
    perform-keeps c Request.cancel = serving c _ _ cancel-keeps
