-- ===== src/Incoming/Cookies.antt =====
-- What the receiving side does for those who do not know its cookie.
use fc_qemu.Base.{
  ℕ, ◌≡◌, refl, Bool, false, Option, none, some, ◌∷◌, ◌⊎◌, inl, inr, migration_error,
  environment_changed, ◌==◌, ==_iff, Bool-cases,
}
use fc_qemu.World.{
  Request, ◌>>=◌, Server, Call, Event, Trace, Env, World, Action, pure, raise, option, try_except,
  when◌then◌else◌, take_request, Ends, Triple, Triple-bind, Triple-except, Triple-weaken, Keeps,
  Keeps-bind, Stable, Emits, Emits-reply, Emits-silent, Emits-mono, Emits-pure, Emits-if,
  Emits-option, emits, Emits-raise, Emits-bind, Emits-serves, call, locate_live_service, set_server,
}
use fc_qemu.Timeout.Rules.{Waits, tick-Waits}
use fc_qemu.Qemu.Looks.{get_state-Emits}
use fc_qemu.Ceph as Ceph
use fc_qemu.Ceph.Questions.{Asks, is_unlocked-Asks, locked_by_me-Asks, locked_by-Asks}
use fc_qemu.Agent.{requires_inmigrate_from}
use fc_qemu.Incoming.{authenticated, perform, handle_request, is_outdated, tick_server, serve}
use fc_qemu.Incoming.Kept.{Kept, newest_request, Holding, Serving, perform-keeps}
use fc_qemu.Incoming.Rounds.{serve-keeps}

-- What the server does while it waits: it reads the clock, asks for the locks, Consul and the
-- configuration, and takes requests with a wrong cookie.
abbrev pub Idle : Env → Event → Type 0
Idle env (Event.time_read _) = Unit
Idle env (Event.slept _) = Unit
Idle env (Event.image_opened _ _) = Unit
Idle env (Event.lock_listed _ _) = Unit
Idle env (Event.called Call.new_config_sought _) = Unit
Idle env (Event.called Call.services_listed _) = Unit
Idle env (Event.request_taken none) = Unit
Idle env (Event.request_taken (some (cookie, r))) = (cookie == env.cookie) ≡ false
Idle env _ = ⊥

-- Since `t0` the server has only waited.
pub data Waited (env : Env) (t0 : Trace) : Trace → Type 0 where
  start : Waited env t0 t0
  wait : (e : Event) (t : Trace) → Idle env e → Waited env t0 t → Waited env t0 (e ∷ t)

-- Since `t0` it has only waited up to a request with the right cookie.
pub data Served (env : Env) (t0 : Trace) : Trace → Type 0 where
  serves :
      (r : Request) (t : Trace)
      → Waited env t0 t
      → Served env t0 (Event.request_taken (some (env.cookie, r)) ∷ t)
  later : (e : Event) (t : Trace) → Served env t0 t → Served env t0 (e ∷ t)

-- The end of the migration, the contact and the deadline are as they were.
abbrev pub Untouched : Server → Server → Type 0
Untouched s0 s =
    (s.finished ≡ s0.finished) × (s.had_contact ≡ s0.had_contact) × (s.cutoff ≡ s0.cutoff)

abbrev pub Authenticated : Env → World → World → Type 0
Authenticated env w0 w =
    (Untouched w0.server w.server × Waited env w0.trace w.trace) ⊎ Served env w0.trace w.trace

Waits→Idle : (env : Env) (e : Event) → Waits e → Idle env e
Waits→Idle env (Event.time_read _) h = tt
Waits→Idle env (Event.slept _) h = tt
Waits→Idle env _ h = elim h [ ]

Asks→Idle : (env : Env) (e : Event) → Asks e → Idle env e
Asks→Idle env (Event.image_opened _ _) h = tt
Asks→Idle env (Event.lock_listed _ _) h = tt
Asks→Idle env _ h = elim h [ ]

module _ (env : Env) where
  asks : {A : Type 0} {m : Action A} → Emits Asks m → Emits (Idle env) m
  asks x = Emits-mono (Asks→Idle env) x

  new_config-Idle : Emits (Idle env) (call env Call.new_config_sought)
  unfolding call
  new_config-Idle = Emits-reply _ _ (λ w. tt)

  services-Idle : Emits (Idle env) (call env Call.services_listed)
  unfolding call
  services-Idle = Emits-reply _ _ (λ w. tt)

  locate-Idle : Emits (Idle env) (locate_live_service env)
  unfolding locate_live_service
  locate-Idle = Emits-bind services-Idle (λ _. Emits-silent _ _ (λ w. refl) (λ w. refl))

  local-Idle : Emits (Idle env) (
      Ceph.is_unlocked env >>= λ unlocked.
      when unlocked
      then pure none
      else (Ceph.locked_by_me env >>= λ mine. when mine then pure none else Ceph.locked_by env))
  local-Idle = Emits-bind (asks (is_unlocked-Asks env)) (λ unlocked.
      Emits-if unlocked (Emits-pure none) (
        Emits-bind (asks (locked_by_me-Asks env))
          (λ mine. Emits-if mine (Emits-pure none) (asks (locked_by-Asks env)))))

  here-Idle :
      (this_host : ℕ) (live : Option ℕ)
      → Emits (Idle env) (requires_inmigrate_from env this_host live)
  unfolding requires_inmigrate_from
  here-Idle this_host live =
      Emits-option live local-Idle (λ h. Emits-if (h == this_host) local-Idle (Emits-pure (some h)))

  pub is_outdated-Idle : (this_host : ℕ) → Emits (Idle env) (is_outdated env this_host)
  unfolding is_outdated
  is_outdated-Idle this_host = search (emits, new_config-Idle, locate-Idle, here-Idle) depth 9

  -- Each method refuses a wrong cookie.
  perform-refuses :
      (c : ℕ) (r : Request) → (c == env.cookie) ≡ false → perform env c r ≡ raise migration_error
  unfolding perform authenticated when◌then◌else◌
  perform-refuses c (Request.ping n) h = rw h refl
  perform-refuses c Request.acquire_migration_lock h = rw h refl
  perform-refuses c Request.release_migration_lock h = rw h refl
  perform-refuses c Request.acquire_ceph_locks h = rw h refl
  perform-refuses c Request.prepare_incoming h = rw h refl
  perform-refuses c Request.finish_incoming h = rw h refl
  perform-refuses c Request.rescue h = rw h refl
  perform-refuses c Request.destroy h = rw h refl
  perform-refuses c Request.cancel h = rw h refl

  module _ (w0 : World) where
    abbrev J : World → Type 0
    J = Authenticated env w0

    Served-Kept : Kept env (λ _. Served env w0.trace)
    Served-Kept = record {
      events = λ s e t u h. later e t h;
      starts = λ s t b h. h;
      waits = λ s t c h. h;
      meets = λ s t h. h;
      destroys = λ s t h. h;
      cancels = λ s t h. h;
      finishes = λ s t h on asked. h;
    }

    abbrev K : Server → Trace → Type 0
    K s t = (Untouched w0.server s × Waited env w0.trace t) ⊎ Served env w0.trace t

    K-Stable : (s : Server) → Stable (Idle env) (K s)
    K-Stable s e t i (inl (u, h)) = inl (u, wait e t i h)
    K-Stable s e t i (inr h) = inr (later e t h)

    harmless_keeps : {A : Type 0} {m : Action A} → Emits (Idle env) m → Keeps J m
    harmless_keeps x = Emits-serves K x K-Stable

    first_keeps : (b : Bool) → Keeps J (set_server (λ s. record s { first = b }))
    unfolding set_server
    first_keeps b w h = h

    tick_server-keeps : Keeps J (tick_server env)
    unfolding tick_server
    tick_server-keeps = Keeps-bind J _ _ (harmless_keeps get_state-Emits) (λ w.
        Keeps-bind J _ _ (harmless_keeps (Emits-mono (Waits→Idle env) (tick-Waits env _)))
          (λ x. Keeps-bind J _ _ (first_keeps x.0.first) (λ _. harmless_keeps (Emits-pure x.1))))

    -- What holds when a request was taken.
    abbrev Taken : Option (ℕ × Request) → World → Type 0
    Taken none w = J w
    Taken (some (c, r)) w =
        (((c == env.cookie) ≡ false) × J w)
        ⊎ (Served env w0.trace w.trace × (newest_request w.trace ≡ some (c, r)))

    rightful :
        (c : ℕ) (r : Request) (w : World)
        → J w
        → c ≡ env.cookie
        → Served env w0.trace (Event.request_taken (some (c, r)) ∷ w.trace)
    rightful c r w (inl (u, h)) p = rw p (serves r w.trace h)
    rightful c r w (inr h) p = later _ w.trace h

    taken :
        (o : Option (ℕ × Request)) (w : World)
        → J w
        → Taken o (record w { trace = Event.request_taken o ∷ w.trace })
    taken none w h = K-Stable w.server _ w.trace tt h
    taken (some (c, r)) w h = elim (Bool-cases (c == env.cookie)) [
      | inr n ↦ inl (n, K-Stable w.server (Event.request_taken (some (c, r))) w.trace n h)
      | inl y ↦ inr (rightful c r w h ((==_iff c env.cookie).0 y), refl)
    ]

    take_request-Taken : Triple J (take_request env) Taken (λ _. J)
    unfolding take_request
    take_request-Taken w h = taken (env.take_request w.trace) w h

    perform-Taken :
        (c : ℕ) (r : Request) → Triple (Taken (some (c, r))) (perform env c r) (λ _. J) (λ _. J)
    unfolding raise
    perform-Taken c r w (inl (n, h)) = rw (perform-refuses c r n) h
    perform-Taken c r w (inr h) =
        Triple-weaken (perform env c r) (Serving env (λ _. Served env w0.trace) Served-Kept c r)
          (λ _. Holding env (λ _. Served env w0.trace) Served-Kept) (λ _. J)
          (λ _. Holding env (λ _. Served env w0.trace) Served-Kept) (λ _. J)
          (perform-keeps env (λ _. Served env w0.trace) Served-Kept c r) (λ _ u x. inr x)
          (λ _ u x. inr x) w h

    handle_request-keeps : Keeps J (handle_request env)
    unfolding handle_request option pure
    handle_request-keeps =
        Triple-bind (take_request env) _ J Taken (λ _. J) (λ _. J) take_request-Taken answered
      where
        answered :
            (o : Option (ℕ × Request))
            → Triple
                (Taken o)
                (option o (pure tt) (λ r. try_except (perform env r.0 r.1) (λ _. pure tt)))
                (λ _. J)
                (λ _. J)
        answered none = λ w h. h
        answered (some (c, r)) =
            Triple-except (perform env c r) _ (Taken (some (c, r))) (λ _. J) (λ _. J) (λ _. J)
              (perform-Taken c r) (λ _ w h. h) (λ w h. h)

  -- From whatever state the server goes on: until the first request with the right cookie it only
  -- waits, and leaves the end of the migration, the contact and the deadline as they are.
  pub serve-Authenticated :
      (fuel this_host : ℕ) (w : World)
      → Ends (λ _. Authenticated env w) (λ _. Authenticated env w) (serve env fuel this_host w)
  serve-Authenticated fuel this_host w =
      serve-keeps env this_host (Authenticated env w) (handle_request-keeps w) (tick_server-keeps w)
        (harmless_keeps w (is_outdated-Idle this_host))
        (harmless_keeps w (Emits-raise environment_changed)) fuel w
        (inl ((refl, refl, refl), start))
