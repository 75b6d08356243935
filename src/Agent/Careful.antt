-- ===== src/Agent/Careful.antt =====
-- When the Agent gives a lock, the registration or the run files up: the rounds of its loops.
use fc_qemu.Base.{ℕ, ◌≡◌, Bool, true, false, Option, none, some, [], ◌∷◌, if◌then◌else◌, ◌⊎◌, inl}
use fc_qemu.World.{
  Event, Trace, Env, World, Action, ◌>>=◌, when◌then◌else◌, service_known, deregister,
  remove_run_files, Triple, Keeps, Triple-bind, Triple-weaken, Triple-both, Keeps-pure, Stable, On,
  Emits, Emits-reply, emits, Emits-mono,
}
use fc_qemu.Timeout.{while_ticking, TimeOut}
use fc_qemu.Timeout.Rules.{OptionPost, Triple-ticking}
use fc_qemu.Qemu.{is_running}
use fc_qemu.Qemu.Belief.{SeenOff}
use fc_qemu.Qemu.Running.{Shows, is_running-Shows}
use fc_qemu.Qemu.Quiet.{Quiet, gives_up, tick-Quiet, is_running-Quiet}
use fc_qemu.Ceph as Ceph
use fc_qemu.Ceph.Calls as Ceph_calls
use fc_qemu.Volume.Removal.{LockCall}
use fc_qemu.Agent.{consul_deregister, cleanup, release_if_gone, stop_if_gone}

-- Each lock that was removed, registration ended or run file removed came when the newest look at
-- the VM had found it off, or where `Also` holds.
abbrev pub CarefulOr : (Trace → Type 0) → Trace → Type 0
CarefulOr Also [] = Unit
CarefulOr Also (e ∷ t) = (gives_up e ≡ true → SeenOff t ⊎ Also t) × CarefulOr Also t

abbrev pub Never : Trace → Type 0
Never _ = ⊥

abbrev pub Careful : Trace → Type 0
Careful = CarefulOr Never

-- Giving up, with what is looked at for it.
abbrev pub Release : Event → Type 0
Release e = (t : Trace) → SeenOff t → SeenOff (e ∷ t)

pub LockCall-Release : (e : Event) → LockCall e → Release e
LockCall-Release (Event.image_opened _ _) h t k = k
LockCall-Release (Event.lock_listed _ _) h t k = k
LockCall-Release (Event.lock_added _ _ _) h t k = k
LockCall-Release (Event.lock_removed _ _ _) h t k = k
LockCall-Release _ h t k = elim h [ ]

module _ (Also : Trace → Type 0) where
  pub Careful-Stable : Stable Quiet (CarefulOr Also)
  Careful-Stable e t q h = ((λ g. cc), h)

  -- The VM was seen off, and all that came before was careful.
  abbrev pub Off : Trace → Type 0
  Off t = SeenOff t × CarefulOr Also t

  Release-Stable : Stable Release Off
  Release-Stable e t r h = (r t h.0, ((λ _. inl h.0), h.1))

  -- An action that may give things up, run where the VM was seen off.
  pub Off-keeps :
      {A : Type 0} {m : Action A}
      → Emits Release m
      → Triple (On Off) m (λ _. On (CarefulOr Also)) (λ _. On (CarefulOr Also))
  Off-keeps {m} e =
      Triple-weaken m (On Off) (λ _. On Off) (λ _. On (CarefulOr Also)) (λ _. On Off)
        (λ _. On (CarefulOr Also)) (e.keeps Off Release-Stable) (λ _ w h. h.1) (λ _ w h. h.1)

  pub Quiet-keeps : {A : Type 0} {m : Action A} → Emits Quiet m → Keeps (On (CarefulOr Also)) m
  Quiet-keeps e = e.keeps (CarefulOr Also) Careful-Stable

  -- A look at the VM, and what is done when it is off.
  abbrev pub Seen : Bool → World → Type 0
  Seen true w = CarefulOr Also w.trace
  Seen false w = Off w.trace

  module _ (env : Env) where
    pub is_running-Seen :
        Triple (On (CarefulOr Also)) (is_running env) Seen (λ _. On (CarefulOr Also))
    is_running-Seen = λ w h.
        Triple-weaken (is_running env) (λ u. Unit × On (CarefulOr Also) u)
          (λ b u. Shows env (some b) u × On (CarefulOr Also) u) Seen
          (λ e u. Unit × On (CarefulOr Also) u) (λ _. On (CarefulOr Also))
          (Triple-both (is_running env) (λ _. Unit) (On (CarefulOr Also)) (λ b. Shows env (some b))
            (λ _. On (CarefulOr Also)) (λ _ _. Unit) (λ _. On (CarefulOr Also))
            (is_running-Shows env) (Quiet-keeps (is_running-Quiet env)))
          seen (λ e u k. k.1) w (tt, h)
      where
        seen : (b : Bool) (u : World) → Shows env (some b) u × On (CarefulOr Also) u → Seen b u
        seen true u k = k.1
        seen false u k = k

    pub when_off :
        {A : Type 0} (m n : Action A)
        → Keeps (On (CarefulOr Also)) m
        → Emits Release n
        → Keeps (On (CarefulOr Also)) (is_running env >>= λ runs. when runs then m else n)
    unfolding when◌then◌else◌
    when_off m n k e =
        Triple-bind (is_running env) _ (On (CarefulOr Also)) Seen (λ _. On (CarefulOr Also))
          (λ _. On (CarefulOr Also)) is_running-Seen after
      where
        after :
            (b : Bool)
            → Triple
                (Seen b)
                (when b then m else n)
                (λ _. On (CarefulOr Also))
                (λ _. On (CarefulOr Also))
        after true = k
        after false = Off-keeps e

    pub stop-Release : Emits Release (Ceph.stop env)
    stop-Release = Emits-mono LockCall-Release (Ceph_calls.stop-LockCall env)

    service_known-Release : Emits Release (service_known env)
    unfolding service_known
    service_known-Release = Emits-reply _ _ (λ w t h. h)

    deregister-Release : Emits Release (deregister env)
    unfolding deregister
    deregister-Release = Emits-reply _ _ (λ w t h. h)

    pub cleanup-Release : Emits Release (cleanup env)
    unfolding cleanup remove_run_files
    cleanup-Release = Emits-reply _ _ (λ w t h. h)

    pub consul_deregister-Release : Emits Release (consul_deregister env)
    unfolding consul_deregister
    consul_deregister-Release = search (emits, service_known-Release, deregister-Release) depth 9

    pub release_if_gone-Careful : Keeps (On (CarefulOr Also)) (release_if_gone env)
    unfolding release_if_gone
    release_if_gone-Careful =
        when_off _ _ (Keeps-pure (On (CarefulOr Also)) none)
          (search (emits, stop-Release, consul_deregister-Release, cleanup-Release) depth 9)

    pub stop_if_gone-Careful : Keeps (On (CarefulOr Also)) (stop_if_gone env)
    unfolding stop_if_gone
    stop_if_gone-Careful =
        when_off _ _ (Keeps-pure (On (CarefulOr Also)) none)
          (search (emits, stop-Release, consul_deregister-Release, cleanup-Release) depth 9)

    -- Loops over a round that is careful.
    pub ticking_keeps :
        {A : Type 0} (body : Action (Option A))
        → Keeps (On (CarefulOr Also)) body
        → (n : ℕ) (t : TimeOut) → Keeps (On (CarefulOr Also)) (while_ticking env n t body)
    ticking_keeps {A = A} body k n t =
        Triple-weaken (while_ticking env n t body) (On (CarefulOr Also))
          (OptionPost (λ _. On (CarefulOr Also)) (On (CarefulOr Also))) (λ _. On (CarefulOr Also))
          (λ _. On (CarefulOr Also)) (λ _. On (CarefulOr Also))
          (Triple-ticking env body (On (CarefulOr Also)) (λ _. On (CarefulOr Also))
            (λ _. On (CarefulOr Also)) (λ u. Quiet-keeps (tick-Quiet env u))
            (λ w h.
              Triple-weaken body (On (CarefulOr Also)) (λ _. On (CarefulOr Also))
                (OptionPost (λ _. On (CarefulOr Also)) (On (CarefulOr Also)))
                (λ _. On (CarefulOr Also)) (λ _. On (CarefulOr Also)) k (λ o u. both o u)
                (λ e u c. c) w h)
            (λ w h. h) n t)
          (λ o u h. back o u h) (λ e u h. h)
      where
        both :
            (o : Option A) (u : World)
            → On (CarefulOr Also) u
            → OptionPost (λ _. On (CarefulOr Also)) (On (CarefulOr Also)) o u
        both none u h = h
        both (some a) u h = h

        back :
            (o : Option A) (u : World)
            → OptionPost (λ _. On (CarefulOr Also)) (On (CarefulOr Also)) o u
            → On (CarefulOr Also) u
        back none u h = h
        back (some a) u h = h
