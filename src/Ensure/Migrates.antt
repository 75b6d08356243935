-- ===== src/Ensure/Migrates.antt =====
-- `outmigrate`: when it gives something up, and what its report means.
use fc_qemu.Base.{
  ℕ, suc, Bool, true, not, ◌≡◌, refl, Option, none, some, [], ◌∷◌, ◌⊎◌, inl, inr, arith, ◌==◌,
  if◌then◌else◌, invalid_command,
}
use fc_qemu.World.{
  Trace, World, Env, Action, pure, raise, ◌>>=◌, when◌then◌else◌, option, only_if, register, Triple,
  Keeps, Triple-bind, Triple-if, Triple-weaken, Triple-both, Triple-finally, Stable, On, Emits,
  Emits-reply,
}
use fc_qemu.Qemu.{is_running}
use fc_qemu.Qemu.Quiet.{
  Quiet, is_running-Quiet, set_lock_open-Quiet, flock-Quiet, get_state-Quiet, set_lock_count-Quiet,
}
use fc_qemu.Agent.{locked, running, leave_lock, consul_deregister}
use fc_qemu.Agent.Careful.{CarefulOr, Quiet-keeps, consul_deregister-Release}
use fc_qemu.Agent.Commands.{leave_lock-Quiet}
use fc_qemu.Outgoing.{run_outgoing}
use fc_qemu.Outgoing.Locks.{BothLocked, Guarded}
use fc_qemu.Outgoing.Guard.{run_outgoing-Guarded}
use fc_qemu.Ensure.{Wanted, consul_register, outmigrate}
use fc_qemu.Ensure.Handed.{
  Handed, Handed-Stable, Anything, anything, Code, Free, True, run_outgoing-Handed,
}

-- Both migration locks are held, or the other host has the VM.
abbrev pub HandOver : Trace → Type 0
HandOver t = BothLocked t ⊎ Handed t

pub widen : (t : Trace) → CarefulOr BothLocked t → CarefulOr HandOver t
widen [] h = tt
widen (e ∷ t) h =
    ((λ g. elim (h.0 g) [ inl off ↦ inl off | inr both ↦ inr (inl both) ]), widen t h.1)

abbrev pub Good : World → Type 0
Good = On (CarefulOr HandOver)

-- The VM is with the other host, and all that came before was careful.
abbrev pub Over : Trace → Type 0
Over t = Handed t × CarefulOr HandOver t

Over-Stable : Stable Anything Over
Over-Stable e t a h = (Handed-Stable e t a h.0, ((λ _. inr (inr h.0)), h.1))

pub Over-keeps : {A : Type 0} {m : Action A} → Emits Anything m → Keeps (On Over) m
Over-keeps x = x.keeps Over Over-Stable

-- What an outgoing migration reports, and that all was careful.
abbrev pub Reported : ℕ → Trace → Type 0
Reported n t = CarefulOr HandOver t × (n ≡ 0 → Handed t)

Reported-Stable : (n : ℕ) → Stable Quiet (Reported n)
Reported-Stable n e t q h =
    (((λ g. ground (arith, q, g)), h.0), (λ z. Handed-Stable e t tt (h.1 z)))

module _ (env : Env) (cfg : Wanted) where
  pub quiet : {A : Type 0} {m : Action A} → Emits Quiet m → Keeps Good m
  quiet e = Quiet-keeps HandOver e

  register-Quiet : Emits Quiet (consul_register env cfg)
  unfolding consul_register register
  register-Quiet = Emits-reply _ _ (λ w. refl)

  pub narrow :
      {A : Type 0} {m : Action A} → Emits Quiet m → Triple Guarded m (λ _. Guarded) (λ _. Good)
  narrow {m} x =
      Triple-weaken m Guarded (λ _. Guarded) (λ _. Guarded) (λ _. Guarded) (λ _. Good)
        (Quiet-keeps BothLocked x) (λ a u h. h) (λ e u h. widen u.trace h)

  -- The end of `outmigrate`, with the exit code.
  finishes :
      (n : ℕ)
      → Triple
          (λ w. Guarded w × Code env n w)
          (only_if (n == 0) (consul_deregister env) >>= λ _. pure n)
          (λ m. On (Reported m))
          (λ _. Good)
  unfolding pure
  finishes n =
      Triple-bind (only_if (n == 0) (consul_deregister env)) _ _ (λ _. On (Reported n))
        (λ m. On (Reported m)) (λ _. Good)
        (Triple-if (n == 0) (consul_deregister env) (pure tt) _ (λ _. On (Reported n)) (λ _. Good)
          (λ e w h.
            Triple-weaken (consul_deregister env) (On Over) (λ _. On Over) (λ _. On (Reported n))
              (λ _. On Over) (λ _. Good)
              (Over-keeps (anything (consul_deregister-Release HandOver env)))
              (λ a u k. (k.1, (λ _. k.0))) (λ x u k. k.1) w
              (h.1 (ground (arith, e)), widen w.trace h.0))
          (λ _ w h. (widen w.trace h.0, h.1)))
        (λ _ w h. h)

  migrates :
      Triple Guarded (run_outgoing env cfg.fuel) (λ n w. Guarded w × Code env n w) (λ _. Good)
  migrates w h =
      Triple-weaken (run_outgoing env cfg.fuel) (λ u. Guarded u × Unit)
        (λ n u. Guarded u × Code env n u) (λ n u. Guarded u × Code env n u)
        (λ e u. Guarded u × Unit) (λ _. Good)
        (Triple-both (run_outgoing env cfg.fuel) Guarded True (λ _. Guarded) (Code env)
          (λ _. Guarded) Free (run_outgoing-Guarded env cfg.fuel)
          (run_outgoing-Handed env cfg.fuel))
        (λ a u k. k) (λ e u k. widen u.trace k.0) w (h, tt)

  migrates_and_leaves :
      Triple Guarded
        (consul_register env cfg >>= λ _. run_outgoing env cfg.fuel >>= λ n.
          only_if (n == 0) (consul_deregister env) >>= λ _. pure n)
        (λ n. On (Reported n))
        (λ _. Good)
  migrates_and_leaves =
      Triple-bind (consul_register env cfg) _ Guarded (λ _. Guarded) (λ n. On (Reported n))
        (λ _. Good) (narrow register-Quiet)
        (λ _.
          Triple-bind (run_outgoing env cfg.fuel) _ Guarded (λ n w. Guarded w × Code env n w)
            (λ n. On (Reported n)) (λ _. Good) migrates finishes)

  -- Under `running(True)`.
  runs :
      {A : Type 0} (f : Action A) (P : A → World → Type 0)
      → Triple Guarded f P (λ _. Good)
      → Triple Guarded (running env true f) P (λ _. Good)
  unfolding running raise
  runs f P k =
      Triple-bind (is_running env) _ Guarded (λ _. Guarded) P (λ _. Good)
        (narrow (is_running-Quiet env))
        (λ b.
          Triple-if (if b then true else not true) f (raise invalid_command) Guarded P (λ _. Good)
            (λ _. k) (λ _ w h. widen w.trace h))

  -- Under `locked`, for what holds at the end and is kept by what gives nothing up.
  module _ {A : Type 0} (P : A → Trace → Type 0) (stable : (a : A) → Stable Quiet (P a))
      (good : (a : A) (t : Trace) → P a t → CarefulOr HandOver t) where
    unfoldable pub Lifted : Option A → World → Type 0
    Lifted none w = Good w
    Lifted (some a) w = P a w.trace

    leaves : (o : Option A) → Triple (Lifted o) (leave_lock env) (λ _. Lifted o) (λ _. Good)
    unfolding Lifted
    leaves none = quiet (leave_lock-Quiet HandOver env)
    leaves (some a) =
        Triple-weaken (leave_lock env) (On (P a)) (λ _. On (P a)) (λ _. On (P a)) (λ _. On (P a))
          (λ _. Good) ((leave_lock-Quiet HandOver env).keeps (P a) (stable a)) (λ _ u h. h)
          (λ e u h. good a u.trace h)

    pub locks :
        (blocking : Bool) (f : Action A)
        → Triple Guarded f (λ a. On (P a)) (λ _. Good)
        → Triple Guarded (locked env blocking f) Lifted (λ _. Good)
    unfolding locked Lifted pure
    locks blocking f k =
        Triple-bind _ _ Guarded (λ _. Guarded) Lifted (λ _. Good)
          (narrow (set_lock_open-Quiet true))
          (λ _.
            Triple-bind _ _ Guarded (λ _. Guarded) Lifted (λ _. Good)
              (narrow (flock-Quiet env blocking))
              (λ taken.
                Triple-if taken _ (pure none) Guarded Lifted (λ _. Good)
                  (λ _.
                    Triple-bind _ _ Guarded (λ _. Guarded) Lifted (λ _. Good)
                      (narrow get_state-Quiet)
                      (λ w.
                        Triple-bind _ _ Guarded (λ _. Guarded) Lifted (λ _. Good)
                          (narrow (set_lock_count-Quiet (suc w.lock_count)))
                          (λ _.
                            Triple-finally _ (leave_lock env) Guarded Lifted Lifted Good Good
                              (Triple-bind f _ Guarded (λ a. On (P a)) Lifted (λ _. Good) k
                                (λ a u h. h))
                              leaves (quiet (leave_lock-Quiet HandOver env)) (λ u h. h))))
                  (λ _ w h. widen w.trace h)))

  abbrev CodeOf : Option ℕ → World → Type 0
  CodeOf = Lifted Reported Reported-Stable (λ a t h. h.0)

  -- A lock that was not got is no success.
  code_of :
      (code : Option ℕ)
      → Triple (CodeOf code) (option code (pure 75) pure) (λ n. On (Reported n)) (λ _. Good)
  unfolding option pure Lifted
  code_of none w h = (h, λ z. ground (arith, z))
  code_of (some n) w h = h

  pub outmigrate-Reported : Triple Guarded (outmigrate env cfg) (λ n. On (Reported n)) (λ _. Good)
  unfolding outmigrate
  outmigrate-Reported =
      Triple-bind (locked env true _) _ Guarded CodeOf (λ n. On (Reported n)) (λ _. Good)
        (locks Reported Reported-Stable (λ a t h. h.0) true _
          (runs _ (λ n. On (Reported n)) migrates_and_leaves))
        code_of
