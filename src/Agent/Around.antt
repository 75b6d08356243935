-- ===== src/Agent/Around.antt =====
-- The decorator `locked` around an action: what the lock file's calls leave as it is.
use fc_qemu.Base.{ℕ, suc, Bool, true, none, some, refl, Option}
use fc_qemu.World.{
  Event, Trace, Env, Action, flock, release_flock, set_lock_open, set_lock_count, Keeps, Keeps-bind,
  Keeps-if, Keeps-pure, Triple-finally, Triple-bind, Triple-if, Triple-weaken, Triple, Ends-last,
  World, pure, get_state, ◌>>=◌, Stable, On, Emits, Emits-reply, Emits-silent, emits,
}
use fc_qemu.Qemu.Looks.{get_state-Emits}
use fc_qemu.Agent.{leave_lock, locked}

abbrev pub LockFile : Event → Type 0
LockFile (Event.flock_asked b r) = Unit
LockFile Event.flock_released = Unit
LockFile _ = ⊥

release_flock-LockFile : Emits LockFile release_flock
unfolding release_flock
release_flock-LockFile = Emits-reply _ _ (λ w. tt)

set_lock_open-LockFile : (b : Bool) → Emits LockFile (set_lock_open b)
unfolding set_lock_open
set_lock_open-LockFile b = Emits-silent _ _ (λ w. refl) (λ w. refl)

set_lock_count-LockFile : (n : ℕ) → Emits LockFile (set_lock_count n)
unfolding set_lock_count
set_lock_count-LockFile n = Emits-silent _ _ (λ w. refl) (λ w. refl)

leave_lock-LockFile : (env : Env) → Emits LockFile (leave_lock env)
unfolding leave_lock
leave_lock-LockFile env =
    search
      (
        emits, get_state-Emits, set_lock_count-LockFile, release_flock-LockFile,
        set_lock_open-LockFile,
      )
      depth 9

module _ (env : Env) (T : Trace → Type 0) (stable : Stable LockFile T) where
  flock-LockFile : (b : Bool) → Emits LockFile (flock env b)
  unfolding flock
  flock-LockFile b = Emits-reply _ _ (λ w. tt)

  keeps : {A : Type 0} {m : Action A} → Emits LockFile m → Keeps (On T) m
  keeps e = e.keeps T stable

  -- Inside the lock.
  pub locked_keeps :
      {A : Type 0} (b : Bool) (f : Action A) → Keeps (On T) f → Keeps (On T) (locked env b f)
  unfolding locked
  locked_keeps b f k = Keeps-bind (On T) _ _ (keeps (set_lock_open-LockFile true)) (λ _.
      Keeps-bind (On T) _ _ (keeps (flock-LockFile b)) (λ taken.
        Keeps-if (On T) taken _ _
          (Keeps-bind (On T) _ _ (keeps get_state-Emits) (λ w.
            Keeps-bind (On T) _ _ (keeps (set_lock_count-LockFile (suc w.lock_count))) (λ _.
              Triple-finally _ _ (On T) (λ _. On T) (λ _. On T) (On T) (On T)
                (Keeps-bind (On T) f _ k (λ a. Keeps-pure (On T) (some a)))
                (λ _. keeps (leave_lock-LockFile env)) (keeps (leave_lock-LockFile env))
                (λ u h. h))))
          (Keeps-pure (On T) none)))

-- What an answer that has passed through the lock says; there may be none.
abbrev pub Through : {A : Type 0} → (A → Trace → Type 0) → Option A → World → Type 0
Through P none w = Unit
Through P (some a) w = P a w.trace

module _ {A : Type 0} (env : Env) (P : A → Trace → Type 0) where
  pub locked-Through :
      (b : Bool) (f : Action A)
      → ((a : A) → Stable LockFile (P a))
      → Triple (λ _. Unit) f (λ a. On (P a)) (λ _ _. Unit)
      → Triple (λ _. Unit) (locked env b f) (Through P) (λ _ _. Unit)
  unfolding locked pure
  locked-Through b f stable h = passes (set_lock_open true) _ (λ _. passes (flock env b) _ (λ taken.
      Triple-if taken _ _ (λ _. Unit) (Through P) (λ _ _. Unit)
        (λ _. passes get_state _ (λ w. passes (set_lock_count (suc w.lock_count)) _ (λ _.
          Triple-finally _ (leave_lock env) (λ _. Unit) (Through P) (Through P) (λ _. Unit)
            (λ _. Unit)
            (Triple-bind f _ (λ _. Unit) (λ a. On (P a)) (Through P) (λ _ _. Unit) h (λ a w k. k))
            leaves (silent (leave_lock env)) (λ w k. tt))))
        (λ _ w k. tt)))
    where
      silent : (m : Action (Unit {0})) → Triple (λ _. Unit) m (λ _ _. Unit) (λ _ _. Unit)
      silent m w k = Ends-last (λ _. Unit) (m w) tt

      leaves :
          (o : Option A) → Triple (Through P o) (leave_lock env) (λ _. Through P o) (λ _ _. Unit)
      leaves none = silent (leave_lock env)
      leaves (some a) =
          Triple-weaken (leave_lock env) (On (P a)) (λ _. On (P a)) (λ _. On (P a)) (λ _. On (P a))
            (λ _ _. Unit) ((leave_lock-LockFile env).keeps (P a) (stable a)) (λ _ w k. k)
            (λ e w k. tt)

      passes :
          {B : Type 0} (m : Action B) (k : B → Action (Option A))
          → ((x : B) → Triple (λ _. Unit) (k x) (Through P) (λ _ _. Unit))
          → Triple (λ _. Unit) (m >>= k) (Through P) (λ _ _. Unit)
      passes m k g =
          Triple-bind m k (λ _. Unit) (λ _ _. Unit) (Through P) (λ _ _. Unit)
            (λ w _. Ends-last (λ _. Unit) (m w) tt) g
