-- ===== src/Agent/Locked.antt =====
-- The decorator `locked`: the lock on the VM's lock file, which is re-entrant.
use fc_qemu.Base.{
  ℕ, suc, ◌≡◌, refl, Result, ok, err, stuck, Bool, true, false, not, ◌==◌, ◌⊎◌, inr, none, some, [],
  ◌∷◌, arith, if◌then◌else◌,
}
use fc_qemu.World.{
  Event, Trace, Env, World, Action, calls, pure, raise, ◌>>=◌, ◌>>◌, when◌then◌else◌, try_finally,
  get_state, flock, set_lock_open, set_lock_count, Triple, Fails, Ends, Triple-bind,
}
use fc_qemu.Agent.{leave_lock, locked}

-- Does this process hold the lock, by the replies so far?
abbrev pub holds : Trace → Bool
holds [] = false
holds (Event.flock_asked _ true ∷ t) = true
holds (Event.flock_released ∷ t) = false
holds (_ ∷ t) = holds t

-- The count is `n`, the lock is held exactly if it is not 0, and then the file is open.
abbrev pub Level : ℕ → World → Type 0
Level n w = (w.lock_count ≡ n) × (holds w.trace ≡ not (n == 0)) × ((n ≡ 0) ⊎ (w.lock_open ≡ true))

-- A command in the middle of which a loop is out of fuel says nothing.
abbrev pub Fails_at : ℕ → Fails
Fails_at n none w = Unit
Fails_at n (some e) w = Level n w

-- An action that leaves the level as it is, however it ends.
abbrev pub KeepsLevel : {A : Type 0} → ℕ → Action A → Type 0
KeepsLevel n m = Triple (Level n) m (λ _. Level n) (Fails_at n)

module _ (env : Env) where
  -- After `flock`.
  abbrev Asked : ℕ → Bool → World → Type 0
  Asked n true w = (w.lock_count ≡ n) × (holds w.trace ≡ true) × (w.lock_open ≡ true)
  Asked n false w = Level n w

  asks :
      (b : Bool) (n : ℕ)
      → Triple (λ w. Level n w × (w.lock_open ≡ true)) (flock env b) (Asked n) (Fails_at n)
  unfolding calls
  asks b n w h = ground arith

  opens :
      (n : ℕ)
      → Triple (Level n) (set_lock_open true) (λ _ w. Level n w × (w.lock_open ≡ true)) (Fails_at n)
  unfolding calls
  opens n w h = ((h.0, h.1, inr refl), refl)

  leaves : (n : ℕ) → Triple (Level (suc n)) (leave_lock env) (λ _. Level n) (Fails_at n)
  unfolding leave_lock calls
  leaves n w h = ground arith

  -- Reading the count.
  reads :
      (n : ℕ)
      → Triple (Asked n true) get_state (λ a u. (a.lock_count ≡ n) × Asked n true u) (Fails_at n)
  unfolding get_state
  reads n w h = (h.0, h)

  counts :
      (n : ℕ) (a : World)
      → Triple
          (λ u. (a.lock_count ≡ n) × Asked n true u)
          (set_lock_count (suc a.lock_count))
          (λ _. Level (suc n))
          (Fails_at n)
  unfolding set_lock_count
  counts n a w h = ground arith

  finishes :
      {A : Type 0} (n : ℕ) (x : Result A × World)
      → Ends (λ _. Level (suc n)) (Fails_at (suc n)) x
      → Ends (λ _. Level n) (Fails_at n) (try_finally (λ _. x) (leave_lock env) x.1)
  unfolding try_finally pure raise
  finishes n (ok a, w) h =
      Triple-bind (leave_lock env) (λ _. pure a) (Level (suc n)) (λ _. Level n) (λ _. Level n)
        (Fails_at n) (leaves n) (λ _ v r. r) w h
  finishes n (err e, w) h =
      Triple-bind (leave_lock env) (λ _. raise e) (Level (suc n)) (λ _. Level n) (λ _. Level n)
        (Fails_at n) (leaves n) (λ _ v r. r) w h
  finishes n (stuck, w) h = tt

  runs_locked :
      {A : Type 0} (n : ℕ) (f : Action A)
      → KeepsLevel (suc n) f
      → Triple
          (Level (suc n))
          (try_finally (f >>= λ a. pure (some a)) (leave_lock env))
          (λ _. Level n)
          (Fails_at n)
  unfolding try_finally pure
  runs_locked n f k w h = finishes n ((f >>= λ a. pure (some a)) w) (
      Triple-bind f (λ a. pure (some a)) (Level (suc n)) (λ _. Level (suc n)) (λ _. Level (suc n))
        (Fails_at (suc n)) k (λ a u r. r) w h)

  -- A command that is locked runs while the lock is held, one level up. At its end, and where the
  -- lock is not got, the level is what it was, however the command ends: the lock is released exactly
  -- by the outermost call.
  pub locked-Level :
      {A : Type 0} (blocking : Bool) (n : ℕ) (f : Action A)
      → KeepsLevel (suc n) f
      → KeepsLevel n (locked env blocking f)
  unfolding locked when◌then◌else◌ pure
  locked-Level blocking n f k =
      Triple-bind (set_lock_open true) _ (Level n) (λ _ w. Level n w × (w.lock_open ≡ true))
        (λ _. Level n) (Fails_at n) (opens n)
        (λ _.
          Triple-bind (flock env blocking) _ _ (Asked n) (λ _. Level n) (Fails_at n)
            (asks blocking n) after)
    where
      after :
          (taken : Bool)
          → Triple
              (Asked n taken)
              (when taken
                then (get_state >>= λ w.
                    set_lock_count (suc w.lock_count)
                    >> try_finally (f >>= λ a. pure (some a)) (leave_lock env))
                else pure none)
              (λ _. Level n)
              (Fails_at n)
      after true =
          Triple-bind get_state _ (Asked n true) (λ a u. (a.lock_count ≡ n) × Asked n true u)
            (λ _. Level n) (Fails_at n) (reads n)
            (λ a.
              Triple-bind (set_lock_count (suc a.lock_count)) _ _ (λ _. Level (suc n))
                (λ _. Level n) (Fails_at n) (counts n a) (λ _. runs_locked n f k))
      after false = λ w h. h
