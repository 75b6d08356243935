-- ===== src/Volume/Lock.antt =====
-- `Volume.lock` and `Volume.unlock`.
use fc_qemu.Base.{
  ℕ, zero, suc, ◌≡◌, refl, true, false, some, none, Option, arith, image_busy, if◌then◌else◌, ◌==◌,
}
use fc_qemu.World.{
  Image, Locker, Env, World, calls, when◌then◌else◌, option, Triple, Triple-bind, Triple-if,
  Triple-except, ◌>>◌, set_locked_by_me, pure, raise, Fails,
}
use fc_qemu.Volume.{
  lock_exclusive, rbdimage, lock_status, lock_attempts, lock, is_held_by, is_image_exists,
  is_image_busy,
}
use fc_qemu.Volume.Known.{known_locked}

module _ (env : Env) where
  abbrev pub True : World → Type 0
  True _ = Unit

  -- It is known that this host has the lock.
  abbrev pub Known : Image → World → Type 0
  Known v w = known_locked env.host v w.trace ≡ true

  -- No call raises ImageExists.
  abbrev pub NotExists : Fails
  NotExists none w = Unit
  NotExists (some e) w = is_image_exists e ≡ false

  attempt-Known :
      (v : Image)
      → Triple True
          (rbdimage env v >> lock_exclusive env v env.host >> set_locked_by_me v true)
          (λ _. Known v)
          NotExists
  unfolding rbdimage lock_exclusive known_locked calls
  attempt-Known v w h = ground arith

  pub status-Known :
      (v : Image)
      → Triple True (lock_status env v) (λ s w. is_held_by env.host s ≡ true → Known v w) NotExists
  unfolding lock_status rbdimage known_locked calls
  status-Known v w h = ground arith

  lock_attempts-Known :
      (n : ℕ) (v : Image) → Triple True (lock_attempts env n v) (λ _. Known v) NotExists
  unfolding lock_attempts option pure raise
  lock_attempts-Known zero v = λ w h. refl
  lock_attempts-Known (suc n) v =
      Triple-except _ _ True (λ _. Known v) NotExists NotExists (attempt-Known v)
        (λ e.
          Triple-if (is_image_exists e) (pure tt) _ _ (λ _. Known v) NotExists (λ x w y. cc)
            (λ x.
              Triple-if (is_image_busy e) _ (raise e) _ (λ _. Known v) NotExists
                (λ _.
                  Triple-bind (lock_status env v) _ _
                    (λ s w. is_held_by env.host s ≡ true → Known v w) (λ _. Known v) NotExists
                    (λ w _. status-Known v w tt) (after (lock_attempts-Known n v)))
                (λ _ w h. h)))
        (λ w h. h)
    where
      after :
          Triple True (lock_attempts env n v) (λ _. Known v) NotExists
          → (s : Option Locker)
          → Triple
              (λ w. is_held_by env.host s ≡ true → Known v w)
              (option s
                (lock_attempts env n v)
                (λ l. when l.id == env.host then pure tt else raise image_busy))
              (λ _. Known v)
              NotExists
      after rest none = λ w _. rest w tt
      after rest (some l) =
          Triple-if (l.id == env.host) (pure tt) (raise image_busy) _ (λ _. Known v) NotExists
            (λ e w h. h e) (λ _ w h. refl)

  -- Where `lock` returns, the newest reply about the volume's lock says that this host has it, on
  -- every path; and it never fails with ImageExists.
  pub lock-Known : (v : Image) → Triple True (lock env v) (λ _. Known v) NotExists
  unfolding lock pure
  lock-Known v =
      Triple-bind (lock_status env v) _ True (λ s w. is_held_by env.host s ≡ true → Known v w)
        (λ _. Known v) NotExists (status-Known v)
        (λ s.
          Triple-if (is_held_by env.host s) (pure tt) (lock_attempts env 3 v) _ (λ _. Known v)
            NotExists (λ e w h. h e) (λ _ w _. lock_attempts-Known 3 v w tt))
