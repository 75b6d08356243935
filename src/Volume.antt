-- ===== src/Volume.antt =====
-- The locks of one volume: class Image of hazmat/libceph.py (`lock_exclusive`, `list_lockers`,
-- `unlock`) and class Volume of hazmat/volume.py (`rbdimage`, `lock_status`, `lock`, `unlock`).
pub mod Known
pub mod Lock
pub mod Calls
pub mod Unlock
pub mod Removal
pub mod Device
pub mod Size
use fc_qemu.Base.{
  ℕ, zero, suc, Bool, true, false, not, ◌||◌, Option, none, some, List, [], ◌∷◌, any, Exc,
  image_not_found, image_busy, image_exists, not_implemented_error, ◌==◌, if◌then◌else◌,
}
use fc_qemu.World.{
  Image, Locker, Env, Action, pure, raise, ◌>>=◌, ◌>>◌, try_except, when◌then◌else◌, only_if,
  option, get_state, open_image, list_locks, add_lock, remove_lock, set_opened, set_locked_by_me,
}

abbrev pub is_image_not_found : Exc → Bool
is_image_not_found image_not_found = true
is_image_not_found _ = false

abbrev pub is_image_busy : Exc → Bool
is_image_busy image_busy = true
is_image_busy _ = false

abbrev pub is_image_exists : Exc → Bool
is_image_exists image_exists = true
is_image_exists _ = false

abbrev pub find : ℕ → List Locker → Option Locker
find cookie [] = none
find cookie (l ∷ ls) = if l.id == cookie then some l else find cookie ls

-- `lock_id == CEPH_LOCK_HOST`, and false if there is no lock.
abbrev pub is_held_by : ℕ → Option Locker → Bool
is_held_by host none = false
is_held_by host (some l) = l.id == host

-- One locker or none; shared locks are refused.
abbrev pub sole : List Locker → Action (Option Locker)
sole [] = pure none
sole (l ∷ []) = pure (some l)
sole (l ∷ m ∷ ls) = raise not_implemented_error

module _ (env : Env) where
  -- `Image.lock_exclusive(cookie)`: an add that fails is fine if the list has the cookie.
  pub lock_exclusive : Image → ℕ → Action (Unit {0})
  lock_exclusive v cookie = do
    added ← add_lock env v cookie
    when added then pure tt else (do
      ls ← list_locks env v
      when any (λ l. l.id == cookie) ls then pure tt else raise image_busy)

  -- `Image.unlock(cookie)`
  pub unlock_image : Image → ℕ → Action (Unit {0})
  unlock_image v cookie = do
    ls ← list_locks env v
    option (find cookie ls) (raise image_busy) (λ l. remove_lock env v l)

  -- The property `Volume.rbdimage`, which opens the image once.
  unfoldable pub rbdimage : Image → Action (Unit {0})
  rbdimage v = do
    w ← get_state
    only_if (not (w.volume v.name).opened) (open_image env v >> set_opened v true)

  -- An image that is gone has no lockers.
  pub lock_status : Image → Action (Option Locker)
  lock_status v = do
    ls ←
        try_except (rbdimage v >> list_locks env v)
          (λ e. when is_image_not_found e then pure [] else raise e)
    sole ls

  -- `while retry:` in `Volume.lock`, for the retries that are left.
  pub lock_attempts : ℕ → Image → Action (Unit {0})
  lock_attempts zero v = raise image_busy
  lock_attempts (suc retry) v =
      try_except (rbdimage v >> lock_exclusive v env.host >> set_locked_by_me v true) λ e.
        when is_image_exists e
        then pure tt
        else (when is_image_busy e
            then (do
              status ← lock_status v
              option status (lock_attempts retry v)
                  (λ l. when l.id == env.host then pure tt else raise image_busy))
            else raise e)

  pub lock : Image → Action (Unit {0})
  lock v = do
    status ← lock_status v
    when is_held_by env.host status then pure tt else lock_attempts 3 v

  pub unlock : Image → Bool → Action (Unit {0})
  unlock v force = do
    status ← lock_status v
    option status (pure tt) (λ l. do
      w ← get_state
      when (w.volume v.name).locked_by_me || l.id == env.host
          then (unlock_image v l.id >> set_locked_by_me v false)
          else only_if force (unlock_image v l.id))
