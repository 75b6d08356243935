-- ===== src/Ceph.antt =====
-- The locks of all volumes of a VM: class Ceph of hazmat/ceph.py (`is_unlocked`, `locked_by_me`,
-- `locked_by`, `lock`, `unlock`, `force_unlock`, `stop`).
pub mod Locks
pub mod Removal
pub mod Calls
pub mod Quiet
pub mod Mine
pub mod Questions
pub mod Pools
pub mod Specs
pub mod Status
use fc_qemu.Base.{
  ℕ, Bool, true, false, not, ◌||◌, Option, none, some, List, [], ◌∷◌, any, is_empty, Exc,
  type_error, value_error, runtime_error, ◌==◌, if◌then◌else◌,
}
use fc_qemu.World.{
  Image, Locker, Env, World, Action, pure, raise, ◌>>=◌, ◌>>◌, try_except, try_exception,
  when◌then◌else◌, only_if, option, get_state,
}
use fc_qemu.Volume.{lock_status}
use fc_qemu.Volume as Volume

-- A set, as the list of its members.
abbrev pub add_member : ℕ → List ℕ → List ℕ
add_member a s = if any (λ b. b == a) s then s else a ∷ s

abbrev pub is_type_error : Exc → Bool
is_type_error type_error = true
is_type_error _ = false

-- `v.lock_status()[1]`, which is a TypeError on None.
abbrev pub lock_id : Option Locker → Action ℕ
lock_id s = option s (raise type_error) (λ l. pure l.id)

-- The end of `locked_by`.
abbrev sole_owner : List ℕ → Action (Option ℕ)
sole_owner [] = pure none
sole_owner (h ∷ []) = pure (some h)
sole_owner (h ∷ i ∷ owners) = raise value_error

module _ (env : Env) where
  -- `all(not volume.lock_status() for …)`, which stops at the first lock.
  pub all_unlocked : List Image → Action Bool
  all_unlocked [] = pure true
  all_unlocked (v ∷ vs) = do s ← lock_status env v; option s (all_unlocked vs) (λ _. pure false)

  pub is_unlocked : Action Bool
  is_unlocked = do w ← get_state; all_unlocked w.volumes

  -- `all(v.lock_status()[1] == self.CEPH_LOCK_HOST for …)`
  unfoldable pub all_mine : List Image → Action Bool
  all_mine [] = pure true
  all_mine (v ∷ vs) = do
    s ← lock_status env v
    id ← lock_id s
    when id == env.host then all_mine vs else pure false

  unfoldable pub locked_by_me : Action Bool
  locked_by_me = do
    w ← get_state
    when is_empty w.volumes
        then pure false
        else try_except (all_mine w.volumes)
            (λ e. when is_type_error e then pure false else raise e)

  -- The set comprehension of `locked_by`, which asks for each status twice.
  pub lock_owners : List Image → List ℕ → Action (List ℕ)
  lock_owners [] owners = pure owners
  lock_owners (v ∷ vs) owners = do
    s ← lock_status env v
    added ←
        option s (pure owners)
          (λ _. do again ← lock_status env v; id ← lock_id again; pure (add_member id owners))
    lock_owners vs added

  pub locked_by : Action (Option ℕ)
  locked_by = do w ← get_state; owners ← lock_owners w.volumes []; sole_owner owners

  pub lock_all : List Image → Action (Unit {0})
  lock_all [] = pure tt
  lock_all (v ∷ vs) = Volume.lock env v >> lock_all vs

  pub lock : Action (Unit {0})
  lock = do w ← get_state; lock_all w.volumes

  -- The loop of `unlock`, which goes on past a failure: did any call fail?
  pub unlock_all : List Image → Bool → Action Bool
  unlock_all [] exception = pure exception
  unlock_all (v ∷ vs) exception = do
    failed ← try_exception (Volume.unlock env v false >> pure exception) (pure true)
    unlock_all vs failed

  pub unlock : Action (Unit {0})
  unlock = do
    w ← get_state
    exception ← unlock_all w.volumes false
    only_if exception (raise runtime_error)

  pub stop : Action (Unit {0})
  stop = unlock

  pub force_unlock_all : List Image → Action (Unit {0})
  force_unlock_all [] = pure tt
  force_unlock_all (v ∷ vs) = Volume.unlock env v true >> force_unlock_all vs

  pub force_unlock : Action (Unit {0})
  force_unlock = do w ← get_state; force_unlock_all w.volumes
