-- ===== src/Ceph/Pools.antt =====
-- Where the images of a VM are: `exists_in_pools`, `exists_in_desired_pool`, `exists_in_pool` of class
-- VolumeSpecification, `attach_volumes`, `ensure_volume_presence`, `get_volume` of class Ceph, in
-- hazmat/ceph.py.
pub mod Presence
use fc_qemu.Base.{
  ℕ, Bool, true, false, not, Option, none, some, List, [], ◌∷◌, ◌++◌, any, Exc, runtime_error,
  key_error, attribute_error, ◌==◌, ltb, if◌then◌else◌,
}
use fc_qemu.Util.Parse.{valid_rbd_pool_name}
use fc_qemu.World.{
  Image, VolumeState, Call, Env, World, Action, pure, raise, ◌>>=◌, ◌>>◌, when◌then◌else◌, only_if,
  option, try_except, get_state, call, open_image, list_pools, set_volume_state, set_volumes,
  set_ioctxs, set_attached,
}
use fc_qemu.Volume.{is_image_not_found}
use fc_qemu.Volume.Size.{close}

-- The specifications, in the order in which they are made, with their suffixes.
pub data Spec : Type 0 where
  root swap tmp cidata : Spec

abbrev pub name_of : Spec → ℕ
name_of root = 0
name_of swap = 1
name_of tmp = 2
name_of cidata = 3

abbrev pub specs : List Spec
specs = root ∷ swap ∷ tmp ∷ cidata ∷ []

abbrev pub volume_named : ℕ → List Image → Option Image
volume_named name [] = none
volume_named name (v ∷ vs) =
    let rest = volume_named name vs in if v.name == name then some v else rest

-- A volume under its key; the dict keeps the order of the specifications.
abbrev pub put_volume : Image → List Image → List Image
put_volume v [] = v ∷ []
put_volume v (u ∷ vs) =
    let rest = put_volume v vs in
    if u.name == v.name then v ∷ vs else (if ltb v.name u.name then v ∷ u ∷ vs else u ∷ rest)

abbrev pub new_state : VolumeState
new_state = record {
  opened = false;
  locked_by_me = false;
  mapped_device = false;
  device = false;
  part1dev = false;
  mountpoint = false;
}

abbrev pub member : ℕ → List ℕ → Bool
member a s = any (λ b. b == a) s

module _ (env : Env) where
  -- `libceph.Image(ioctx, name)` with a handler for ImageNotFound: is the image there?
  unfoldable pub seek : Image → Action Bool
  seek v =
      try_except (open_image env v >> pure true)
        (λ e. when is_image_not_found e then pure false else raise e)

  unfoldable pub pools_with : ℕ → List ℕ → Action (List ℕ)
  pools_with name [] = pure []
  pools_with name (pool ∷ pools) = do
    found ← seek (record { pool = pool; name = name })
    rest ← pools_with name pools
    pure (if found then pool ∷ rest else rest)

  unfoldable pub exists_in_pools : Spec → Action (List ℕ)
  exists_in_pools spec = do w ← get_state; pools_with (name_of spec) w.ioctxs

  -- `self.ioctxs[pool]`
  unfoldable pub ioctx : ℕ → Action (Unit {0})
  ioctx pool = do w ← get_state; only_if (not (member pool w.ioctxs)) (raise key_error)

  unfoldable pub exists_in_desired_pool : Spec → Action Bool
  exists_in_desired_pool spec =
      ioctx env.rbd_pool >> seek (record { pool = env.rbd_pool; name = name_of spec })

  abbrev pub sole_pool : List ℕ → Action (Option ℕ)
  sole_pool [] = pure none
  sole_pool (pool ∷ []) = pure (some pool)
  sole_pool _ = raise runtime_error

  unfoldable pub exists_in_pool : Spec → Action (Option ℕ)
  exists_in_pool spec = do pools ← exists_in_pools spec; sole_pool pools

  -- The property `volume`, or an AttributeError where the code uses the volume and there is none.
  unfoldable pub volume : Spec → Action (Option Image)
  volume spec = do w ← get_state; pure (volume_named (name_of spec) w.volumes)

  unfoldable pub the_volume : Spec → Action Image
  the_volume spec = do v ← volume spec; option v (raise attribute_error) pure

  -- A new Volume object for the image.
  unfoldable pub attach : Image → Action (Unit {0})
  attach v = set_volume_state v (λ _. new_state) >> set_volumes (put_volume v)

  unfoldable pub get_volume : Spec → Action (Unit {0})
  get_volume spec = do
    old ← volume spec
    option old (pure tt) (λ v. close env v)
    desired ← exists_in_desired_pool spec
    current_pool ← when desired then pure (some env.rbd_pool) else exists_in_pool spec
    option current_pool (pure tt)
        (λ pool. ioctx pool >> attach (record { pool = pool; name = name_of spec }))

  -- The loop over the pools that `rados` lists, into the dict `ioctxs`.
  unfoldable pub open_pools : List ℕ → List ℕ → List ℕ
  open_pools [] ioctxs = ioctxs
  open_pools (pool ∷ pools) ioctxs =
      if valid_rbd_pool_name (env.pool_name pool)
      then open_pools pools (if member pool ioctxs then ioctxs else ioctxs ++ (pool ∷ []))
      else open_pools pools ioctxs

  unfoldable pub get_volumes : List Spec → Action (Unit {0})
  get_volumes [] = pure tt
  get_volumes (spec ∷ more) = get_volume spec >> get_volumes more

  unfoldable pub attach_volumes : Action (Unit {0})
  attach_volumes = do
    w ← get_state
    only_if (not w.attached) (do
      pools ← list_pools env
      set_ioctxs (open_pools pools)
      get_volumes specs
      set_attached true)

  -- The loop of `ensure_volume_presence`: is the image in one of the pools?
  unfoldable pub in_some_pool : ℕ → List ℕ → Action Bool
  in_some_pool name [] = pure false
  in_some_pool name (pool ∷ pools) = do
    found ← seek (record { pool = pool; name = name })
    when found then pure true else in_some_pool name pools

  unfoldable pub ensure_volume_presence : ℕ → ℕ → ℕ → Action (Unit {0})
  ensure_volume_presence name pool size = do
    w ← get_state
    found ← in_some_pool name w.ioctxs
    only_if (not found) (
        ioctx pool
        >> (call env (Call.image_created (record { pool = pool; name = name }) size) >>= λ _.
            pure tt))

  unfoldable pub remove_volume : ℕ → ℕ → Action (Unit {0})
  remove_volume name pool =
      ioctx pool
      >> (call env (Call.image_removed (record { pool = pool; name = name })) >>= λ _. pure tt)
