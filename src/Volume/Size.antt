-- ===== src/Volume/Size.antt =====
-- The size and the snapshots of a volume: `ensure_size`, `close` of class Volume and class Snapshots
-- in hazmat/volume.py. Names of snapshots are numbers.
pub mod Grows
use fc_qemu.Base.{
  ℕ, Bool, true, false, not, List, [], ◌∷◌, leb, key_error, Exc, image_not_found, ◌==◌, length,
  if◌then◌else◌,
}
use fc_qemu.World.{
  Image, Call, Env, Action, pure, raise, ◌>>=◌, ◌>>◌, when◌then◌else◌, only_if, try_except, call,
  image_size, list_snaps, set_volumes,
}
use fc_qemu.Volume.{rbdimage, is_image_not_found}

-- `Ceph._clean_volume`: the volume's key gets None.
abbrev pub clean_volume : ℕ → List Image → List Image
clean_volume name [] = []
clean_volume name (v ∷ vs) =
    let rest = clean_volume name vs in if v.name == name then rest else v ∷ rest

module _ (env : Env) where
  -- The property `size`.
  unfoldable pub size : Image → Action ℕ
  size v = rbdimage env v >> image_size env v

  unfoldable pub ensure_size : Image → ℕ → Action (Unit {0})
  ensure_size v wanted = do
    found ← size v
    when leb wanted found
        then pure tt
        else (rbdimage env v >> (call env (Call.image_resized v wanted) >>= λ _. pure tt))

  -- The object of the image is dropped with the volume.
  unfoldable pub close : Image → Action (Unit {0})
  close v = set_volumes (clean_volume v.name)

  -- `_list_snaps`: an image that is gone has no snapshots.
  unfoldable pub snapshots : Image → Action (List ℕ)
  snapshots v =
      try_except (rbdimage env v >> list_snaps env v)
        (λ e. when is_image_not_found e then pure [] else raise e)

  unfoldable pub snapshot_count : Image → Action ℕ
  snapshot_count v = do names ← snapshots v; pure (length names)

  -- `__getitem__`, which gives the snapshot of the name or raises a KeyError.
  find_snapshot : ℕ → List ℕ → Action ℕ
  find_snapshot key [] = raise key_error
  find_snapshot key (s ∷ names) =
      let rest = find_snapshot key names in when s == key then pure s else rest

  unfoldable pub get_snapshot : Image → ℕ → Action ℕ
  unfolding find_snapshot
  get_snapshot v key = do names ← snapshots v; find_snapshot key names

  unfoldable pub create_snapshot : Image → ℕ → Action (Unit {0})
  create_snapshot v name =
      rbdimage env v >> (call env (Call.snapshot_created v name) >>= λ _. pure tt)

  unfoldable pub remove_snapshot : Image → ℕ → Action (Unit {0})
  remove_snapshot v name =
      rbdimage env v >> (call env (Call.snapshot_removed v name) >>= λ _. pure tt)

  -- The loop of `purge`, over the snapshots that were listed.
  unfoldable pub remove_snapshots : Image → List ℕ → Action (Unit {0})
  remove_snapshots v [] = pure tt
  remove_snapshots v (s ∷ names) = remove_snapshot v s >> remove_snapshots v names

  unfoldable pub purge : Image → Action (Unit {0})
  purge v = do names ← snapshots v; remove_snapshots v names
