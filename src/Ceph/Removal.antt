-- ===== src/Ceph/Removal.antt =====
-- `Ceph.unlock`: whose locks it removes.
use fc_qemu.Base.{ℕ, ◌≡◌, Bool, true, false, List, [], ◌∷◌, runtime_error}
use fc_qemu.World.{
  Image, Env, World, pure, raise, get_state, Keeps, Ends-last, last-Ends, Keeps-bind, Keeps-pure,
  Keeps-if, Keeps-exception,
}
use fc_qemu.Volume as Volume
use fc_qemu.Volume.Known.{RemovesOnly}
use fc_qemu.Volume.Unlock.{unlock-RemovesOnly, unlock-marks}
use fc_qemu.Ceph.{unlock_all, unlock}

-- The volumes that this process has marked as locked by it.
abbrev pub marks : World → ℕ → Bool
marks w n = (w.volume n).locked_by_me

module _ (env : Env) (marked : ℕ → Bool) where
  record Within (w : World) : Type 0 where
    removed : RemovesOnly env.host marked w.trace
    marked_before : (n : ℕ) → marks w n ≡ true → marked n ≡ true

  volume_unlock-Within : (v : Image) → Keeps Within (Volume.unlock env v false)
  volume_unlock-Within v w h = Ends-last Within (Volume.unlock env v false w) (record {
    removed = unlock-RemovesOnly env marked v w (h.marked_before v.name) h.removed;
    marked_before = λ n k. h.marked_before n (unlock-marks env v false w n k);
  })

  unlock_all-Within : (vs : List Image) (b : Bool) → Keeps Within (unlock_all env vs b)
  unfolding unlock_all
  unlock_all-Within [] b = Keeps-pure Within b
  unlock_all-Within (v ∷ vs) b =
      Keeps-bind Within _ _
        (Keeps-exception Within _ _
          (Keeps-bind Within (Volume.unlock env v false) _ (volume_unlock-Within v)
            (λ _. Keeps-pure Within b))
          (Keeps-pure Within true))
        (λ c. unlock_all-Within vs c)

-- `Ceph.unlock` removes no lock but those of this host and those of volumes that this process has
-- marked as locked by it, also where calls fail.
pub ceph_unlock-RemovesOnly :
    (env : Env) (w : World)
    → RemovesOnly env.host (marks w) w.trace
    → RemovesOnly env.host (marks w) (unlock env w).1.trace
unfolding unlock get_state raise
ceph_unlock-RemovesOnly env w h =
    (last-Ends (Within env (marks w)) (unlock env w) (
      Keeps-bind (Within env (marks w)) get_state _ (λ v k. k)
        (λ u.
          Keeps-bind (Within env (marks w)) (unlock_all env u.volumes false) _
            (unlock_all-Within env (marks w) u.volumes false)
            (λ b.
              Keeps-if (Within env (marks w)) b (raise runtime_error) (pure tt) (λ v k. k)
                (Keeps-pure (Within env (marks w)) tt)))
        w (record { removed = h; marked_before = λ n k. k }))).removed
