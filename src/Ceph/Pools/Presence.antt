-- ===== src/Ceph/Pools/Presence.antt =====
-- `ensure_volume_presence`: when it makes an image.
use fc_qemu.Base.{ℕ, ◌≡◌, Bool, true, false, not, some, List, [], ◌∷◌, arith, All, if◌then◌else◌}
use fc_qemu.World.{
  Image, Call, Event, Trace, World, Env, calls, pure, raise, Triple, Triple-bind, Triple-if, On,
  ◌>>=◌, get_state, call, when◌then◌else◌, Triple-both, Triple-weaken, last-Ends,
}
use fc_qemu.Volume.Known.{same_image}
use fc_qemu.Ceph.Pools.{seek, in_some_pool, ioctx, ensure_volume_presence}

-- The newest look for the image did not find it.
unfoldable pub absent : Image → Trace → Bool
absent v [] = false
absent v (Event.image_opened u (some found) ∷ t) = if same_image u v then not found else absent v t
absent v (_ ∷ t) = absent v t

-- Every image that was made had been looked for in all of `pools`, where it was not.
unfoldable pub CreatesAbsent : List ℕ → Trace → Type 0
CreatesAbsent pools [] = Unit
CreatesAbsent pools (Event.called (Call.image_created v n) r ∷ t) =
    All (λ pool. absent (record { pool = pool; name = v.name }) t ≡ true) pools
    × CreatesAbsent pools t
CreatesAbsent pools (_ ∷ t) = CreatesAbsent pools t

module _ (env : Env) (name : ℕ) (all : List ℕ) where
  abbrev at : ℕ → Image
  at pool = record { pool = pool; name = name }

  abbrev Absent : ℕ → World → Type 0
  Absent pool w = absent (at pool) w.trace ≡ true

  abbrev Good : World → Type 0
  Good = On (CreatesAbsent all)

  seek-Absent :
      (pool : ℕ)
      → Triple Good
          (seek env (at pool))
          (λ found w. (found ≡ false → Absent pool w) × Good w)
          (λ _. Good)
  unfolding seek absent CreatesAbsent calls
  seek-Absent pool w h = ground arith

  -- Looking for an image does not find another one.
  seek_keeps :
      (p q : ℕ)
      → Triple
          (λ w. Absent p w × Good w)
          (seek env (at q))
          (λ found w. (found ≡ false → Absent p w) × Good w)
          (λ _. Good)
  unfolding seek absent CreatesAbsent calls
  seek_keeps p q w h = ground arith

  some_pool_keeps :
      (p : ℕ) (pools : List ℕ)
      → Triple
          (λ w. Absent p w × Good w)
          (in_some_pool env name pools)
          (λ found w. (found ≡ false → Absent p w) × Good w)
          (λ _. Good)
  unfolding in_some_pool pure
  some_pool_keeps p [] = λ w h. ((λ _. h.0), h.1)
  some_pool_keeps p (q ∷ pools) =
      Triple-bind (seek env (at q)) _ (λ w. Absent p w × Good w)
        (λ found w. (found ≡ false → Absent p w) × Good w) _ (λ _. Good) (seek_keeps p q)
        (λ found.
          Triple-if found _ (in_some_pool env name pools) _ _ (λ _. Good)
            (λ _ w h. ((λ e. ground (arith, e)), h.1))
            (λ e w h. some_pool_keeps p pools w (h.0 e, h.1)))

  in_some_pool-Absent :
      (pools : List ℕ)
      → Triple Good
          (in_some_pool env name pools)
          (λ found w. (found ≡ false → All (λ p. Absent p w) pools) × Good w)
          (λ _. Good)
  unfolding in_some_pool pure
  in_some_pool-Absent [] = λ w h. ((λ _. tt), h)
  in_some_pool-Absent (q ∷ pools) =
      Triple-bind (seek env (at q)) _ Good (λ found w. (found ≡ false → Absent q w) × Good w) _
        (λ _. Good) (seek-Absent q)
        (λ found.
          Triple-if found _ (in_some_pool env name pools) _ _ (λ _. Good)
            (λ e w h. ((λ f. ground (arith, e, f)), h.1))
            (λ e w h. rest (in_some_pool-Absent pools) w (h.0 e, h.1)))
    where
      rest :
          Triple Good
            (in_some_pool env name pools)
            (λ found w. (found ≡ false → All (λ p. Absent p w) pools) × Good w)
            (λ _. Good)
          → Triple
              (λ w. Absent q w × Good w)
              (in_some_pool env name pools)
              (λ found w. (found ≡ false → Absent q w × All (λ p. Absent p w) pools) × Good w)
              (λ _. Good)
      rest before w h =
          Triple-weaken (in_some_pool env name pools) (λ u. (Absent q u × Good u) × Good u)
            (λ found u.
              ((found ≡ false → Absent q u) × Good u)
              × ((found ≡ false → All (λ p. Absent p u) pools) × Good u))
            _ (λ _ u. Good u × Good u) (λ _. Good)
            (Triple-both (in_some_pool env name pools) (λ u. Absent q u × Good u) Good
              (λ found u. (found ≡ false → Absent q u) × Good u)
              (λ found u. (found ≡ false → All (λ p. Absent p u) pools) × Good u) (λ _. Good)
              (λ _. Good) (some_pool_keeps q pools) before)
            (λ a u k. ((λ e. (k.0.0 e, k.1.0 e)), k.0.1)) (λ e u k. k.0) w (h, h.1)

  -- Making the image, where it is in none of the pools.
  AllAbsent : World → Type 0
  AllAbsent w = All (λ p. Absent p w) all × Good w

  ioctx-AllAbsent : (pool : ℕ) → Triple AllAbsent (ioctx env pool) (λ _. AllAbsent) (λ _. Good)
  unfolding ioctx get_state raise pure when◌then◌else◌ ◌>>=◌ AllAbsent
  ioctx-AllAbsent pool w h = ground arith

  create_image-Good :
      (pool size : ℕ)
      → Triple AllAbsent
          (call env (Call.image_created (at pool) size) >>= λ _. pure tt)
          (λ _. Good)
          (λ _. Good)
  unfolding CreatesAbsent AllAbsent calls
  create_image-Good pool size w h = ground arith

  -- Making the image, where it is in none of the pools.
  create-Good :
      (pool size : ℕ)
      → Triple AllAbsent
          (ioctx env pool >>= λ _. call env (Call.image_created (at pool) size) >>= λ _. pure tt)
          (λ _. Good)
          (λ _. Good)
  create-Good pool size =
      Triple-bind (ioctx env pool) _ AllAbsent (λ _. AllAbsent) (λ _. Good) (λ _. Good)
        (ioctx-AllAbsent pool) (λ _. create_image-Good pool size)

  presence-Good :
      (pool size : ℕ)
      → Triple Good
          (in_some_pool env name all >>= λ found.
            when not found
            then (ioctx env pool >>= λ _.
                call env (Call.image_created (at pool) size) >>= λ _. pure tt)
            else pure tt)
          (λ _. Good)
          (λ _. Good)
  unfolding pure AllAbsent
  presence-Good pool size =
      Triple-bind (in_some_pool env name all) _ Good
        (λ found w. (found ≡ false → All (λ p. Absent p w) all) × Good w) _ (λ _. Good)
        (in_some_pool-Absent all)
        (λ found.
          Triple-if (not found) _ (pure tt) _ _ (λ _. Good)
            (λ e w h. create-Good pool size w (h.0 (ground (arith, e)), h.1)) (λ _ w h. h.1))

-- `ensure_volume_presence` makes an image only after it was looked for in all pools and found in
-- none.
pub ensure_volume_presence-CreatesAbsent :
    (env : Env) (name pool size : ℕ) (w : World)
    → CreatesAbsent w.ioctxs w.trace
    → On (CreatesAbsent w.ioctxs) (ensure_volume_presence env name pool size w).1
unfolding ensure_volume_presence get_state in_some_pool ◌>>=◌ when◌then◌else◌
ensure_volume_presence-CreatesAbsent env name pool size w h =
    last-Ends (On (CreatesAbsent w.ioctxs)) _ (presence-Good env name w.ioctxs pool size w h)
