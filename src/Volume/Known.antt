-- ===== src/Volume/Known.antt =====
-- What the replies so far say of a volume's lock.
use fc_qemu.Base.{◌≡◌, ℕ, Bool, true, false, ◌&&◌, ◌||◌, some, [], ◌∷◌, any, ◌==◌, if◌then◌else◌}
use fc_qemu.World.{Image, Event, Trace}

abbrev pub same_image : Image → Image → Bool
same_image u v = u.pool == v.pool && u.name == v.name

-- The newest reply about the lock of `v` says that `host` has it: an add that succeeded, or a list
-- that has the id of the host.
unfoldable pub known_locked : ℕ → Image → Trace → Bool
known_locked host v [] = false
known_locked host v (Event.lock_added u cookie added ∷ t) =
    if same_image u v && added && cookie == host then true else known_locked host v t
known_locked host v (Event.lock_listed u (some ls) ∷ t) =
    if same_image u v then any (λ l. l.id == host) ls else known_locked host v t
known_locked host v (Event.lock_removed u l true ∷ t) =
    if same_image u v && l.id == host then false else known_locked host v t
known_locked host v (_ ∷ t) = known_locked host v t

-- Every lock that was removed has the id of `host`, or belongs to a volume that is marked as locked
-- by this process.
abbrev pub RemovesOnly : ℕ → (ℕ → Bool) → Trace → Type 0
RemovesOnly host marked [] = Unit
RemovesOnly host marked (Event.lock_removed u l r ∷ t) =
    ((l.id == host || marked u.name) ≡ true) × RemovesOnly host marked t
RemovesOnly host marked (_ ∷ t) = RemovesOnly host marked t
