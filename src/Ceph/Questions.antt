-- ===== src/Ceph/Questions.antt =====
-- Which calls `is_unlocked`, `locked_by_me` and `locked_by` make: they open images and list locks.
use fc_qemu.Base.{ℕ, Option, none, some, List, [], ◌∷◌}
use fc_qemu.World.{
  Image, Locker, Event, Env, option, raise, Emits, emits, Emits-mono, Emits-pure, Emits-raise,
  Emits-bind, Emits-option, Emits-if,
}
use fc_qemu.Volume.{lock_status}
use fc_qemu.Volume.Calls.{Looks, lock_status-Looks}
use fc_qemu.Qemu.Looks.{get_state-Emits}
use fc_qemu.Ceph.{
  all_unlocked, is_unlocked, lock_id, all_mine, locked_by_me, lock_owners, sole_owner, locked_by,
}

abbrev pub Asks : Event → Type 0
Asks (Event.image_opened _ _) = Unit
Asks (Event.lock_listed _ _) = Unit
Asks _ = ⊥

Looks→Asks : (v : Image) (e : Event) → Looks v e → Asks e
Looks→Asks v (Event.image_opened _ _) h = tt
Looks→Asks v (Event.lock_listed _ _) h = tt
Looks→Asks v _ h = elim h [ ]

module _ (env : Env) where
  lock_status-Asks : (v : Image) → Emits Asks (lock_status env v)
  lock_status-Asks v = Emits-mono (Looks→Asks v) (lock_status-Looks env v)

  lock_id-Asks : (s : Option Locker) → Emits Asks (lock_id s)
  unfolding raise option
  lock_id-Asks none = Emits-raise _
  lock_id-Asks (some l) = Emits-pure _

  all_unlocked-Asks : (vs : List Image) → Emits Asks (all_unlocked env vs)
  unfolding all_unlocked
  all_unlocked-Asks [] = Emits-pure _
  all_unlocked-Asks (v ∷ vs) =
      Emits-bind (lock_status-Asks v)
        (λ s. Emits-option s (all_unlocked-Asks vs) (λ _. Emits-pure _))

  pub is_unlocked-Asks : Emits Asks (is_unlocked env)
  unfolding is_unlocked
  is_unlocked-Asks = Emits-bind get_state-Emits (λ w. all_unlocked-Asks w.volumes)

  all_mine-Asks : (vs : List Image) → Emits Asks (all_mine env vs)
  unfolding all_mine
  all_mine-Asks [] = Emits-pure _
  all_mine-Asks (v ∷ vs) =
      Emits-bind (lock_status-Asks v)
        (λ s. Emits-bind (lock_id-Asks s) (λ id. Emits-if _ (all_mine-Asks vs) (Emits-pure _)))

  pub locked_by_me-Asks : Emits Asks (locked_by_me env)
  unfolding locked_by_me
  locked_by_me-Asks = search (emits, get_state-Emits, all_mine-Asks) depth 9

  lock_owners-Asks : (vs : List Image) (owners : List ℕ) → Emits Asks (lock_owners env vs owners)
  unfolding lock_owners
  lock_owners-Asks [] owners = Emits-pure _
  lock_owners-Asks (v ∷ vs) owners = Emits-bind (lock_status-Asks v) (λ s.
      Emits-bind
        (Emits-option s (Emits-pure _) (λ _.
          Emits-bind (lock_status-Asks v)
            (λ again. Emits-bind (lock_id-Asks again) (λ id. Emits-pure _))))
        (λ added. lock_owners-Asks vs added))

  sole_owner-Asks : (owners : List ℕ) → Emits Asks (sole_owner owners)
  sole_owner-Asks [] = Emits-pure _
  sole_owner-Asks (h ∷ []) = Emits-pure _
  sole_owner-Asks (h ∷ i ∷ owners) = Emits-raise _

  pub locked_by-Asks : Emits Asks (locked_by env)
  unfolding locked_by
  locked_by-Asks =
      Emits-bind get_state-Emits
        (λ w. Emits-bind (lock_owners-Asks w.volumes []) (λ owners. sole_owner-Asks owners))
