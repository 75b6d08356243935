-- ===== src/MigrationLock/Exclusive.antt =====
-- At most one process has the migration lock.
use fc_qemu.Base.{ℕ, ◌≡◌, ◌⊎◌, inl, inr, Bool-cases, sym, true, false, some, ok, arith, ◌∙◌}
use fc_qemu.MigrationLock.{
  Host, acquire_migration_lock, release_migration_lock, exit_process, Step, acquires, releases,
  exits, Reach, here, next,
}

-- The processes with an open file are those that hold the lock.
abbrev pub IsSound : Host → Type 0
IsSound s = (i : ℕ) → s.fd i ≡ true → s.holder ≡ some i

acquire-IsSound : (i : ℕ) (s : Host) → IsSound s → IsSound (acquire_migration_lock i s).1
unfolding acquire_migration_lock
acquire-IsSound i s h j e = ground (arith, h i, h j)

release-IsSound : (i : ℕ) (s : Host) → IsSound s → IsSound (release_migration_lock i s).1
unfolding release_migration_lock
release-IsSound i s h j e = ground (arith, h i, h j)

exit-IsSound : (i : ℕ) (s : Host) → IsSound s → IsSound (exit_process i s)
unfolding exit_process
exit-IsSound i s h j e = ground (arith, h i, h j)

Step-IsSound : {s t : Host} → Step s t → IsSound s → IsSound t
Step-IsSound (acquires i s) h = acquire-IsSound i s h
Step-IsSound (releases i s) h = release-IsSound i s h
Step-IsSound (exits i s) h = exit-IsSound i s h

Reach-IsSound : {s : Host} → Reach s → IsSound s
Reach-IsSound here = λ i e. cc
Reach-IsSound (next r st) = Step-IsSound st (Reach-IsSound r)

some-injective : (i j : ℕ) → some i ≡ some j → i ≡ j
some-injective i j h = ground arith

-- However the calls of the processes follow one another, another process than the one that has the
-- migration lock does not have it, and gets the answer false when it asks for it.
pub Reach-exclusive :
    {s : Host}
    → Reach s
    → (i j : ℕ) → s.fd i ≡ true
    → ((s.fd j ≡ true) × (i ≡ j)) ⊎ ((s.fd j ≡ false) × ((acquire_migration_lock j s).0 ≡ ok false))
unfolding acquire_migration_lock
Reach-exclusive {s} r i j e = elim (Bool-cases (s.fd j)) [
  | inl f ↦ inl (f, some-injective i j (sym (Reach-IsSound r i e) ∙ Reach-IsSound r j f))
  | inr f ↦ inr (f, ground (arith, Reach-IsSound r i e))
]
