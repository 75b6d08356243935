-- ===== src/MigrationLock.antt =====
-- The migration lock of a host: `acquire_migration_lock` and `release_migration_lock` of class Qemu in
-- hazmat/qemu.py, run by any number of processes that share the lock file.
pub mod Exclusive
use fc_qemu.Base.{
  ℕ, Bool, true, false, not, Option, none, some, Result, ok, err, assertion_error, ◌==◌,
  if◌then◌else◌,
}

-- Which processes have the file open under `_migration_lock_fd`, and which of them has the lock by the
-- kernel. A lock goes with the last descriptor of its holder.
pub record Host : Type 0 where
  pub fd : ℕ → Bool
  pub holder : Option ℕ

abbrev pub set_fd : ℕ → Bool → (ℕ → Bool) → ℕ → Bool
set_fd i b fd j = if i == j then b else fd j

abbrev pub is_process : ℕ → Option ℕ → Bool
is_process i none = false
is_process i (some j) = i == j

-- `flock` with LOCK_EX and LOCK_NB: is the lock had?
abbrev pub is_free : ℕ → Option ℕ → Bool
is_free i none = true
is_free i (some j) = i == j

-- `LOCK_UN`, or the end of the descriptor.
abbrev pub let_go : ℕ → Option ℕ → Option ℕ
let_go i h = if is_process i h then none else h

unfoldable pub acquire_migration_lock : ℕ → Host → Result Bool × Host
acquire_migration_lock i s =
    if s.fd i
    then (err assertion_error, s)
    else (if is_free i s.holder
        then (ok true, record { fd = set_fd i true s.fd; holder = some i })
        else (ok false, record s { fd = set_fd i false s.fd }))

unfoldable pub release_migration_lock : ℕ → Host → Result (Unit {0}) × Host
release_migration_lock i s =
    if s.fd i
    then (ok tt, record { fd = set_fd i false s.fd; holder = let_go i s.holder })
    else (err assertion_error, s)

-- The end of a process.
unfoldable pub exit_process : ℕ → Host → Host
exit_process i s = record { fd = set_fd i false s.fd; holder = let_go i s.holder }

-- What the processes do, in any order.
pub data Step : Host → Host → Type 0 where
  acquires : (i : ℕ) (s : Host) → Step s (acquire_migration_lock i s).1
  releases : (i : ℕ) (s : Host) → Step s (release_migration_lock i s).1
  exits : (i : ℕ) (s : Host) → Step s (exit_process i s)

abbrev pub idle : Host
idle = record { fd = λ i. false; holder = none }

-- The states that come of a host on which no process has the file open.
pub data Reach : Host → Type 0 where
  here : Reach idle
  next : {s t : Host} → Reach s → Step s t → Reach t
