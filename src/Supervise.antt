-- ===== src/Supervise.antt =====
-- The supervisor of a Qemu process: `run_supervised` of hazmat/supervise.py, once it is a daemon.
-- `code n` is what the n-th run of `fc-qemu ensure` exits with, from 0 on.
pub mod Tries
use fc_qemu.Base.{ℕ, zero, suc, ◌*◌, ◌/◌, Bool, true, false, List, [], ◌∷◌, ◌==◌, if◌then◌else◌}

abbrev pub ex_tempfail : ℕ
ex_tempfail = 75

abbrev pub delay : ℕ
delay = 5

-- What it does, in order: the command and the runs of `ensure` with the codes they exit with, the
-- exit code in the log line of a run, and the pauses in seconds.
pub data Step : Type 0 where
  command_exited : ℕ → Step
  ensuring : ℕ → Step
  logged : ℕ → Step
  ensure_exited : ℕ → Step
  slept : ℕ → Step

-- The loop, for the tries that are left, with the number of the next and the value of `exit_code`.
unfoldable pub tries : ℕ → ℕ → ℕ → (ℕ → ℕ) → List Step
tries zero try exit_code code = []
tries (suc left) try exit_code code =
    let rest = tries left (suc try) (code try) code in
    ensuring try
    ∷ logged exit_code
    ∷ ensure_exited (code try)
    ∷ (if code try == ex_tempfail then slept delay ∷ rest else [])

unfoldable pub run_supervised : ℕ → (ℕ → ℕ) → List Step
run_supervised exit_code code = command_exited exit_code ∷ tries (60 / delay) 0 exit_code code
