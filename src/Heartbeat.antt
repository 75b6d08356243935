-- ===== src/Heartbeat.antt =====
-- The heartbeat of an outgoing migration: class Heartbeat of outgoing.py. The other host's answers to the pings are a
-- list, of which the end is where the thread stands, or where it was told to stop.
pub mod Gives
use fc_qemu.Base.{
  ℕ, zero, suc, Bool, true, false, Option, none, some, List, [], ◌∷◌, length, Result, ok, err,
  runtime_error, if◌then◌else◌,
}

-- `int(PING_TIMEOUT / PING_RETRY_FREQUENCY)`
abbrev pub ping_retry_attempts : ℕ
ping_retry_attempts = 12

-- The attempts of one round, with the answers: those that are left, or none where it gives up.
unfoldable pub ping_round : ℕ → List Bool → Option (List Bool)
ping_round zero answers = none
ping_round (suc attempts) [] = some []
ping_round (suc attempts) (true ∷ answers) = some answers
ping_round (suc attempts) (false ∷ answers) = ping_round attempts answers

-- The loop of `run` with a bound on its rounds: has it failed?
unfoldable pub rounds : ℕ → List Bool → Bool
rounds zero answers = false
rounds (suc fuel) [] = false
rounds (suc fuel) (a ∷ answers) = elim (ping_round ping_retry_attempts (a ∷ answers)) [
  | none ↦ true
  | some rest ↦ rounds fuel rest
]

unfoldable pub run : List Bool → Bool
run answers = rounds (length answers) answers

-- `propagate`
unfoldable pub propagate : List Bool → Result (Unit {0})
propagate answers = if run answers then err runtime_error else ok tt
