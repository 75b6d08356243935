-- ===== src/Staging.antt =====
-- New configurations of a VM: `stage_new_config`, `activate_new_config`, `has_new_config`, `ensure`
-- and the frame of `ensure_` of class Agent in agent.py. The lock on the staging file makes the first
-- three atomic towards each other.
pub mod Updates
use fc_qemu.Base.{
  ℕ, Bool, true, false, ◌||◌, Option, none, some, List, [], ◌∷◌, ◌++◌, ltb, if◌then◌else◌,
}

-- A configuration with its `consul-generation`; the rest of it is one number.
pub record Config : Type 0 where
  pub generation : ℕ
  pub content : ℕ

-- A configuration file. `inconsistent` is one that cannot be parsed or has no generation.
pub data File : Type 0 where
  missing inconsistent : File
  holds : Config → File

-- The two files, and the attributes `enc` and `consul_generation` of the agent that runs `ensure`,
-- where none stands for None and for -1.
pub record Store : Type 0 where
  pub staging : File
  pub active : File
  pub enc : Option Config
  pub generation : Option ℕ

abbrev pub is_newer : ℕ → Option ℕ → Bool
is_newer g none = true
is_newer g (some h) = ltb h g

-- Is a configuration of generation `g` newer than the file? Anything is newer than a bad file.
abbrev pub updates : ℕ → File → Bool
updates g missing = true
updates g inconsistent = true
updates g (holds c) = ltb c.generation g

-- `stage_new_config` of another agent, of which `enc` is `c`: what it returns, and the files then.
pub stage_new_config : Config → Store → Bool × Store
stage_new_config c s = (
  updates c.generation s.active,
  (if updates c.generation s.staging then record s { staging = holds c } else s),
)

pub activate_new_config : Store → Bool × Store
activate_new_config s = activate s.staging
  where
    activate : File → Bool × Store
    activate missing = (false, s)
    activate inconsistent = (false, record s { staging = missing })
    activate (holds c) =
        if is_newer c.generation s.generation
        then (true, record s { active = holds c; enc = some c })
        else (false, s)

pub has_new_config : Store → Bool × Store
has_new_config s = check s.staging
  where
    check : File → Bool × Store
    check missing = (false, s)
    check inconsistent = (false, record s { staging = missing })
    check (holds c) = (is_newer c.generation s.generation, s)

-- `__enter__`, as far as the generation goes.
pub enter : Store → Store
enter s = read s.enc
  where
    read : Option Config → Store
    read none = s
    read (some c) = record s { generation = some c.generation }

-- How `ensure_` ends: another agent has the lock, it is done, or it raised ConfigChanged,
-- EnvironmentChanged or something else.
pub data Outcome : Type 0 where
  locked_out done config_changed environment_changed failed : Outcome

-- One call of `ensure_`: what other processes stage before it, and while its body runs.
pub record Round : Type 0 where
  pub staged_before : List Config
  pub staged_during : List Config
  pub outcome : Outcome

pub data Ending : Type 0 where
  settled gave_way raised unfinished : Ending

abbrev pub stage_all : List Config → Store → Store
stage_all [] s = s
stage_all (c ∷ cs) s = stage_all cs (stage_new_config c s).1

-- `ensure_` activates and enters, unless it does not get the lock.
abbrev pub ensure_once : Round → Store → Store
ensure_once r s = stage_all r.staged_during (run r.outcome)
  where
    before : Store
    before = stage_all r.staged_before s

    run : Outcome → Store
    run locked_out = before
    run _ = enter (activate_new_config before).1

abbrev pub is_environment_changed : Outcome → Bool
is_environment_changed environment_changed = true
is_environment_changed _ = false

-- How the loop goes on after a round that ended in `s`, where `rest` is what the further rounds come
-- to.
abbrev pub after_round :
    Outcome → Store → List Config → Ending × Store × List Config → Ending × Store × List Config
after_round locked_out s staged rest = (gave_way, s, staged)
after_round failed s staged rest = (raised, s, staged)
after_round _ s staged rest = (rest.0, rest.1, staged ++ rest.2)

-- The loop of `ensure`, for rounds that go as given: how it ends, the store then, and what was staged
-- while it ran. `unfinished` says that it needs more rounds. `force` is `force_next_try`.
pub ensure : List Round → Bool → Store → Ending × Store × List Config
ensure [] force s =
    let (has_new, s') = has_new_config s in
    (if force || has_new then unfinished else settled, s', [])
ensure (r ∷ rounds) force s =
    let (has_new, s') = has_new_config s in
    let s'' = ensure_once r s' in
    let rest = ensure rounds (is_environment_changed r.outcome) s'' in
    if force || has_new
    then after_round r.outcome s'' (r.staged_before ++ r.staged_during) rest
    else (settled, s', [])
