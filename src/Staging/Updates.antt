-- ===== src/Staging/Updates.antt =====
-- Updates that are staged while `ensure` runs: `stage_new_config`, `activate_new_config`,
-- `has_new_config` and `ensure`.
use fc_qemu.Base.{
  ℕ, ◌≡◌, refl, ◌≤◌, Bool, true, false, ◌||◌, some, List, [], ◌∷◌, ◌++◌, All, arith, if◌then◌else◌,
}
use fc_qemu.Staging.{
  Config, File, missing, inconsistent, holds, Store, is_newer, updates, stage_new_config,
  activate_new_config, has_new_config, enter, Outcome, locked_out, done, config_changed,
  environment_changed, failed, Round, Ending, settled, stage_all, ensure_once, after_round, ensure,
  is_environment_changed,
}

-- The file has a configuration of generation `g` or a newer one.
abbrev pub Covers : ℕ → File → Type 0
Covers g missing = ⊥
Covers g inconsistent = ⊥
Covers g (holds c) = g ≤ c.generation

-- The configuration in use is not newer than the active file.
abbrev pub Fits : Store → Type 0
Fits s = (g : ℕ) → is_newer g s.generation ≡ false → Covers g s.active

-- The agent's copy is what the active file has.
abbrev pub Loaded : Store → Type 0
Loaded s = (c : Config) → s.enc ≡ some c → s.active ≡ holds c

pub stage-Covers : (c : Config) (s : Store) → Covers c.generation (stage_new_config c s).1.staging
unfolding stage_new_config
stage-Covers c s = ground arith

pub stage-keeps :
    (g : ℕ) (c : Config) (s : Store)
    → Covers g s.staging
    → Covers g (stage_new_config c s).1.staging
unfolding stage_new_config
stage-keeps g c s h = ground arith

pub stage-active : (c : Config) (s : Store) → (stage_new_config c s).1.active ≡ s.active
unfolding stage_new_config
stage-active c s = ground arith

pub stage-update :
    (c : Config) (s : Store) → (stage_new_config c s).0 ≡ updates c.generation s.active
unfolding stage_new_config
stage-update c s = refl

activate-keeps :
    (g : ℕ) (s : Store) → Covers g s.staging → Covers g (activate_new_config s).1.staging
unfolding activate_new_config
activate-keeps g s h = ground arith

has_new-keeps : (g : ℕ) (s : Store) → Covers g s.staging → Covers g (has_new_config s).1.staging
unfolding has_new_config
has_new-keeps g s h = ground arith

enter-keeps : (s : Store) → (enter s).staging ≡ s.staging
unfolding enter
enter-keeps s = ground arith

has_new-current :
    (g : ℕ) (s : Store)
    → Covers g s.staging
    → (has_new_config s).0 ≡ false
    → is_newer g s.generation ≡ false
unfolding has_new_config
has_new-current g s h k = ground arith

has_new-generation : (s : Store) → (has_new_config s).1.generation ≡ s.generation
unfolding has_new_config
has_new-generation s = ground arith

-- An agent that has a configuration and its generation finds nothing new once it has activated
-- what is staged and entered again.
pub activate-settles :
    (s : Store) (c : Config)
    → s.enc ≡ some c
    → s.generation ≡ some c.generation
    → (has_new_config (enter (activate_new_config s).1)).0 ≡ false
unfolding has_new_config activate_new_config enter
activate-settles s c h k = ground arith

stage_all-keeps :
    (g : ℕ) (cs : List Config) (s : Store) → Covers g s.staging → Covers g (stage_all cs s).staging
stage_all-keeps g [] s h = h
stage_all-keeps g (c ∷ cs) s h = stage_all-keeps g cs _ (stage-keeps g c s h)

abbrev AllCovered : List Config → Store → Type 0
AllCovered cs s = All (λ c. Covers c.generation s.staging) cs

stage_all-covers : (cs : List Config) (s : Store) → AllCovered cs (stage_all cs s)
stage_all-covers [] s = tt
stage_all-covers (c ∷ cs) s = (
  stage_all-keeps c.generation cs _ (stage-Covers c s),
  stage_all-covers cs (stage_new_config c s).1,
)

All-map {ℓ κ} :
    {A : Type ℓ} {P Q : A → Type κ} (f : (a : A) → P a → Q a) (xs : List A) → All P xs → All Q xs
All-map f [] h = tt
All-map f (x ∷ xs) h = (f x h.0, All-map f xs h.1)

All-++ {ℓ κ} :
    {A : Type ℓ} (P : A → Type κ) (xs ys : List A) → All P xs → All P ys → All P (xs ++ ys)
All-++ P [] ys h k = k
All-++ P (x ∷ xs) ys h k = (h.0, All-++ P xs ys h.1 k)

-- The part of a round between the updates before it and those in it.
abbrev turn : Outcome → Store → Store
turn locked_out s = s
turn _ s = enter (activate_new_config s).1

turn-keeps : (o : Outcome) (g : ℕ) (s : Store) → Covers g s.staging → Covers g (turn o s).staging
turn-keeps locked_out g s h = h
turn-keeps done g s h = rw (enter-keeps (activate_new_config s).1) (activate-keeps g s h)
turn-keeps config_changed g s h = rw (enter-keeps (activate_new_config s).1) (activate-keeps g s h)
turn-keeps environment_changed g s h =
    rw (enter-keeps (activate_new_config s).1) (activate-keeps g s h)
turn-keeps failed g s h = rw (enter-keeps (activate_new_config s).1) (activate-keeps g s h)

once-turn :
    (r : Round) (s : Store)
    → ensure_once r s ≡ stage_all r.staged_during (turn r.outcome (stage_all r.staged_before s))
once-turn r s =
    elim r.outcome
      as (λ o.
        ensure_once (record r { outcome = o }) s
        ≡ stage_all r.staged_during (turn o (stage_all r.staged_before s))) [
          | locked_out ↦ refl
          | done ↦ refl
          | config_changed ↦ refl
          | environment_changed ↦ refl
          | failed ↦ refl
        ]

once-keeps :
    (g : ℕ) (r : Round) (s : Store) → Covers g s.staging → Covers g (ensure_once r s).staging
once-keeps g r s h = rw (once-turn r s) (
    stage_all-keeps g r.staged_during _
      (turn-keeps r.outcome g _ (stage_all-keeps g r.staged_before s h)))

once-covers :
    (r : Round) (s : Store) → AllCovered (r.staged_before ++ r.staged_during) (ensure_once r s)
once-covers r s = rw (once-turn r s) (
    All-++ _ r.staged_before r.staged_during
      (All-map
        (λ c h.
          stage_all-keeps c.generation r.staged_during _ (turn-keeps r.outcome c.generation _ h))
        r.staged_before (stage_all-covers r.staged_before s))
      (stage_all-covers r.staged_during _))

-- The agent is as new as `g`.
abbrev pub Current : Store → ℕ → Type 0
Current s g = is_newer g s.generation ≡ false

-- What a run of `ensure` that settles promises.
abbrev pub Promise : Store → Ending × Store × List Config → Type 0
Promise s (e, s', staged) =
    e ≡ settled
    → ((g : ℕ) → Covers g s.staging → Current s' g) × All (λ c. Current s' c.generation) staged

seen-Current :
    (s : Store) (g : ℕ)
    → (has_new_config s).0 ≡ false
    → Covers g s.staging
    → Current (has_new_config s).1 g
seen-Current s g h k = rw (has_new-generation s) (has_new-current g s k h)

-- A choice by `force or has_new`.
choice :
    {A : Type 0} (P : A → Type 0) (force has_new : Bool) (x y : A)
    → P x
    → (has_new ≡ false → P y)
    → P (if force || has_new then x else y)
choice P true b x y h k = h
choice P false true x y h k = h
choice P false false x y h k = k refl

-- The promise of the rest covers what was staged up to the end of the round.
goes_on :
    (r : Round) (s : Store) (rest : Ending × Store × List Config)
    → Promise (ensure_once r (has_new_config s).1) rest
    → Promise s (rest.0, rest.1, (r.staged_before ++ r.staged_during) ++ rest.2)
goes_on r s rest h e =
    let s' = (has_new_config s).1 in
    let p = h e in
    (
      (λ g k. p.0 g (once-keeps g r s' (has_new-keeps g s k))),
      All-++ _ (r.staged_before ++ r.staged_during) rest.2
          (All-map (λ c k. p.0 c.generation k) (r.staged_before ++ r.staged_during)
            (once-covers r s'))
          p.1,
    )

-- A round after which the rest is as promised.
round-Promise :
    (r : Round) (s : Store) (o : Outcome) (rest : Ending × Store × List Config)
    → Promise (ensure_once r (has_new_config s).1) rest
    → Promise s (
        after_round o
          (ensure_once r (has_new_config s).1)
          (r.staged_before ++ r.staged_during)
          rest)
round-Promise r s locked_out rest h = λ e. cc
round-Promise r s failed rest h = λ e. cc
round-Promise r s done rest h = goes_on r s rest h
round-Promise r s config_changed rest h = goes_on r s rest h
round-Promise r s environment_changed rest h = goes_on r s rest h

-- Where `ensure` settles, the agent's generation is as new as what was staged at its start, and as
-- each update that was staged while it ran, in whatever round, however the rounds ended.
pub ensure-Promise :
    (rounds : List Round) (force : Bool) (s : Store) → Promise s (ensure rounds force s)
unfolding ensure
ensure-Promise [] force s = λ e. ((λ g. seen-Current s g (ground arith)), tt)
ensure-Promise (r ∷ rounds) force s =
    choice (Promise s) force (has_new_config s).0 _ _
      (round-Promise r s r.outcome _ (
        ensure-Promise rounds (is_environment_changed r.outcome)
          (ensure_once r (has_new_config s).1)))
      (λ k e. ((λ g. seen-Current s g k), tt))
