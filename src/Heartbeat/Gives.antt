-- ===== src/Heartbeat/Gives.antt =====
-- When the heartbeat gives up.
use mathlib.Core.List.{append_assoc}
use fc_qemu.Base.{
  ℕ, zero, suc, ◌+◌, ◌≤◌, ◌<◌, ◌≡◌, ◌↔◌, refl, sym, ap, ◌∙◌, ◌⊎◌, inl, inr, Bool, true, false, none,
  some, List, [], ◌∷◌, ◌++◌, length, arith, Option-cases,
}
use fc_qemu.Heartbeat.{ping_retry_attempts, ping_round, rounds, run}

-- Failures one after another.
abbrev pub failures : ℕ → List Bool
failures zero = []
failures (suc n) = false ∷ failures n

-- Somewhere there are that many failures in a row.
abbrev pub HasStreak : ℕ → List Bool → Type 0
HasStreak n answers =
    (before : List Bool) × ((after : List Bool) × (answers ≡ before ++ (failures n ++ after)))

-- A round that does not give up: it ends after a success, or at the end of the answers.
abbrev Passed : ℕ → List Bool → List Bool → Type 0
Passed n answers rest =
    (j : ℕ) × ((j < n)
      × ((answers ≡ failures j ++ true ∷ rest) ⊎ ((answers ≡ failures j) × (rest ≡ []))))

gives_up :
    (n : ℕ) (xs : List Bool)
    → ping_round n xs ≡ none
    → (after : List Bool) × (xs ≡ failures n ++ after)
unfolding ping_round
gives_up zero xs h = (xs, refl)
gives_up (suc n) [] h = cc
gives_up (suc n) (true ∷ xs) h = cc
gives_up (suc n) (false ∷ xs) h =
    let (after, e) = gives_up n xs h in (after, ap (λ ys. false ∷ ys) e)

goes_on : (n : ℕ) (xs rest : List Bool) → ping_round n xs ≡ some rest → Passed n xs rest
unfolding ping_round
goes_on zero xs rest h = cc
goes_on (suc n) [] rest h =
    (0, (omega arith, inr (refl, ap (λ o. elim o [ none ↦ [] | some ys ↦ ys ]) (sym h))))
goes_on (suc n) (true ∷ xs) rest h =
    (0, (omega arith, inl (ap (λ o. elim o [ none ↦ [] | some ys ↦ true ∷ ys ]) h)))
goes_on (suc n) (false ∷ xs) rest h =
    let (j, (l, e)) = goes_on n xs rest h in
    (
      suc j,
      (
        omega (arith, l),
        elim e [
          | inl p ↦ inl (ap (λ ys. false ∷ ys) p)
          | inr (p, q) ↦ inr (ap (λ ys. false ∷ ys) p, q)
        ],
      ),
    )

tail : List Bool → List Bool
tail [] = []
tail (a ∷ xs) = xs

-- A success stands in no streak.
no_streak :
    (j n : ℕ) (rest after : List Bool) → j < n → failures j ++ true ∷ rest ≡ failures n ++ after → ⊥
unfolding tail
no_streak j zero rest after l e = omega (arith, l)
no_streak zero (suc n) rest after l e = cc
no_streak (suc j) (suc n) rest after l e = no_streak j n rest after (omega (arith, l)) (ap tail e)

behind_success :
    (j n : ℕ) (rest before after : List Bool)
    → j < n
    → failures j ++ true ∷ rest ≡ before ++ (failures n ++ after)
    → HasStreak n rest
unfolding tail
behind_success j n rest [] after l e = absurd (no_streak j n rest after l e)
behind_success zero n rest (b ∷ before) after l e = (before, (after, ap tail e))
behind_success (suc j) n rest (b ∷ before) after l e =
    behind_success j n rest before after (omega (arith, l)) (ap tail e)

length-failures : (n : ℕ) → length (failures n) ≡ n
length-failures zero = refl
length-failures (suc n) = ap (λ k. suc k) (length-failures n)

length-append : (xs ys : List Bool) → length (xs ++ ys) ≡ length xs + length ys
length-append [] ys = omega arith
length-append (x ∷ xs) ys = omega (arith, length-append xs ys)

-- Too short for a streak.
too_short :
    (j n : ℕ) (before after : List Bool) → j < n → failures j ≡ before ++ (failures n ++ after) → ⊥
too_short j n before after l e =
    let a : length (failures j) ≡ length (before ++ (failures n ++ after)) = ap length e in
    omega (
      arith,
      l,
      a,
      length-failures j,
      length-failures n,
      length-append before (failures n ++ after),
      length-append (failures n) after,
    )

-- The rest of a round that goes on is shorter, and has the streak.
shorter :
    (n : ℕ) (xs rest : List Bool) (k : ℕ) → Passed n xs rest → length xs ≤ suc k → length rest ≤ k
shorter n xs rest k (j, (l, inl e)) h =
    omega (arith, h, ap length e, length-append (failures j) (true ∷ rest))
shorter n xs rest k (j, (l, inr (e, r))) h = omega (arith, ap length r)

streak_stays : (n : ℕ) (xs rest : List Bool) → Passed n xs rest → HasStreak n xs → HasStreak n rest
streak_stays n xs rest (j, (l, inl e)) (before, (after, s)) =
    behind_success j n rest before after l (sym e ∙ s)
streak_stays n xs rest (j, (l, inr (e, r))) (before, (after, s)) =
    absurd (too_short j n before after l (sym e ∙ s))

streak_comes : (n : ℕ) (xs rest : List Bool) → Passed n xs rest → HasStreak n rest → HasStreak n xs
streak_comes n xs rest (j, (l, inl e)) (before, (after, s)) = (
  failures j ++ true ∷ before,
  (
    after,
    e
        ∙ ap (λ ys. failures j ++ true ∷ ys) s
        ∙ sym (append_assoc (failures j) (true ∷ before) (failures n ++ after)),
  ),
)
streak_comes n xs rest (j, (l, inr (e, r))) (before, (after, s)) =
    absurd (too_short 0 n before after (omega (arith, l)) (sym r ∙ s))

-- One round of the loop.
rounds-cons :
    (fuel : ℕ) (x : Bool) (xs : List Bool)
    → rounds (suc fuel) (x ∷ xs) ≡ elim (ping_round ping_retry_attempts (x ∷ xs)) [
      | none ↦ true
      | some rest ↦ rounds fuel rest
    ]
unfolding rounds
rounds-cons fuel x xs = refl

-- Few answers, and no round.
no_rounds :
    (b : Bool) (xs : List Bool)
    → b ≡ false
    → length xs ≤ 0
    → (b ≡ true) ↔ HasStreak ping_retry_attempts xs
no_rounds b xs e h = ((λ i. cc), (λ i. absurd (few i)))
  where
    few : HasStreak ping_retry_attempts xs → ⊥
    few (before, (after, s)) =
        omega (arith, h, ap length s, length-append before (failures ping_retry_attempts ++ after))

rounds-HasStreak :
    (fuel : ℕ) (xs : List Bool)
    → length xs ≤ fuel
    → (rounds fuel xs ≡ true) ↔ HasStreak ping_retry_attempts xs
unfolding rounds
rounds-HasStreak zero xs h = no_rounds (rounds zero xs) xs refl (omega (arith, h))
rounds-HasStreak (suc fuel) [] h = no_rounds (rounds (suc fuel) []) [] refl (omega arith)
rounds-HasStreak (suc fuel) (x ∷ xs) h =
    elim (Option-cases (ping_round ping_retry_attempts (x ∷ xs))) [
      | inl e ↦
          let (after, s) = gives_up ping_retry_attempts (x ∷ xs) e in
          rw (rounds-cons fuel x xs, e) ((λ i. ([], (after, s))), (λ i. refl))
      | inr (rest, e) ↦
          let passed = goes_on ping_retry_attempts (x ∷ xs) rest e in
          let (f, g) =
            rounds-HasStreak fuel rest (shorter ping_retry_attempts (x ∷ xs) rest fuel passed h) in
          rw (rounds-cons fuel x xs, e)
            (
              (λ i. streak_comes ping_retry_attempts (x ∷ xs) rest passed (f i)),
              (λ i. g (streak_stays ping_retry_attempts (x ∷ xs) rest passed i)),
            )
    ]

-- The heartbeat fails exactly where twelve pings in a row, one at every retry, have failed.
pub run-HasStreak :
    (answers : List Bool) → (run answers ≡ true) ↔ HasStreak ping_retry_attempts answers
unfolding run
run-HasStreak answers = rounds-HasStreak (length answers) answers (omega arith)
