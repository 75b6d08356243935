-- ===== src/Supervise/Tries.antt =====
-- How often the supervisor runs `ensure`.
use fc_qemu.Base.{
  ℕ, zero, suc, ◌+◌, ◌≤◌, ◌<◌, ◌≡◌, refl, Bool, true, false, List, [], ◌∷◌, ◌==◌, if◌then◌else◌,
  ◌⊎◌, inl, inr, arith, ◌≢◌, ap, sym, ◌∙◌,
}
use fc_qemu.Supervise.{Step, ensure_exited, slept, tries, run_supervised, delay, ex_tempfail}

abbrev pub runs : List Step → ℕ
runs [] = 0
runs (ensure_exited n ∷ steps) = suc (runs steps)
runs (_ ∷ steps) = runs steps

-- After `n` runs that began with try `try`: they all but the last were put off, and so was the last
-- where the tries are used up.
pub record Stops (left try n : ℕ) (code : ℕ → ℕ) : Type 0 where
  pub bound : n ≤ left
  pub put_off : (k : ℕ) → suc k < n → code (try + k) ≡ ex_tempfail
  pub ended : (n ≡ left) ⊎ ((k : ℕ) × ((n ≡ suc k) × (code (try + k) ≢ ex_tempfail)))

Stops-more :
    (left try n : ℕ) (code : ℕ → ℕ)
    → code try ≡ ex_tempfail
    → Stops left (suc try) n code
    → Stops (suc left) try (suc n) code
Stops-more left try n code h s = record {
  bound = omega (arith, s.bound);
  put_off = put_off;
  ended = elim s.ended [
    | inl e ↦ inl (ap suc e)
    | inr (k, (e, differs)) ↦ inr (suc k, (ap suc e, λ same. differs (ap code (shift k) ∙ same)))
  ];
}
  where
    shift : (k : ℕ) → suc try + k ≡ try + suc k
    shift k = omega arith

    put_off : (k : ℕ) → suc k < suc n → code (try + k) ≡ ex_tempfail
    put_off zero l = ap code (omega arith) ∙ h
    put_off (suc k) l = sym (ap code (shift k)) ∙ s.put_off k (omega (arith, l))

Stops-one : (left try : ℕ) (code : ℕ → ℕ) → code try ≢ ex_tempfail → Stops (suc left) try 1 code
Stops-one left try code h = record {
  bound = omega arith;
  put_off = λ k l. ground (arith, l);
  ended = inr (0, (refl, λ same. h (ap code (omega arith) ∙ same)));
}

-- A run, and the others if it was put off.
Stops-run :
    (left try : ℕ) (code : ℕ → ℕ) (b : Bool) (rest : List Step)
    → (code try == ex_tempfail) ≡ b
    → Stops left (suc try) (runs rest) code
    → Stops (suc left) try (suc (runs (if b then slept delay ∷ rest else []))) code
Stops-run left try code true rest h s = Stops-more left try (runs rest) code (ground arith) s
Stops-run left try code false rest h s = Stops-one left try code (λ e. ground arith)

tries-Stops :
    (left try exit_code : ℕ) (code : ℕ → ℕ)
    → Stops left try (runs (tries left try exit_code code)) code
unfolding tries
tries-Stops zero try exit_code code = record {
  bound = omega arith;
  put_off = λ k h. ground (arith, h);
  ended = inl refl;
}
tries-Stops (suc left) try exit_code code =
    Stops-run left try code (code try == ex_tempfail) _ refl
      (tries-Stops left (suc try) (code try) code)

-- The supervisor runs `ensure` at most twelve times. Each run but the last exits with EX_TEMPFAIL,
-- and it stops before the twelfth only where a run exits with another code.
pub run_supervised-Stops :
    (exit_code : ℕ) (code : ℕ → ℕ) → Stops 12 0 (runs (run_supervised exit_code code)) code
unfolding run_supervised
run_supervised-Stops exit_code code = tries-Stops 12 0 exit_code code
