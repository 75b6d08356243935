-- ===== src/Timeout/Ends.antt =====
-- The termination of loops over a TimeOut.
use mathlib.Core.Path.{subst}
use fc_qemu.Base.{
  ℕ, zero, suc, ◌+◌, ◌*◌, ◌/◌, ◌≤◌, ◌<◌, Bool, true, false, Option, none, some, ◌≡◌, refl, sym,
  Result, ok, err, stuck, timeout_error, arith, ◌∷◌, ◌==◌, if◌then◌else◌,
}
use fc_qemu.World.{Env, Event, Trace, World, Action, pure, option, ◌>>=◌, calls}
use fc_qemu.Timeout.{
  second, TimeOut, remaining, time_out, tick, next_round, while_ticking, fuel_for,
}

-- `time.time()` does not go back, and `time.sleep(d)` lasts for `d`.
pub record ClockRuns (env : Env) : Type 0 where
  pub steady : (e : Event) (t : Trace) → env.time t ≤ env.time (e ∷ t)
  pub sleeps : (d : ℕ) (t : Trace) → env.time t + d ≤ env.time (Event.slept d ∷ t)

abbrev pub IsStuck : {A : Type 0} → Result A → Type 0
IsStuck (ok _) = ⊥
IsStuck (err _) = ⊥
IsStuck stuck = Unit

-- The action comes to an end, and time has not gone back.
abbrev pub Returns : {A : Type 0} → Env → World → Result A × World → Type 0
Returns env w (r, w') = (¬ IsStuck r) × (env.time w.trace ≤ env.time w'.trace)

abbrev pub Terminates : {A : Type 0} → Env → Action A → Type 0
Terminates env m = (w : World) → Returns env w (m w)

module _ (env : Env) (runs : ClockRuns env) where
  time_out-Returns : (d i : ℕ) (r : Bool) (w : World) → Returns env w (time_out env d i r w)
  unfolding time_out calls
  time_out-Returns d i r w = ((λ s. s), runs.steady _ _)

  -- One round of the body, and then the rest of the loop.
  round-Returns :
      {A : Type 0} (w v : World) (rest : Action (Option A)) (x : Result (Option A) × World)
      → env.time w.trace ≤ env.time v.trace
      → Returns env v x
      → ((u : World) → env.time v.trace ≤ env.time u.trace → Returns env u (rest u))
      → Returns env w (((λ (_ : World). x) >>= λ r. option r rest (λ a. pure (some a))) v)
  unfolding calls
  round-Returns w v rest (ok (some a), u) h k r = ((λ s. s), omega (arith, k.1))
  round-Returns w v rest (ok none, u) h k r = let q = r u k.1 in (q.0, omega (arith, k.1, q.1))
  round-Returns w v rest (err e, u) h k r = ((λ s. s), omega (arith, k.1))
  round-Returns w v rest (stuck, u) h k r = absurd (k.0 tt)

  abbrev read : World → World
  read w = record w { trace = Event.time_read (env.time w.trace) ∷ w.trace }

  abbrev slept_after : ℕ → World → World
  slept_after d w = record w { trace = Event.slept d ∷ w.trace }

  tick_result :
      (t : TimeOut) (w : World)
      → tick env t w ≡ (
          if remaining t (env.time w.trace) == 0
          then (if t.raise_on_timeout
              then (err timeout_error, read w)
              else (ok (record t { timed_out = true }, false), read w))
          else (if t.first
              then (ok (record t { timed_out = false; first = false }, true), read w)
              else (ok (record t { timed_out = false }, true), slept_after t.interval (read w))))
  unfolding tick calls
  tick_result t w = ground arith

  -- A tick ends the loop, or it has waited for the interval unless it is the first.
  tick-cases :
      {A : Type 0} (P : Result A × World → Type 0) (k : TimeOut × Bool → Action A) (t : TimeOut)
      (w : World)
      → P (err timeout_error, read w)
      → P (k (record t { timed_out = true }, false) (read w))
      → (second + env.time w.trace ≤ t.cutoff
          → t.first ≡ true
          → P (k (record t { timed_out = false; first = false }, true) (read w)))
      → (second + env.time w.trace ≤ t.cutoff
          → t.first ≡ false
          → P (k (record t { timed_out = false }, true) (slept_after t.interval (read w))))
      → P ((tick env t >>= k) w)
  unfolding calls
  tick-cases P k t w over_raise over start more =
      subst (λ x. P (((λ (_ : World). x) >>= k) w)) (sym (tick_result t w))
        (split (remaining t (env.time w.trace) == 0) t.raise_on_timeout t.first refl refl)
    where
      split :
          (a b c : Bool)
          → (remaining t (env.time w.trace) == 0) ≡ a
          → t.first ≡ c
          → P (
              ((λ (_ : World).
                    if a
                    then (if b
                        then (err timeout_error, read w)
                        else (ok (record t { timed_out = true }, false), read w))
                    else (if c
                        then (ok (record t { timed_out = false; first = false }, true), read w)
                        else (
                          ok (record t { timed_out = false }, true),
                          slept_after t.interval (read w),
                        )))
                  >>= k)
                w)
      split true true c e f = over_raise
      split true false c e f = over
      split false b true e f = start (ground arith) f
      split false b false e f = more (ground arith) f

  module _ {A : Type 0} (body : Action (Option A)) (ends : Terminates env body) where
    abbrev go : ℕ → TimeOut × Bool → Action (Option A)
    go n = next_round env body (λ t'. while_ticking env n t' body)

    loop-Returns :
        (n : ℕ) (t : TimeOut) (w : World)
        → t.first ≡ false
        → t.cutoff < env.time w.trace + n * t.interval + second
        → Returns env w (while_ticking env (suc n) t body w)
    unfolding while_ticking calls
    loop-Returns zero t w h k =
        tick-cases (Returns env w) (go zero) t w ((λ s. s), runs.steady _ _)
          ((λ s. s), runs.steady _ _) (λ l f. absurd (omega arith)) (λ l f. absurd (omega arith))
    loop-Returns (suc n) t w h k =
        tick-cases (Returns env w) (go (suc n)) t w ((λ s. s), runs.steady _ _)
          ((λ s. s), runs.steady _ _) (λ l f. cc)
          (λ l f.
            let v = slept_after t.interval (read w) in
            let late : env.time w.trace + t.interval ≤ env.time v.trace = omega (
              arith,
              runs.steady (Event.time_read (env.time w.trace)) w.trace,
              runs.sleeps t.interval (read w).trace,
            ) in
            round-Returns w v (while_ticking env (suc n) (record t { timed_out = false }) body)
              (body v) (omega (arith, late)) (ends v)
              (λ u later.
                loop-Returns n (record t { timed_out = false }) u h (omega (arith, late, later))))

    -- The first tick does not sleep.
    first-Returns :
        (n : ℕ) (t : TimeOut) (w : World)
        → t.cutoff < env.time w.trace + n * t.interval + second
        → t.first ≡ true
        → Returns env w (while_ticking env (suc (suc n)) t body w)
    unfolding while_ticking calls
    first-Returns n t w k h =
        tick-cases (Returns env w) (go (suc n)) t w ((λ s. s), runs.steady _ _)
          ((λ s. s), runs.steady _ _)
          (λ l f.
            round-Returns w (read w)
              (while_ticking env (suc n) (record t { timed_out = false; first = false }) body)
              (body (read w)) (runs.steady _ _) (ends (read w))
              (λ u later.
                loop-Returns n (record t { timed_out = false; first = false }) u refl
                  (omega (arith, later, runs.steady (Event.time_read (env.time w.trace)) w.trace))))
          (λ l f. cc)

  fuel_enough : (d i : ℕ) → 0 < i → d < (d / i + 1) * i
  fuel_enough d i h = grind arith

  fuel_suc : (d i : ℕ) → fuel_for d i ≡ suc (suc (d / i + 1))
  fuel_suc d i = omega arith

  -- `TimeOut(duration, interval)` and a loop over it come to an end, if the body does, the
  -- interval is not 0, and the clock goes on while the process sleeps.
  pub while_ticking-Terminates :
      {A : Type 0} (body : Action (Option A)) (duration interval : ℕ) (raises : Bool)
      → 0 < interval
      → Terminates env body
      → Terminates env (
          time_out env duration interval raises >>= λ t.
          while_ticking env (fuel_for duration interval) t body)
  unfolding time_out calls
  while_ticking-Terminates body d i raises h ends w =
      let t : TimeOut = record {
        cutoff = env.time w.trace + d;
        interval = i;
        timed_out = false;
        first = true;
        raise_on_timeout = raises;
      } in
      let r : Returns env (read w) (while_ticking env (fuel_for d i) t body (read w)) =
        rw (fuel_suc d i) (
          first-Returns body ends (d / i + 1) t (read w)
            (omega
              (arith, fuel_enough d i h, runs.steady (Event.time_read (env.time w.trace)) w.trace))
            refl) in
      (r.0, omega (arith, r.1, runs.steady (Event.time_read (env.time w.trace)) w.trace))
