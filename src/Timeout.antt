-- ===== src/Timeout.antt =====
-- timeout.py, and the loops `while timeout.tick():` that the other parts run. Time is counted in
-- milliseconds.
pub mod Ends
pub mod Rules
use fc_qemu.Base.{
  ℕ, zero, suc, ◌+◌, ◌-◌, ◌/◌, Bool, true, false, Option, none, some, timeout_error, ◌==◌,
}
use fc_qemu.World.{
  Env, Action, pure, raise, diverge, when◌then◌else◌, option, ◌>>=◌, ◌>>◌, get_time, sleep,
}

abbrev pub second : ℕ
second = 1000

pub record TimeOut : Type 0 where
  pub cutoff : ℕ
  pub interval : ℕ
  pub timed_out : Bool
  pub first : Bool
  pub raise_on_timeout : Bool

-- `int(self.cutoff - self._now())` in whole seconds. Where Python's value is negative this is 0;
-- the code only asks whether it lies below a positive number, or is `<= 0`.
abbrev pub remaining : TimeOut → ℕ → ℕ
remaining t now = (t.cutoff - now) / second

module _ (env : Env) where
  -- `TimeOut(timeout, interval, raise_on_timeout)`
  unfoldable pub time_out : ℕ → ℕ → Bool → Action TimeOut
  time_out timeout interval raise_on_timeout = do
    now ← get_time env
    pure (record {
      cutoff = now + timeout;
      interval = interval;
      timed_out = false;
      first = true;
      raise_on_timeout = raise_on_timeout;
    })

  -- The object after the call, and what the call returned.
  unfoldable pub tick : TimeOut → Action (TimeOut × Bool)
  tick t = do
    now ← get_time env
    when remaining t now == 0
        then (when t.raise_on_timeout
            then raise timeout_error
            else pure (record t { timed_out = true }, false))
        else (when t.first
            then pure (record t { timed_out = false; first = false }, true)
            else (sleep t.interval >> pure (record t { timed_out = false }, true)))

  -- `while timeout.tick(): body`. The body says `some a` where it leaves the loop with `a`; a loop
  -- that ends by its test gives `none`.
  abbrev pub next_round :
      {A : Type 0}
      → Action (Option A)
      → (TimeOut → Action (Option A))
      → TimeOut × Bool
      → Action (Option A)
  next_round body rest (t, true) = body >>= λ r. option r (rest t) (λ a. pure (some a))
  next_round body rest (t, false) = pure none

  unfoldable pub while_ticking : {A : Type 0} → ℕ → TimeOut → Action (Option A) → Action (Option A)
  while_ticking zero t body = diverge
  while_ticking (suc fuel) t body = tick t >>= next_round body (λ t'. while_ticking fuel t' body)

-- Rounds that are enough for a loop that sleeps `interval` in each round but the first.
abbrev pub fuel_for : ℕ → ℕ → ℕ
fuel_for timeout interval = timeout / interval + 3
