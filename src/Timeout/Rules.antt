-- ===== src/Timeout/Rules.antt =====
-- Which calls a loop over a TimeOut makes, and the rule for what holds when it ends.
use fc_qemu.Base.{ℕ, zero, suc, Bool, true, false, Option, none, some}
use fc_qemu.World.{
  Event, Env, World, Action, pure, diverge, option, get_time, sleep, Triple, Fails, Emits,
  Emits-reply, emits, Triple-bind,
}
use fc_qemu.Timeout.{TimeOut, time_out, tick, next_round, while_ticking}

-- Reading the clock and sleeping.
abbrev pub Waits : Event → Type 0
Waits (Event.time_read _) = Unit
Waits (Event.slept _) = Unit
Waits _ = ⊥

-- `P a` of a value, `I` without one.
abbrev pub OptionPost :
    {A : Type 0} → (A → World → Type 0) → (World → Type 0) → Option A → World → Type 0
OptionPost P I none = I
OptionPost P I (some a) = P a

module _ (env : Env) where
  get_time-Waits : Emits Waits (get_time env)
  unfolding get_time
  get_time-Waits = Emits-reply _ _ (λ w. tt)

  sleep-Waits : (d : ℕ) → Emits Waits (sleep d)
  unfolding sleep
  sleep-Waits d = Emits-reply _ _ (λ w. tt)

  pub time_out-Waits : (d i : ℕ) (r : Bool) → Emits Waits (time_out env d i r)
  unfolding time_out
  time_out-Waits d i r = search (emits, get_time-Waits)

  pub tick-Waits : (t : TimeOut) → Emits Waits (tick env t)
  unfolding tick
  tick-Waits t = search (emits, get_time-Waits, sleep-Waits) depth 8

  -- An invariant that waiting keeps holds when the loop ends by its test; else it ends as a round of
  -- the body does.
  pub Triple-ticking :
      {A : Type 0} (body : Action (Option A)) (I : World → Type 0) (P : A → World → Type 0)
      (Q : Fails)
      → ((t : TimeOut) → Triple I (tick env t) (λ _. I) Q)
      → Triple I body (OptionPost P I) Q
      → ((w : World) → I w → Q none w)
      → (fuel : ℕ) (t : TimeOut) → Triple I (while_ticking env fuel t body) (OptionPost P I) Q
  unfolding while_ticking diverge pure option
  Triple-ticking body I P Q ticks h q zero t = q
  Triple-ticking {A} body I P Q ticks h q (suc n) t =
      Triple-bind (tick env t) _ I (λ _. I) (OptionPost P I) Q (ticks t)
        (round (λ t'. Triple-ticking body I P Q ticks h q n t'))
    where
      round :
          ((t' : TimeOut) → Triple I (while_ticking env n t' body) (OptionPost P I) Q)
          → (x : TimeOut × Bool)
          → Triple I (next_round env body (λ t'. while_ticking env n t' body) x) (OptionPost P I) Q
      round rest (t', true) = Triple-bind body _ I (OptionPost P I) (OptionPost P I) Q h (λ r.
          elim r
            as (λ r'.
              Triple (OptionPost P I r')
                (option r' (while_ticking env n t' body) (λ a. pure (some a))) (OptionPost P I) Q) [
                  | none ↦ λ w i. rest t' w i
                  | some a ↦ λ w p. p
                ])
      round rest (t', false) = λ w i. i
