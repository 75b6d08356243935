-- ===== src/Qemu/Ends.antt =====
-- The termination of `is_running`.
use fc_qemu.Base.{
  ◌≡◌, refl, ◌*◌, Bool, false, Option, none, some, Result, ok, err, stuck, arith,
  vm_state_inconsistent,
}
use fc_qemu.World.{Env, World, Action, calls, pure, raise, option, ◌>>=◌}
use fc_qemu.Timeout.{second, time_out, while_ticking, fuel_for}
use fc_qemu.Timeout.Ends.{ClockRuns, Returns, Terminates, while_ticking-Terminates}
use fc_qemu.Qemu.{qmp, process_exists, ask_monitor, check_running, is_running}

module _ (env : Env) (runs : ClockRuns env) where
  process_exists-Terminates : Terminates env (process_exists env)
  unfolding process_exists calls
  process_exists-Terminates w = grind (arith, runs.steady)

  qmp-Terminates : Terminates env (qmp env)
  unfolding qmp calls
  qmp-Terminates w = grind (arith, runs.steady)

  bind_end :
      {A B : Type 0} (f : A → Action B) (w : World) (x : Result A × World)
      → Returns env w x
      → ((a : A) → Terminates env (f a))
      → Returns env w (((λ (_ : World). x) >>= f) w)
  unfolding ◌>>=◌
  bind_end f w (ok a, v) h k = let q = k a v in (q.0, omega (arith, h.1, q.1))
  bind_end f w (err e, v) h k = ((λ s. s), h.1)
  bind_end f w (stuck, v) h k = absurd (h.0 tt)

  pub bind-Terminates :
      {A B : Type 0} (m : Action A) (f : A → Action B)
      → Terminates env m
      → ((a : A) → Terminates env (f a))
      → Terminates env (m >>= f)
  unfolding ◌>>=◌
  bind-Terminates m f h k w = bind_end f w (m w) (h w) k

  ask_monitor-Terminates : Terminates env (ask_monitor env)
  unfolding ask_monitor qmp calls
  ask_monitor-Terminates w = grind (arith, runs.steady)

  pure-Terminates : {A : Type 0} (a : A) → Terminates env (pure a)
  unfolding pure
  pure-Terminates a w = ((λ s. s), omega arith)

  check_running-Terminates : Terminates env (check_running env)
  unfolding check_running
  check_running-Terminates =
      bind-Terminates (process_exists env) _ process_exists-Terminates
        (λ p. bind-Terminates (ask_monitor env) _ ask_monitor-Terminates (λ m. pure-Terminates _))

  answer-Terminates :
      (o : Option Bool) → Terminates env (option o (raise vm_state_inconsistent) pure)
  unfolding option raise pure
  answer-Terminates none w = ((λ s. s), omega arith)
  answer-Terminates (some b) w = ((λ s. s), omega arith)

  assoc_end :
      {A B C : Type 0} (f : A → Action B) (g : B → Action C) (w : World) (x : Result A × World)
      → ((λ (_ : World). x) >>= λ a. f a >>= g) w ≡ (((λ (_ : World). x) >>= f) >>= g) w
  unfolding ◌>>=◌
  assoc_end f g w (ok a, v) = refl
  assoc_end f g w (err e, v) = refl
  assoc_end f g w (stuck, v) = refl

  assoc :
      {A B C : Type 0} (m : Action A) (f : A → Action B) (g : B → Action C) (w : World)
      → (m >>= λ a. f a >>= g) w ≡ ((m >>= f) >>= g) w
  unfolding ◌>>=◌
  assoc m f g w = assoc_end f g w (m w)

  -- `is_running` comes to an end, whatever the replies are, with a clock that goes on
  -- while the process sleeps: the fuel that it is given is enough.
  pub is_running-Terminates : Terminates env (is_running env)
  unfolding is_running
  is_running-Terminates w =
      rw
        (assoc (time_out env (10 * second) second false)
          (λ t. while_ticking env (fuel_for (10 * second) second) t (check_running env))
          (λ answer. option answer (raise vm_state_inconsistent) pure) w)
        (bind-Terminates _ _
          (while_ticking-Terminates env runs (check_running env) (10 * second) second false
            (omega arith) check_running-Terminates)
          answer-Terminates w)
