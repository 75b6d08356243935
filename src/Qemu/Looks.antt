-- ===== src/Qemu/Looks.antt =====
-- The calls by which the program looks at the process and the monitor, and waits.
use fc_qemu.Base.{
  ℕ, zero, suc, ◌*◌, Bool, true, false, refl, Option, none, some, vm_state_inconsistent,
}
use fc_qemu.World.{
  Event, Env, Action, pure, raise, option, get_state, set_qmp_open, get_time, sleep, find_process,
  process_runs, qmp_connect, query_status, diverge, Emits, Emits-reply, Emits-silent, emits,
  Emits-bind, Emits-option, Emits-pure,
}
use fc_qemu.Timeout.{TimeOut, second, time_out, tick, next_round, while_ticking, fuel_for}
use fc_qemu.Qemu.{qmp, process_exists, ask_monitor, check_running, is_running}

abbrev pub Look : Event → Type 0
Look (Event.time_read n) = Unit
Look (Event.slept d) = Unit
Look (Event.process_found b) = Unit
Look (Event.process_running b) = Unit
Look (Event.qmp_connected r) = Unit
Look (Event.status_queried r) = Unit
Look _ = ⊥

module _ {E : Event → Type 0} where
  pub get_state-Emits : Emits E get_state
  unfolding get_state
  get_state-Emits = Emits-silent _ _ (λ w. refl) (λ w. refl)

  pub set_qmp_open-Emits : (b : Bool) → Emits E (set_qmp_open b)
  unfolding set_qmp_open
  set_qmp_open-Emits b = Emits-silent _ _ (λ w. refl) (λ w. refl)

  pub diverge-Emits : {A : Type 0} → Emits {A = A} E diverge
  unfolding diverge
  diverge-Emits = record { keeps = λ T s w h. h; spares = λ s w h. h }

  -- A loop that waits, by what its clock and its body do.
  pub while_ticking-Emits :
      {A : Type 0} (env : Env) (body : Action (Option A))
      → ((t : TimeOut) → Emits E (tick env t))
      → Emits E body
      → (n : ℕ) (t : TimeOut) → Emits E (while_ticking env n t body)
  unfolding while_ticking
  while_ticking-Emits env body c q zero t = diverge-Emits
  while_ticking-Emits env body c q (suc n) t =
      Emits-bind (c t) (round (while_ticking-Emits env body c q n))
    where
      round :
          ((t' : TimeOut) → Emits E (while_ticking env n t' body))
          → (x : TimeOut × Bool)
          → Emits E (next_round env body (λ t'. while_ticking env n t' body) x)
      round rest (t', true) =
          Emits-bind q (λ r. Emits-option r (rest t') (λ a. Emits-pure (some a)))
      round rest (t', false) = Emits-pure none

pub sleep-Look : (d : ℕ) → Emits Look (sleep d)
unfolding sleep
sleep-Look d = Emits-reply _ _ (λ w. tt)

module _ (env : Env) where
  pub get_time-Look : Emits Look (get_time env)
  unfolding get_time
  get_time-Look = Emits-reply _ _ (λ w. tt)

  pub find_process-Look : Emits Look (find_process env)
  unfolding find_process
  find_process-Look = Emits-reply _ _ (λ w. tt)

  pub process_runs-Look : Emits Look (process_runs env)
  unfolding process_runs
  process_runs-Look = Emits-reply _ _ (λ w. tt)

  pub qmp_connect-Look : Emits Look (qmp_connect env)
  unfolding qmp_connect
  qmp_connect-Look = Emits-reply _ _ (λ w. tt)

  pub query_status-Look : Emits Look (query_status env)
  unfolding query_status
  query_status-Look = Emits-reply _ _ (λ w. tt)

  pub time_out-Look : (d i : ℕ) (r : Bool) → Emits Look (time_out env d i r)
  unfolding time_out
  time_out-Look d i r = search (emits, get_time-Look)

  pub tick-Look : (t : TimeOut) → Emits Look (tick env t)
  unfolding tick
  tick-Look t = search (emits, get_time-Look, sleep-Look)

  pub qmp-Look : Emits Look (qmp env)
  unfolding qmp
  qmp-Look = search (emits, get_state-Emits, qmp_connect-Look, set_qmp_open-Emits) depth 9

  process_exists-Look : Emits Look (process_exists env)
  unfolding process_exists
  process_exists-Look = search (emits, find_process-Look, process_runs-Look) depth 9

  ask_monitor-Look : Emits Look (ask_monitor env)
  unfolding ask_monitor
  ask_monitor-Look = search (emits, qmp-Look, query_status-Look, set_qmp_open-Emits) depth 12

  check_running-Look : Emits Look (check_running env)
  unfolding check_running
  check_running-Look = search (emits, process_exists-Look, ask_monitor-Look) depth 9

  answer-Look : (o : Option Bool) → Emits Look (option o (raise vm_state_inconsistent) pure)
  answer-Look o = Emits-option o (search emits) (λ b. Emits-pure b)

  pub is_running-Look : Emits Look (is_running env)
  unfolding is_running
  is_running-Look = Emits-bind (time_out-Look (10 * second) second false) (λ t.
      Emits-bind
        (while_ticking-Emits env _ tick-Look check_running-Look (fuel_for (10 * second) second) t)
        answer-Look)
