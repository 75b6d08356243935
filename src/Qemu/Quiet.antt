-- ===== src/Qemu/Quiet.antt =====
-- Which calls the operations on the process and the monitor make, as to what they give up: locks, the
-- registration with Consul, the run files.
use fc_qemu.Base.{ℕ, zero, suc, not, Bool, true, false, ◌≡◌, refl, Option}
use fc_qemu.World.{
  Event, Env, Command, Call, call, Action, get_state, set_lock_open, set_lock_count, find_process,
  process_runs, terminate_process, command, find_supervisor, supervisor_runs, terminate_supervisor,
  flock, release_flock, diverge, Emits, Emits-reply, Emits-silent, Emits-mono, emits, Emits-if,
  Emits-bind, Emits-pure,
}
use fc_qemu.Qemu.Looks.{
  Look, get_state-Emits, diverge-Emits, while_ticking-Emits, find_process-Look, process_runs-Look,
  time_out-Look, tick-Look, qmp-Look, is_running-Look,
}
use fc_qemu.Timeout.{TimeOut, time_out, tick, while_ticking}
use fc_qemu.Qemu.{
  qmp, is_running, graceful_shutdown, while_and_ticking, kill_supervisor, end_process, destroy,
}

abbrev pub gives_up : Event → Bool
gives_up (Event.lock_removed _ _ _) = true
gives_up (Event.consul_deregistered _) = true
gives_up Event.run_files_removed = true
gives_up _ = false

abbrev pub Quiet : Event → Type 0
Quiet e = gives_up e ≡ false

Look→Quiet : (e : Event) → Look e → Quiet e
Look→Quiet (Event.time_read n) h = refl
Look→Quiet (Event.slept d) h = refl
Look→Quiet (Event.process_found b) h = refl
Look→Quiet (Event.process_running b) h = refl
Look→Quiet (Event.qmp_connected r) h = refl
Look→Quiet (Event.status_queried r) h = refl
Look→Quiet _ h = elim h [ ]

looks_only : {A : Type 0} {m : Action A} → Emits Look m → Emits Quiet m
looks_only = Emits-mono Look→Quiet

pub get_state-Quiet : Emits Quiet get_state
get_state-Quiet = get_state-Emits

pub set_lock_open-Quiet : (b : Bool) → Emits Quiet (set_lock_open b)
unfolding set_lock_open
set_lock_open-Quiet b = Emits-silent _ _ (λ w. refl) (λ w. refl)

pub set_lock_count-Quiet : (n : ℕ) → Emits Quiet (set_lock_count n)
unfolding set_lock_count
set_lock_count-Quiet n = Emits-silent _ _ (λ w. refl) (λ w. refl)

pub release_flock-Quiet : Emits Quiet release_flock
unfolding release_flock
release_flock-Quiet = Emits-reply _ _ (λ w. refl)

pub diverge-Quiet : {A : Type 0} → Emits {A = A} Quiet diverge
diverge-Quiet = diverge-Emits

module _ (env : Env) where
  pub flock-Quiet : (b : Bool) → Emits Quiet (flock env b)
  unfolding flock
  flock-Quiet b = Emits-reply _ _ (λ w. refl)

  pub call-Quiet : (c : Call) → Emits Quiet (call env c)
  unfolding call
  call-Quiet c = Emits-reply _ _ (λ w. refl)

  pub find_process-Quiet : Emits Quiet (find_process env)
  find_process-Quiet = looks_only (find_process-Look env)

  process_runs-Quiet : Emits Quiet (process_runs env)
  process_runs-Quiet = looks_only (process_runs-Look env)

  terminate_process-Quiet : Emits Quiet (terminate_process env)
  unfolding terminate_process
  terminate_process-Quiet = Emits-reply _ _ (λ w. refl)

  command-Quiet : (c : Command) → Emits Quiet (command env c)
  unfolding command
  command-Quiet c = Emits-reply _ _ (λ w. refl)

  find_supervisor-Quiet : Emits Quiet (find_supervisor env)
  unfolding find_supervisor
  find_supervisor-Quiet = Emits-reply _ _ (λ w. refl)

  supervisor_runs-Quiet : Emits Quiet (supervisor_runs env)
  unfolding supervisor_runs
  supervisor_runs-Quiet = Emits-reply _ _ (λ w. refl)

  terminate_supervisor-Quiet : Emits Quiet (terminate_supervisor env)
  unfolding terminate_supervisor
  terminate_supervisor-Quiet = Emits-reply _ _ (λ w. refl)

  pub time_out-Quiet : (d i : ℕ) (r : Bool) → Emits Quiet (time_out env d i r)
  time_out-Quiet d i r = looks_only (time_out-Look env d i r)

  pub tick-Quiet : (t : TimeOut) → Emits Quiet (tick env t)
  tick-Quiet t = looks_only (tick-Look env t)

  pub while_ticking-Quiet :
      {A : Type 0} (body : Action (Option A))
      → Emits Quiet body
      → (n : ℕ) (t : TimeOut) → Emits Quiet (while_ticking env n t body)
  while_ticking-Quiet body q = while_ticking-Emits env body tick-Quiet q

  while_and_ticking-Quiet :
      (test : Action Bool) (body : Action Bool)
      → Emits Quiet test
      → Emits Quiet body
      → (n : ℕ) (t : TimeOut) → Emits Quiet (while_and_ticking env n test t body)
  unfolding while_and_ticking
  while_and_ticking-Quiet test body p q zero t = diverge-Quiet
  while_and_ticking-Quiet test body p q (suc n) t = Emits-bind p (λ goes_on.
      Emits-if goes_on
        (Emits-bind (tick-Quiet t) (λ x.
          Emits-if x.1
            (Emits-bind q (λ breaks.
              Emits-if (not breaks) (while_and_ticking-Quiet test body p q n x.0) (Emits-pure tt)))
            (Emits-pure tt)))
        (Emits-pure tt))

  qmp-Quiet : Emits Quiet (qmp env)
  qmp-Quiet = looks_only (qmp-Look env)

  pub is_running-Quiet : Emits Quiet (is_running env)
  is_running-Quiet = looks_only (is_running-Look env)

  pub graceful_shutdown-Quiet : Emits Quiet (graceful_shutdown env)
  unfolding graceful_shutdown
  graceful_shutdown-Quiet = search (emits, qmp-Quiet, command-Quiet) depth 9

  kill_supervisor-Quiet : Emits Quiet (kill_supervisor env)
  unfolding kill_supervisor
  kill_supervisor-Quiet =
      search
        (
          emits, find_supervisor-Quiet, time_out-Quiet, supervisor_runs-Quiet,
          terminate_supervisor-Quiet, while_and_ticking-Quiet,
        )
        depth 12

  end_process-Quiet : Emits Quiet (end_process env)
  unfolding end_process
  end_process-Quiet =
      search
        (
          emits, qmp-Quiet, command-Quiet, time_out-Quiet, process_runs-Quiet,
          terminate_process-Quiet, while_and_ticking-Quiet,
        )
        depth 14

  pub destroy-Quiet : (b : Bool) → Emits Quiet (destroy env b)
  unfolding destroy
  destroy-Quiet b =
      search (emits, find_process-Quiet, kill_supervisor-Quiet, end_process-Quiet) depth 12
