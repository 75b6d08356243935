-- ===== src/Incoming/Success.antt =====
-- What the exit code 0 of the receiving side stands for.
use fc_qemu.Base.{arith, ℕ, ◌≡◌, refl, true, false, environment_changed, some, ◌∷◌}
use fc_qemu.World.{
  Request, Finish, success, unfinished, Server, Call, Event, Trace, Env, World, Action, pure, ◌>>=◌,
  call, get_state, Fails, Triple, Triple-bind, Triple-if, Triple-finally, Triple-weaken, Ends-last,
  Keeps, Keeps-exception, Emits-pure, Emits-raise, Emits-bind,
}
use fc_qemu.Qemu as Qemu
use fc_qemu.Qemu.Belief.{SeenOn}
use fc_qemu.Qemu.Quiet.{call-Quiet}
use fc_qemu.Incoming.{is_success, serve, stop_server, run_incoming}
use fc_qemu.Incoming.Calls.{any}
use fc_qemu.Incoming.Kept.{Kept, newest_request, any_keeps, Holding}
use fc_qemu.Incoming.Rounds.{serve-keeps, handle_request-keeps, tick_server-keeps}
use fc_qemu.Incoming.Cookies.{is_outdated-Idle}

-- At some time the newest request was to finish the migration, with the right cookie, and the VM had
-- been looked at since then and found running.
pub data Confirmed (env : Env) : Trace → Type 0 where
  here :
      (t : Trace)
      → SeenOn t
      → newest_request t ≡ some (env.cookie, Request.finish_incoming)
      → Confirmed env t
  later : (e : Event) (t : Trace) → Confirmed env t → Confirmed env (e ∷ t)

module _ (env : Env) where
  abbrev Good : Server → Trace → Type 0
  Good s t = s.finished ≡ success → Confirmed env t

  Good-Kept : Kept env Good
  Good-Kept = record {
    events = λ s e t u h f. later e t (h f);
    starts = λ s t b h f. h f;
    waits = λ s t c h f. h f;
    meets = λ s t h f. h f;
    destroys = λ s t h f. absurd cc;
    cancels = λ s t h f. absurd cc;
    finishes = λ s t h on asked f. here t on asked;
  }

  abbrev Goes : World → Type 0
  Goes = Holding env Good Good-Kept

  abbrev pub Anything : Fails
  Anything _ _ = Unit

  anything : {A : Type 0} (m : Action A) → Triple (λ _. Unit) m (λ _ _. Unit) Anything
  anything m w h = Ends-last (λ _. Unit) (m w) tt

  call_keeps : (c : Call) → Keeps Goes (call env c >>= λ _. pure tt)
  call_keeps c =
      any_keeps env Good Good-Kept (any (Emits-bind (call-Quiet env c) (λ _. Emits-pure tt)))

  loosely : {A : Type 0} (m : Action A) → Keeps Goes m → Triple Goes m (λ _. Goes) Anything
  loosely m x =
      Triple-weaken m Goes (λ _. Goes) (λ _. Goes) (λ _. Goes) Anything x (λ _ w h. h) (λ _ w h. tt)

  is_success-true : (f : Finish) → is_success f ≡ true → f ≡ success
  is_success-true f h = ground arith

  serves : (fuel this_host : ℕ) → Keeps Goes (serve env fuel this_host)
  serves fuel this_host =
      serve-keeps env this_host Goes (handle_request-keeps env Good Good-Kept)
        (tick_server-keeps env Good Good-Kept)
        (any_keeps env Good Good-Kept (any (is_outdated-Idle env this_host)))
        (any_keeps env Good Good-Kept (Emits-raise environment_changed)) fuel

  reads : Triple Goes get_state (λ u w. Goes w × (u ≡ w)) Anything
  unfolding get_state
  reads w h = (h, refl)

  stops : Triple Goes (stop_server env) (λ code w. code ≡ 0 → Confirmed env w.trace) Anything
  unfolding stop_server pure
  stops =
      Triple-bind _ _ Goes (λ _. Goes) _ Anything
        (loosely _ (Keeps-exception Goes _ _ (call_keeps Call.local_lock_released) (λ w h. h)))
        (λ _.
          Triple-bind get_state _ Goes (λ u w. Goes w × (u ≡ w)) _ Anything reads
            (λ u.
              Triple-if (is_success u.server.finished) _ _ (λ w. Goes w × (u ≡ w)) _ Anything
                (λ f w h _. h.0 (rw (← h.1) (is_success-true u.server.finished f)))
                (λ f w h.
                  Triple-bind (Qemu.destroy env false) (λ _. pure 1) (λ _. Unit) (λ _ _. Unit)
                    (λ code w. code ≡ 0 → Confirmed env w.trace) Anything (anything _)
                    (λ _ w h e. absurd cc) w tt)))

  -- The receiving side, where it has not finished before it starts, ends with the exit code 0 only if
  -- at some time the newest request was to finish the migration, with the right cookie, and the VM had
  -- been looked at since then and found running.
  pub run_incoming-success :
      (fuel this_host : ℕ)
      → Triple
          (λ w. w.server.finished ≡ unfinished)
          (run_incoming env fuel this_host)
          (λ code w. code ≡ 0 → Confirmed env w.trace)
          Anything
  unfolding run_incoming
  run_incoming-success fuel this_host = λ w h.
      Triple-bind (call env Call.inmigrate_registered) _ Goes (λ _. Goes)
        (λ code u. code ≡ 0 → Confirmed env u.trace) Anything
        (loosely _ (any_keeps env Good Good-Kept (any (call-Quiet env Call.inmigrate_registered))))
        (λ _.
          Triple-bind _ (λ _. stop_server env) Goes (λ _. Goes)
            (λ code u. code ≡ 0 → Confirmed env u.trace) Anything
            (loosely _ (
              Triple-finally (serve env fuel this_host) _ Goes (λ _. Goes) (λ _. Goes) Goes Goes
                (serves fuel this_host) (λ _. call_keeps Call.inmigrate_deregistered)
                (call_keeps Call.inmigrate_deregistered) (λ u i. i)))
            (λ _. stops))
        w (λ f. absurd cc)
