-- ===== src/Incoming/Rounds.antt =====
-- What the loop of the IncomingServer keeps, round by round.
use fc_qemu.Base.{ℕ, zero, suc, ◌≡◌, false, environment_changed, refl}
use fc_qemu.World.{
  Server, Trace, Env, World, take_request, get_state, raise, pure, diverge, Triple, Triple-bind,
  Triple-option, Triple-except, Keeps, Keeps-bind, Keeps-if, Keeps-pure,
}
use fc_qemu.Qemu.Looks.{get_state-Emits}
use fc_qemu.Qemu.Quiet.{tick-Quiet}
use fc_qemu.Incoming.{perform, handle_request, is_outdated, tick_server, serve_once, serve}
use fc_qemu.Incoming.Calls.{any}
use fc_qemu.Incoming.Kept.{
  Kept, newest_request, any_keeps, Holding, set_server-keeps, perform-keeps,
}

module _ (env : Env) (this_host : ℕ) (J : World → Type 0) (requests : Keeps J (handle_request env))
    (ticks : Keeps J (tick_server env)) (looks : Keeps J (is_outdated env this_host))
    (raises : Keeps J (raise {A = Unit {0}} environment_changed)) where
  reads : Keeps J get_state
  unfolding get_state
  reads w h = h

  serve_once-keeps : Keeps J (serve_once env this_host)
  unfolding serve_once
  serve_once-keeps = Keeps-bind J _ _ requests (λ _. Keeps-bind J _ _ reads (λ w.
      Keeps-bind J _ _ (Keeps-if J w.server.had_contact _ _ (Keeps-pure J false) looks)
        (λ outdated. Keeps-if J outdated _ _ raises (Keeps-pure J tt))))

  -- A loop keeps what its parts keep.
  pub serve-keeps : (fuel : ℕ) → Keeps J (serve env fuel this_host)
  unfolding serve diverge
  serve-keeps zero = λ w h. h
  serve-keeps (suc fuel) = Keeps-bind J _ _ ticks (λ goes_on.
      Keeps-if J goes_on _ _
        (Keeps-bind J _ _ serve_once-keeps (λ _.
          Keeps-bind J _ _ reads (λ w. Keeps-if J _ _ _ (serve-keeps fuel) (Keeps-pure J tt))))
        (Keeps-pure J tt))

module _ (env : Env) (K : Server → Trace → Type 0) (k : Kept env K) where
  take_request-Serving :
      Triple
        (Holding env K k)
        (take_request env)
        (λ o w. Holding env K k w × (newest_request w.trace ≡ o))
        (λ _. Holding env K k)
  unfolding take_request
  take_request-Serving w h = (k.events w.server _ w.trace tt h, refl)

  pub handle_request-keeps : Keeps (Holding env K k) (handle_request env)
  unfolding handle_request pure
  handle_request-keeps =
      Triple-bind (take_request env) _ (Holding env K k)
        (λ o w. Holding env K k w × (newest_request w.trace ≡ o)) (λ _. Holding env K k)
        (λ _. Holding env K k) take_request-Serving
        (λ o.
          Triple-option o _ _ (λ w. Holding env K k w × (newest_request w.trace ≡ o))
            (λ _. Holding env K k) (λ _. Holding env K k) (λ _ w h. h.0)
            (λ r e.
              Triple-except (perform env r.0 r.1) _
                (λ w. Holding env K k w × (newest_request w.trace ≡ o)) (λ _. Holding env K k)
                (λ _. Holding env K k) (λ _. Holding env K k)
                (λ w h. perform-keeps env K k r.0 r.1 w (h.0, cc)) (λ _ w h. h) (λ w h. h)))

  pub tick_server-keeps : Keeps (Holding env K k) (tick_server env)
  unfolding tick_server
  tick_server-keeps = Keeps-bind (Holding env K k) _ _ (any_keeps env K k get_state-Emits) (λ w.
      Keeps-bind (Holding env K k) _ _ (any_keeps env K k (any (tick-Quiet env _))) (λ x.
        Keeps-bind (Holding env K k) _ _
          (set_server-keeps env K k _ (λ s t h. k.starts s t x.0.first h))
          (λ _. Keeps-pure (Holding env K k) x.1)))
