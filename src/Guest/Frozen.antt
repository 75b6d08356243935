-- ===== src/Guest/Frozen.antt =====
-- `freeze`: what it has heard when it returns.
use fc_qemu.Base.{
  double_negation, ◌≡◌, ◌⊎◌, inl, inr, assertion_error, true, false, not, Option, none, some, List,
  [], ◌∷◌, ◌++◌, arith, refl,
}
use fc_qemu.World.{
  GuestRequest, GuestResponse, frozen, World, Env, calls, Ends, Fails, Triple, Triple-bind,
  Triple-if, Triple-except, try_except, pure, when◌then◌else◌, Action, ◌>>=◌, raise, only_if,
}
use fc_qemu.Guest.{
  freeze, cmd, exchange, send, read, take, fire_and_forget, disconnect, is_frozen, is_client_error,
}
use fc_qemu.Guest.Order.{
  InStep, Ready, cmd_in_step, fire_in_step, checked_answer, read_off, InStepOr, cmd-InStep,
}

-- A guest that never answers a thaw by "frozen".
unfoldable pub Sane : Env → Type 0
Sane env = (rs : List GuestRequest) → env.guest (GuestRequest.thaw ∷ rs) ≡ some frozen → ⊥

-- The newest request asked for the state of the file systems, and they are frozen.
pub SaysFrozen : Env → World → Type 0
SaysFrozen env w =
    (rs : List GuestRequest) × ((w.connection.sent ≡ GuestRequest.freeze_status ∷ rs)
      × (env.guest (GuestRequest.freeze_status ∷ rs) ≡ some frozen))

-- All that is still to be read is an answer that does not say "frozen", or nothing.
record Asks (w : World) : Type 0 where
  connected : w.connection.connected ≡ true
  unread :
      (w.connection.pending ≡ [])
      ⊎ ((a : GuestResponse) × ((w.connection.pending ≡ a ∷ []) × (is_frozen a ≡ false)))

abbrev pub unheard : Fails
unheard e w = Unit

-- An answer "frozen" is the one to the newest request.
abbrev Heard : Env → GuestResponse → World → Type 0
Heard env a w = is_frozen a ≡ true → SaysFrozen env w

take-Heard :
    (env : Env) (answers : List GuestResponse) (w : World)
    → ((a : GuestResponse) (more : List GuestResponse)
        → answers ≡ a ∷ more
        → is_frozen a ≡ true
        → SaysFrozen env w)
    → Ends (Heard env) unheard (take env answers w)
unfolding take disconnect calls SaysFrozen
take-Heard env [] w h = tt
take-Heard env (a ∷ more) w h =
    checked_answer env (Heard env) unheard a (read_off w a more) (h a more refl) tt

frozen_first :
    (g : Option GuestResponse) (p : List GuestResponse)
    → (p ≡ []) ⊎ ((b : GuestResponse) × ((p ≡ b ∷ []) × (is_frozen b ≡ false)))
    → (a : GuestResponse) (more : List GuestResponse)
    → p ++ (elim g [ none ↦ [] | some b ↦ b ∷ [] ]) ≡ a ∷ more
    → is_frozen a ≡ true
    → g ≡ some frozen
frozen_first g p h a more e f = ground arith

exchange-Heard :
    (env : Env) (w : World)
    → Asks w
    → Ends (Heard env) unheard (exchange env GuestRequest.freeze_status w)
unfolding exchange send read calls SaysFrozen
exchange-Heard env w h =
    take-Heard env _ _
      (λ a more e f. (w.connection.sent, (refl, frozen_first _ _ h.unread a more e f)))

cmd-Heard : (env : Env) → Triple Asks (cmd env GuestRequest.freeze_status) (Heard env) unheard
cmd-Heard env w h =
    rw (cmd_in_step env GuestRequest.freeze_status w h.connected) (exchange-Heard env w h)

ask_status : Env → Action (Unit {0})
ask_status env = cmd env GuestRequest.freeze_status >>= λ status.
    only_if (not (is_frozen status)) (raise assertion_error)

ask-SaysFrozen : (env : Env) → Triple Asks (ask_status env) (λ _. SaysFrozen env) unheard
unfolding ask_status raise pure
ask-SaysFrozen env =
    Triple-bind _ _ Asks (Heard env) (λ _. SaysFrozen env) unheard (cmd-Heard env)
      (λ a.
        Triple-if (not (is_frozen a)) _ _ (Heard env a) (λ _. SaysFrozen env) unheard (λ _ w h. tt)
          (λ f w h. h (double_negation _ f)))

-- The request to freeze, and the thaw after an error.
first_part : Env → Action (Unit {0})
first_part env =
    try_except (cmd env GuestRequest.freeze >>= λ _. pure tt)
      (λ e. when is_client_error e then fire_and_forget env GuestRequest.thaw else raise e)

other_answer : (a : GuestResponse) → (a ≡ frozen → ⊥) → is_frozen a ≡ false
other_answer a h = ground arith

no_frozen :
    (g : Option GuestResponse) (p : List GuestResponse)
    → p ≡ []
    → (g ≡ some frozen → ⊥)
    → (p ++ (elim g [ none ↦ [] | some b ↦ b ∷ [] ]) ≡ [])
      ⊎ ((a : GuestResponse) × ((p ++ (elim g [ none ↦ [] | some b ↦ b ∷ [] ]) ≡ a ∷ [])
            × (is_frozen a ≡ false)))
no_frozen none p h f = inl (rw h refl)
no_frozen (some a) p h f = inr (a, (rw h refl, other_answer a (λ e. f (rw e refl))))

thaw-Asks :
    (env : Env)
    → Sane env
    → Triple InStep (fire_and_forget env GuestRequest.thaw) (λ _. Asks) unheard
unfolding send calls Sane
thaw-Asks env s w h =
    rw (fire_in_step env GuestRequest.thaw w h.connected)
      (record { connected = h.connected; unread = no_frozen _ _ h.read_all (s w.connection.sent) })

first_part-Asks : (env : Env) → Sane env → Triple Ready (first_part env) (λ _. Asks) unheard
unfolding first_part raise pure
first_part-Asks env s =
    Triple-except _ _ Ready (λ _. Asks) InStepOr unheard
      (Triple-bind _ _ Ready (λ _. InStep) (λ _. Asks) InStepOr (cmd-InStep env GuestRequest.freeze)
        (λ _ w h. record { connected = h.connected; unread = inl h.read_all }))
      (λ e.
        Triple-if (is_client_error e) _ _ (InStepOr (some e)) (λ _. Asks) unheard
          (λ t w h. thaw-Asks env s w (h t)) (λ f w h. tt))
      (λ w h. tt)

-- Where freeze returns, the guest has said that its file systems are frozen, in the answer to the
-- newest of the requests; where an open
-- connection has been read, with a guest that does not answer a thaw
-- by "frozen".
pub freeze-SaysFrozen :
    (env : Env) → Sane env → Triple Ready (freeze env) (λ _. SaysFrozen env) unheard
unfolding freeze ask_status first_part
freeze-SaysFrozen env s =
    Triple-bind (first_part env) (λ _. ask_status env) Ready (λ _. Asks) (λ _. SaysFrozen env)
      unheard (first_part-Asks env s) (λ _. ask-SaysFrozen env)
