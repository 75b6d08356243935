-- ===== src/Guest/Order.antt =====
-- The order of requests and responses: when all responses have been read.
use fc_qemu.Base.{
  client_error, ◌≡◌, Bool, true, false, not, Option, none, some, List, [], ◌∷◌, ◌++◌, arith, refl,
}
use fc_qemu.World.{
  GuestRequest, GuestResponse, frozen, number, execution, failure, thawed, empty_return, World, Env,
  calls, Ends, Fails, Triple, Triple-bind, Event, get_state, random, set_connection, Triple-if,
  pure, ◌>>=◌, raise,
}
use fc_qemu.Guest.{
  cmd, connect, exchange, send, read, take, checked, fire_and_forget, disconnect, sync,
  is_client_error, has_id,
}

-- On an open connection of which all responses are read.
pub record InStep (w : World) : Type 0 where
  pub connected : w.connection.connected ≡ true
  pub read_all : w.connection.pending ≡ []

-- An open connection has been read.
unfoldable pub Ready : World → Type 0
Ready w = w.connection.connected ≡ true → w.connection.pending ≡ []

-- A command on a connection that is open.
pub cmd_in_step :
    (env : Env) (r : GuestRequest) (w : World)
    → w.connection.connected ≡ true
    → cmd env r w ≡ exchange env r w
unfolding cmd connect calls
cmd_in_step env r w c = ground (arith, c)

pub fire_in_step :
    (env : Env) (r : GuestRequest) (w : World)
    → w.connection.connected ≡ true
    → fire_and_forget env r w ≡ send env r w
unfolding fire_and_forget connect calls
fire_in_step env r w c = ground (arith, c)

-- An answer ends in itself or, where it is an error, in a ClientError.
pub checked_answer :
    (env : Env) (P : GuestResponse → World → Type 0) (Q : Fails) (a : GuestResponse) (w : World)
    → P a w
    → Q (some client_error) w
    → Ends P Q (checked env a w)
unfolding checked calls
checked_answer env P Q failure w p q = q
checked_answer env P Q frozen w p q = p
checked_answer env P Q thawed w p q = p
checked_answer env P Q empty_return w p q = p
checked_answer env P Q (number n) w p q = p
checked_answer env P Q (execution a b c) w p q = p

-- A response is read, and more are left.
abbrev pub read_off : World → GuestResponse → List GuestResponse → World
read_off w a more = record w {
  trace = Event.guest_heard a ∷ w.trace;
  connection = record w.connection { pending = more };
}

-- After an error all has been read; an open connection is still open.
abbrev pub InStepOr : Fails
InStepOr none w = Unit
InStepOr (some e) w = is_client_error e ≡ true → InStep w

take-InStep :
    (env : Env) (answers : List GuestResponse) (w : World)
    → w.connection.connected ≡ true
    → ((a : GuestResponse) (more : List GuestResponse) → answers ≡ a ∷ more → more ≡ [])
    → Ends (λ _. InStep) InStepOr (take env answers w)
unfolding take disconnect calls
take-InStep env [] w c h = λ e. ground arith
take-InStep env (a ∷ more) w c h =
    checked_answer env (λ _. InStep) InStepOr a (read_off w a more)
      (record { connected = c; read_all = h a more refl })
      (λ _. record { connected = c; read_all = h a more refl })

one_answer :
    (g : Option GuestResponse) (p : List GuestResponse)
    → p ≡ []
    → (a : GuestResponse) (more : List GuestResponse)
    → p ++ (elim g [ none ↦ [] | some b ↦ b ∷ [] ]) ≡ a ∷ more
    → more ≡ []
one_answer g p h a more e = ground arith

exchange-InStep :
    (env : Env) (r : GuestRequest) → Triple InStep (exchange env r) (λ _. InStep) InStepOr
unfolding exchange send read calls
exchange-InStep env r w h = take-InStep env _ _ h.connected (one_answer _ _ h.read_all)

-- A socket that is open.
abbrev IsOpen : World → Type 0
IsOpen w = w.connection.connected ≡ true

send-IsOpen : (env : Env) (r : GuestRequest) → Triple IsOpen (send env r) (λ _. IsOpen) InStepOr
unfolding send calls
send-IsOpen env r w h = h

clear-InStep :
    Triple IsOpen (set_connection (λ c. record c { pending = [] })) (λ _. InStep) InStepOr
unfolding calls
clear-InStep w h = record { connected = h; read_all = refl }

sync-InStep : (env : Env) → Triple IsOpen (sync env) (λ _. InStep) InStepOr
unfolding sync random pure raise
sync-InStep env =
    Triple-bind (send env GuestRequest.thaw) _ IsOpen (λ _. IsOpen) (λ _. InStep) InStepOr
      (send-IsOpen env GuestRequest.thaw)
      (λ _.
        Triple-bind _ _ IsOpen (λ _. InStep) (λ _. InStep) InStepOr clear-InStep
          (λ _.
            Triple-bind _ _ InStep (λ _. InStep) (λ _. InStep) InStepOr (λ w h. h)
              (λ id.
                Triple-bind (exchange env (GuestRequest.synchronize id)) _ InStep (λ _. InStep)
                  (λ _. InStep) InStepOr (exchange-InStep env (GuestRequest.synchronize id))
                  (λ a.
                    Triple-if (not (has_id id a)) _ _ InStep (λ _. InStep) InStepOr (λ _ w h _. h)
                      (λ _ w h. h)))))

read_if_open :
    (b : Bool) (u : World)
    → not b ≡ false
    → b ≡ u.connection.connected
    → Ready u
    → u.connection.connected ≡ true
read_if_open b u f e r = ground arith

connect-InStep : (env : Env) → Triple Ready (connect env) (λ _. InStep) InStepOr
unfolding connect get_state set_connection disconnect pure Ready ◌>>=◌
connect-InStep env w h =
    Triple-if (not w.connection.connected) _ _
      (λ u. (w.connection.connected ≡ u.connection.connected) × Ready u) (λ _. InStep) InStepOr
      (λ _ u e. sync-InStep env _ refl) (λ f u e. stays f u e.0 e.1) w (refl, h)
  where
    stays :
        not w.connection.connected ≡ false
        → (u : World) → w.connection.connected ≡ u.connection.connected
        → Ready u
        → InStep u
    stays f u e r = let c = read_if_open _ u f e r in record { connected = c; read_all = r c }

pub cmd-InStep : (env : Env) (r : GuestRequest) → Triple Ready (cmd env r) (λ _. InStep) InStepOr
unfolding cmd
cmd-InStep env r =
    Triple-bind (connect env) _ Ready (λ _. InStep) (λ _. InStep) InStepOr (connect-InStep env)
      (λ _. exchange-InStep env r)
