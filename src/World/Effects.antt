-- ===== src/World/Effects.antt =====
-- Which calls an action makes. `Emits E m` says that every event of a run of `m` satisfies `E`, by
-- what follows from it: `m` keeps each property of the trace that such events keep. It also says that
-- `m` leaves the attributes of the server of an incoming migration alone.
use fc_qemu.Base.{Bool, Option, none, some, ◌≡◌, refl, ◌∷◌, Exc, Result, ok, err, stuck}
use fc_qemu.World.State.{
  Event, Trace, Server, World, Action, pure, raise, reply, ◌>>=◌, try_except, try_finally,
  when◌then◌else◌, option,
}
use fc_qemu.World.Triples.{
  Ends, Keeps, Triple-bind, Triple-except, Triple-if, Triple-finally, Triple-both, Triple-weaken,
}

-- Events that satisfy `E` keep `T`.
abbrev pub Stable : (Event → Type 0) → (Trace → Type 0) → Type 0
Stable E T = (e : Event) (t : Trace) → E e → T t → T (e ∷ t)

abbrev pub On : (Trace → Type 0) → World → Type 0
On T w = T w.trace

abbrev pub ServedBy : Server → World → Type 0
ServedBy s w = w.server ≡ s

pub record Emits {A : Type 0} (E : Event → Type 0) (m : Action A) : Type 1 where
  pub keeps : (T : Trace → Type 0) → Stable E T → Keeps (On T) m
  pub spares : (s : Server) → Keeps (ServedBy s) m

-- The end of a call of which the reply is `r`.
pub reply-Ends :
    {A : Type 0} (I : World → Type 0) (r : Result A) (w : World)
    → I w
    → Ends (λ _. I) (λ _. I) (r, w)
reply-Ends I (ok a) w h = h
reply-Ends I (err e) w h = h
reply-Ends I stuck w h = h

-- A call that is put on record as `e`.
pub Emits-reply :
    {A : Type 0} {E : Event → Type 0} (r : World → Result A) (e : World → Event)
    → ((w : World) → E (e w))
    → Emits E (λ w. reply (r w) (e w) w)
Emits-reply r e h = record {
  keeps = λ T s w i. reply-Ends (On T) (r w) _ (s (e w) w.trace (h w) i);
  spares = λ s w i. reply-Ends (ServedBy s) (r w) _ i;
}

-- What the process does with its own attributes is no call.
pub Emits-silent :
    {A : Type 0} {E : Event → Type 0} (a : World → A) (f : World → World)
    → ((w : World) → (f w).trace ≡ w.trace)
    → ((w : World) → (f w).server ≡ w.server)
    → Emits E (λ w. (ok (a w), f w))
Emits-silent a f h k = record { keeps = λ T s w i. rw (h w) i; spares = λ s w i. rw (k w) i }

module _ {A : Type 0} {E : Event → Type 0} where
  pub Emits-pure : (a : A) → Emits E (pure a)
  unfolding pure
  Emits-pure a = record { keeps = λ T s w h. h; spares = λ s w h. h }

  pub Emits-raise : (e : Exc) → Emits {A = A} E (raise e)
  unfolding raise
  Emits-raise e = record { keeps = λ T s w h. h; spares = λ s w h. h }

  pub Emits-if :
      (b : Bool) {m n : Action A} → Emits E m → Emits E n → Emits E (when b then m else n)
  Emits-if b {m} {n} x y = record {
    keeps =
        λ T s. Triple-if b m n (On T) (λ _. On T) (λ _. On T) (λ _. x.keeps T s) (λ _. y.keeps T s);
    spares = λ s.
        Triple-if b m n (ServedBy s) (λ _. ServedBy s) (λ _. ServedBy s) (λ _. x.spares s)
          (λ _. y.spares s);
  }

  pub Emits-except :
      {m : Action A} {h : Exc → Action A}
      → Emits E m
      → ((e : Exc) → Emits E (h e))
      → Emits E (try_except m h)
  Emits-except {m} {h} x y = record {
    keeps = λ T s.
        Triple-except m h (On T) (λ _. On T) (λ _. On T) (λ _. On T) (x.keeps T s)
          (λ e. (y e).keeps T s) (λ w i. i);
    spares = λ s.
        Triple-except m h (ServedBy s) (λ _. ServedBy s) (λ _. ServedBy s) (λ _. ServedBy s)
          (x.spares s) (λ e. (y e).spares s) (λ w i. i);
  }

  pub Emits-finally :
      {m : Action A} {k : Action (Unit {0})} → Emits E m → Emits E k → Emits E (try_finally m k)
  Emits-finally {m} {k} x y = record {
    keeps = λ T s.
        Triple-finally m k (On T) (λ _. On T) (λ _. On T) (On T) (On T) (x.keeps T s)
          (λ _. y.keeps T s) (y.keeps T s) (λ w i. i);
    spares = λ s.
        Triple-finally m k (ServedBy s) (λ _. ServedBy s) (λ _. ServedBy s) (ServedBy s)
          (ServedBy s) (x.spares s) (λ _. y.spares s) (y.spares s) (λ w i. i);
  }

  pub Emits-mono :
      {E' : Event → Type 0} {m : Action A} → ((e : Event) → E' e → E e) → Emits E' m → Emits E m
  Emits-mono le x = record { keeps = λ T s. x.keeps T (λ e t h. s e t (le e h)); spares = x.spares }

pub Emits-bind :
    {A B : Type 0} {E : Event → Type 0} {m : Action A} {f : A → Action B}
    → Emits E m
    → ((a : A) → Emits E (f a))
    → Emits E (m >>= f)
Emits-bind {m} {f} x y = record {
  keeps = λ T s.
      Triple-bind m f (On T) (λ _. On T) (λ _. On T) (λ _. On T) (x.keeps T s)
        (λ a. (y a).keeps T s);
  spares = λ s.
      Triple-bind m f (ServedBy s) (λ _. ServedBy s) (λ _. ServedBy s) (λ _. ServedBy s)
        (x.spares s) (λ a. (y a).spares s);
}

pub Emits-option :
    {A B : Type 0} {E : Event → Type 0} (o : Option A) {m : Action B} {f : A → Action B}
    → Emits E m
    → ((a : A) → Emits E (f a))
    → Emits E (option o m f)
unfolding option
Emits-option none x y = x
Emits-option (some a) x y = y a

pub ruleset emits =
    (Emits-pure, Emits-raise, Emits-if, Emits-except, Emits-finally, Emits-bind, Emits-option)

-- What such events keep, whatever the attributes of the server are, an action keeps together with
-- these.
pub Emits-serves :
    {A : Type 0} {E : Event → Type 0} {m : Action A} (K : Server → Trace → Type 0)
    → Emits E m
    → ((s : Server) → Stable E (K s))
    → Keeps (λ w. K w.server w.trace) m
Emits-serves {m} K x stable w h =
    Triple-weaken m (λ u. K w.server u.trace × ServedBy w.server u)
      (λ _ u. K w.server u.trace × ServedBy w.server u) (λ _ u. K u.server u.trace)
      (λ _ u. K w.server u.trace × ServedBy w.server u) (λ _ u. K u.server u.trace)
      (Triple-both m (On (K w.server)) (ServedBy w.server) (λ _. On (K w.server))
        (λ _. ServedBy w.server) (λ _. On (K w.server)) (λ _. ServedBy w.server)
        (x.keeps (K w.server) (stable w.server)) (x.spares w.server))
      (λ _ u k. rw k.1 k.0) (λ _ u k. rw k.1 k.0) w (h, refl)
