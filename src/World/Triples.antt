-- ===== src/World/Triples.antt =====
-- Pre- and postconditions of actions, and a rule for each way in which the code composes calls. A
-- call that raises `e` ends with `Q (some e)`, one that is out of fuel with `Q none`.
use fc_qemu.Base.{
  Bool, true, false, Option, none, some, ◌≡◌, refl, Exc, Result, ok, err, stuck, is_exception,
}
use fc_qemu.World.State.{
  World, Action, pure, raise, ◌>>=◌, try_except, try_exception, try_finally, when◌then◌else◌,
  option,
}

abbrev pub Fails : Type 1
Fails = Option Exc → World → Type 0

abbrev pub Ends : {A : Type 0} → (A → World → Type 0) → Fails → Result A × World → Type 0
Ends P Q (ok a, w) = P a w
Ends P Q (err e, w) = Q (some e) w
Ends P Q (stuck, w) = Q none w

abbrev pub Triple :
    {A : Type 0} → (World → Type 0) → Action A → (A → World → Type 0) → Fails → Type 0
Triple H m P Q = (w : World) → H w → Ends P Q (m w)

-- The action keeps `I`, however it ends.
abbrev pub Keeps : {A : Type 0} → (World → Type 0) → Action A → Type 0
Keeps I m = Triple I m (λ _. I) (λ _. I)

Ends-bind :
    {A B : Type 0} (f : A → Action B) (P : A → World → Type 0) (R : B → World → Type 0) (Q : Fails)
    (x : Result A × World)
    → Ends P Q x
    → ((a : A) → Triple (P a) (f a) R Q)
    → Ends R Q (((λ _. x) >>= f) x.1)
unfolding ◌>>=◌
Ends-bind f P R Q (ok a, w) h k = k a w h
Ends-bind f P R Q (err e, w) h k = h
Ends-bind f P R Q (stuck, w) h k = h

pub Triple-bind :
    {A B : Type 0} (m : Action A) (f : A → Action B) (H : World → Type 0) (P : A → World → Type 0)
    (R : B → World → Type 0) (Q : Fails)
    → Triple H m P Q
    → ((a : A) → Triple (P a) (f a) R Q)
    → Triple H (m >>= f) R Q
unfolding ◌>>=◌
Triple-bind m f H P R Q h k w hw = Ends-bind f P R Q (m w) (h w hw) k

Ends-weaken :
    {A : Type 0} (P R : A → World → Type 0) (Q S : Fails) (x : Result A × World)
    → Ends P Q x
    → ((a : A) (w : World) → P a w → R a w)
    → ((e : Option Exc) (w : World) → Q e w → S e w)
    → Ends R S x
Ends-weaken P R Q S (ok a, w) h p q = p a w h
Ends-weaken P R Q S (err e, w) h p q = q (some e) w h
Ends-weaken P R Q S (stuck, w) h p q = q none w h

pub Triple-weaken :
    {A : Type 0} (m : Action A) (H : World → Type 0) (P R : A → World → Type 0) (Q S : Fails)
    → Triple H m P Q
    → ((a : A) (w : World) → P a w → R a w)
    → ((e : Option Exc) (w : World) → Q e w → S e w)
    → Triple H m R S
Triple-weaken m H P R Q S h p q w hw = Ends-weaken P R Q S (m w) (h w hw) p q

Ends-except :
    {A : Type 0} (h : Exc → Action A) (P : A → World → Type 0) (M Q : Fails) (x : Result A × World)
    → Ends P M x
    → ((e : Exc) → Triple (M (some e)) (h e) P Q)
    → ((w : World) → M none w → Q none w)
    → Ends P Q (try_except (λ _. x) h x.1)
unfolding try_except
Ends-except h P M Q (ok a, w) p k m = p
Ends-except h P M Q (err e, w) p k m = k e w p
Ends-except h P M Q (stuck, w) p k m = m w p

pub Triple-except :
    {A : Type 0} (m : Action A) (h : Exc → Action A) (H : World → Type 0) (P : A → World → Type 0)
    (M Q : Fails)
    → Triple H m P M
    → ((e : Exc) → Triple (M (some e)) (h e) P Q)
    → ((w : World) → M none w → Q none w)
    → Triple H (try_except m h) P Q
unfolding try_except
Triple-except m h H P M Q hm hh mq w hw = Ends-except h P M Q (m w) (hm w hw) hh mq

pub Triple-if :
    {A : Type 0} (b : Bool) (m n : Action A) (H : World → Type 0) (P : A → World → Type 0)
    (Q : Fails)
    → (b ≡ true → Triple H m P Q)
    → (b ≡ false → Triple H n P Q)
    → Triple H (when b then m else n) P Q
unfolding when◌then◌else◌
Triple-if true m n H P Q x y = x refl
Triple-if false m n H P Q x y = y refl

pub Triple-exception :
    {A : Type 0} (m h : Action A) (H : World → Type 0) (P : A → World → Type 0) (M : World → Type 0)
    (Q : Fails)
    → Triple H m P (λ _. M)
    → Triple M h P Q
    → ((e : Option Exc) (w : World) → M w → Q e w)
    → Triple H (try_exception m h) P Q
unfolding raise
Triple-exception m h H P M Q hm hh mq =
    Triple-except m _ H P (λ _. M) Q hm
      (λ e. Triple-if (is_exception e) h (raise e) M P Q (λ _. hh) (λ _ w. mq (some e) w)) (mq none)

Ends-finally :
    {A : Type 0} (k : Action (Unit {0})) (P : A → World → Type 0) (R : A → World → Type 0)
    (M Q : World → Type 0) (x : Result A × World)
    → Ends P (λ _. M) x
    → ((a : A) → Triple (P a) k (λ _. R a) (λ _. Q))
    → Triple M k (λ _. Q) (λ _. Q)
    → ((w : World) → M w → Q w)
    → Ends R (λ _. Q) (try_finally (λ _. x) k x.1)
unfolding try_finally
Ends-finally k P R M Q (ok a, w) p kp km mq =
    Triple-bind k (λ _. pure a) (P a) (λ _. R a) R (λ _. Q) (kp a) (λ _ v r. r) w p
Ends-finally k P R M Q (err e, w) p kp km mq =
    Triple-bind k (λ _. raise e) M (λ _. Q) R (λ _. Q) km (λ _ v r. r) w p
Ends-finally k P R M Q (stuck, w) p kp km mq = mq w p

pub Triple-finally :
    {A : Type 0} (m : Action A) (k : Action (Unit {0})) (H : World → Type 0)
    (P R : A → World → Type 0) (M Q : World → Type 0)
    → Triple H m P (λ _. M)
    → ((a : A) → Triple (P a) k (λ _. R a) (λ _. Q))
    → Triple M k (λ _. Q) (λ _. Q)
    → ((w : World) → M w → Q w)
    → Triple H (try_finally m k) R (λ _. Q)
unfolding try_finally
Triple-finally m k H P R M Q hm kp km mq w hw = Ends-finally k P R M Q (m w) (hm w hw) kp km mq

pub Triple-option :
    {A B : Type 0} (o : Option A) (m : Action B) (f : A → Action B) (H : World → Type 0)
    (P : B → World → Type 0) (Q : Fails)
    → (o ≡ none → Triple H m P Q)
    → ((a : A) → o ≡ some a → Triple H (f a) P Q)
    → Triple H (option o m f) P Q
unfolding option
Triple-option none m f H P Q x y = x refl
Triple-option (some a) m f H P Q x y = y a refl

Ends-both :
    {A : Type 0} (P R : A → World → Type 0) (Q S : Fails) (x : Result A × World)
    → Ends P Q x
    → Ends R S x
    → Ends (λ a w. P a w × R a w) (λ e w. Q e w × S e w) x
Ends-both P R Q S (ok a, w) h k = (h, k)
Ends-both P R Q S (err e, w) h k = (h, k)
Ends-both P R Q S (stuck, w) h k = (h, k)

-- What holds by two proofs holds at once.
pub Triple-both :
    {A : Type 0} (m : Action A) (H I : World → Type 0) (P R : A → World → Type 0) (Q S : Fails)
    → Triple H m P Q
    → Triple I m R S
    → Triple (λ w. H w × I w) m (λ a w. P a w × R a w) (λ e w. Q e w × S e w)
Triple-both m H I P R Q S h k w (hw, iw) = Ends-both P R Q S (m w) (h w hw) (k w iw)

-- A fact about the last state is one about every way to end.
pub Ends-last :
    {A : Type 0} (I : World → Type 0) (x : Result A × World) → I x.1 → Ends (λ _. I) (λ _. I) x
Ends-last I (ok a, w) h = h
Ends-last I (err e, w) h = h
Ends-last I (stuck, w) h = h

pub last-Ends :
    {A : Type 0} (I : World → Type 0) (x : Result A × World) → Ends (λ _. I) (λ _. I) x → I x.1
last-Ends I (ok a, w) h = h
last-Ends I (err e, w) h = h
last-Ends I (stuck, w) h = h

module _ {A B : Type 0} (I : World → Type 0) where
  pub Keeps-bind :
      (m : Action A) (f : A → Action B) → Keeps I m → ((a : A) → Keeps I (f a)) → Keeps I (m >>= f)
  Keeps-bind m f h k = Triple-bind m f I (λ _. I) (λ _. I) (λ _. I) h k

module _ {A : Type 0} (I : World → Type 0) where
  pub Keeps-pure : (a : A) → Keeps I (pure a)
  unfolding pure
  Keeps-pure a w h = h

  pub Keeps-if :
      (b : Bool) (m n : Action A) → Keeps I m → Keeps I n → Keeps I (when b then m else n)
  Keeps-if b m n h k = Triple-if b m n I (λ _. I) (λ _. I) (λ _. h) (λ _. k)

  pub Keeps-except :
      (m : Action A) (h : Exc → Action A)
      → Keeps I m
      → ((e : Exc) → Keeps I (h e))
      → Keeps I (try_except m h)
  Keeps-except m h x y = Triple-except m h I (λ _. I) (λ _. I) (λ _. I) x y (λ w i. i)

  pub Keeps-exception : (m h : Action A) → Keeps I m → Keeps I h → Keeps I (try_exception m h)
  Keeps-exception m h x y = Triple-exception m h I (λ _. I) I (λ _. I) x y (λ e w i. i)
