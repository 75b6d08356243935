-- ===== src/Ceph/Specs/Idle.antt =====
-- Which calls write to an image. Most of the operations on the disks do not.
use fc_qemu.Base.{ℕ, zero, suc, ◌≡◌, refl, Bool, true, false, Option, none, some, List}
use fc_qemu.World.{
  Image, VolumeState, Call, Event, Env, Action, get_state, call, sleep, diverge, get_time,
  set_volume_state, set_volumes, open_image, set_opened, Emits, Emits-reply, Emits-silent,
  Emits-bind, Emits-pure, Emits-option, emits,
}
use fc_qemu.Timeout.{TimeOut, time_out, tick, next_round, while_ticking}
use fc_qemu.Volume.{rbdimage}

abbrev pub written_by : Call → Option Image
written_by (Call.filesystem_made v) = some v
written_by (Call.image_seeded v) = some v
written_by (Call.image_resized v n) = some v
written_by _ = none

-- The image that a call writes to.
abbrev pub writes : Event → Option Image
writes (Event.called c r) = written_by c
writes _ = none

abbrev pub Idle : Event → Type 0
Idle e = writes e ≡ none

-- A call that writes nothing and is none that concerns locks, processes, Consul or run files.
abbrev pub Still : Event → Type 0
Still (Event.image_opened v r) = Unit
Still (Event.called c r) = written_by c ≡ none
Still (Event.time_read n) = Unit
Still (Event.slept d) = Unit
Still _ = ⊥

pub Still→Idle : (e : Event) → Still e → Idle e
Still→Idle (Event.image_opened v r) h = refl
Still→Idle (Event.called c r) h = h
Still→Idle (Event.time_read n) h = refl
Still→Idle (Event.slept d) h = refl
Still→Idle _ h = elim h [ ]

pub get_state-Still : Emits Still get_state
unfolding get_state
get_state-Still = Emits-silent _ _ (λ w. refl) (λ w. refl)

pub sleep-Still : (d : ℕ) → Emits Still (sleep d)
unfolding sleep
sleep-Still d = Emits-reply _ _ (λ w. tt)

pub diverge-Still : {A : Type 0} → Emits {A = A} Still diverge
unfolding diverge
diverge-Still = record { keeps = λ T s w h. h; spares = λ s w h. h }

pub set_volume_state-Still :
    (v : Image) (f : VolumeState → VolumeState) → Emits Still (set_volume_state v f)
unfolding set_volume_state
set_volume_state-Still v f = Emits-silent _ _ (λ w. refl) (λ w. refl)

pub set_volumes-Still : (f : List Image → List Image) → Emits Still (set_volumes f)
unfolding set_volumes
set_volumes-Still f = Emits-silent _ _ (λ w. refl) (λ w. refl)

set_opened-Still : (v : Image) (b : Bool) → Emits Still (set_opened v b)
unfolding set_opened
set_opened-Still v b = Emits-silent _ _ (λ w. refl) (λ w. refl)

module _ (env : Env) where
  get_time-Still : Emits Still (get_time env)
  unfolding get_time
  get_time-Still = Emits-reply _ _ (λ w. tt)

  pub call-Still : (c : Call) → written_by c ≡ none → Emits Still (call env c)
  unfolding call
  call-Still c h = Emits-reply _ _ (λ w. h)

  pub open_image-Still : (v : Image) → Emits Still (open_image env v)
  unfolding open_image
  open_image-Still v = Emits-reply _ _ (λ w. tt)

  pub rbdimage-Still : (v : Image) → Emits Still (rbdimage env v)
  unfolding rbdimage
  rbdimage-Still v = search (emits, get_state-Still, open_image-Still, set_opened-Still) depth 9

  pub time_out-Still : (d i : ℕ) (r : Bool) → Emits Still (time_out env d i r)
  unfolding time_out
  time_out-Still d i r = search (emits, get_time-Still)

  tick-Still : (t : TimeOut) → Emits Still (tick env t)
  unfolding tick
  tick-Still t = search (emits, get_time-Still, sleep-Still)

  pub while_ticking-Still :
      {A : Type 0} (body : Action (Option A))
      → Emits Still body
      → (n : ℕ) (t : TimeOut) → Emits Still (while_ticking env n t body)
  unfolding while_ticking
  while_ticking-Still body q zero t = diverge-Still
  while_ticking-Still body q (suc n) t =
      Emits-bind (tick-Still t) (round (while_ticking-Still body q n))
    where
      round :
          ((t' : TimeOut) → Emits Still (while_ticking env n t' body))
          → (x : TimeOut × Bool)
          → Emits Still (next_round env body (λ t'. while_ticking env n t' body) x)
      round rest (t', true) =
          Emits-bind q (λ r. Emits-option r (rest t') (λ a. Emits-pure (some a)))
      round rest (t', false) = Emits-pure none
