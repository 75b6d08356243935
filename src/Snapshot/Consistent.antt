-- ===== src/Snapshot/Consistent.antt =====
-- When `snapshot` takes a snapshot.
use fc_qemu.Base.{
  double_negation, result, ◌≡◌, ℕ, Bool, true, false, refl, List, [], ◌∷◌, not, any, Result, ok,
  err, stuck, runtime_error, invalid_command, ◌==◌,
}
use fc_qemu.World.{
  Image, Call, GuestRequest, GuestResponse, Event, Trace, World, Env, Action, pure, raise, ◌>>=◌,
  ◌>>◌, only_if, call, calls, get_state, reply-Ends, Ends, Fails, Triple, Keeps, Triple-bind,
  Triple-if, Triple-both, Triple-weaken, Triple-finally, Triple-exception, Keeps-bind, Keeps-if,
  Keeps-pure, Stable, On, Emits, emits, Emits-raise, Emits-pure, Emits-if, Emits-reply,
  Emits-silent, Emits-option, open_image, set_opened,
}
use fc_qemu.Qemu.Looks.{get_state-Emits}
use fc_qemu.Guest.{take, read, send, exchange, connect, cmd, freeze, disconnect, is_frozen}
use fc_qemu.Guest.Order.{checked_answer, read_off}
use fc_qemu.Volume.{rbdimage}
use fc_qemu.Volume.Size.{create_snapshot}
use fc_qemu.Ceph.Pools.{root, volume, the_volume}
use fc_qemu.Agent.{running}
use fc_qemu.Agent.Around.{LockFile, locked_keeps}
use fc_qemu.Snapshot.{ensure_thawed, try_freeze, frozen_vm, create_frozen, create_new, snapshot}
use fc_qemu.Snapshot.Calls.{
  takes, Plain, is_running-Plain, freeze-Plain, ensure_thawed-Plain, snapshots-Plain,
}

-- The newest call but for those that open an image was an answer of the guest: "frozen".
abbrev pub SaidFrozen : Trace → Type 0
SaidFrozen (Event.guest_heard a ∷ t) = is_frozen a ≡ true
SaidFrozen (Event.image_opened v r ∷ t) = SaidFrozen t
SaidFrozen _ = ⊥

-- Each snapshot was taken after such an answer.
unfoldable pub TakesFrozen : Trace → Type 0
TakesFrozen [] = Unit
TakesFrozen (e ∷ t) = (takes e ≡ true → SaidFrozen t) × TakesFrozen t

Plain-Stable : Stable Plain TakesFrozen
unfolding TakesFrozen
Plain-Stable e t p h = ((λ g. cc), h)

LockFile-Stable : Stable LockFile TakesFrozen
unfolding TakesFrozen
LockFile-Stable (Event.flock_asked b r) t q h = ((λ g. cc), h)
LockFile-Stable Event.flock_released t q h = ((λ g. cc), h)
LockFile-Stable _ t q h = elim q [ ]

abbrev I : World → Type 0
I = On TakesFrozen

keeps : {A : Type 0} {m : Action A} → Emits Plain m → Keeps I m
keeps e = e.keeps TakesFrozen Plain-Stable

abbrev Anything : World → Type 0
Anything w = Unit

abbrev anyhow : Fails
anyhow e w = Unit

Ends-anything : {A : Type 0} (x : Result A × World) → Ends (λ _. Anything) anyhow x
Ends-anything (ok a, w) = tt
Ends-anything (err e, w) = tt
Ends-anything (stuck, w) = tt

anything : {A : Type 0} (m : Action A) → Triple Anything m (λ _. Anything) anyhow
anything m w h = Ends-anything (m w)

-- What a command returns was the newest thing that was heard.
abbrev Told : GuestResponse → World → Type 0
Told a w = is_frozen a ≡ true → SaidFrozen w.trace

take-Told :
    (env : Env) (answers : List GuestResponse) → Triple Anything (take env answers) Told anyhow
unfolding take calls disconnect
take-Told env [] w h = tt
take-Told env (a ∷ more) w h = checked_answer env Told anyhow a (read_off w a more) (λ f. f) tt

module _ (env : Env) where
  cmd-Told : (r : GuestRequest) → Triple Anything (cmd env r) Told anyhow
  unfolding cmd exchange read get_state take ◌>>=◌
  cmd-Told r =
      Triple-bind (connect env) _ Anything (λ _. Anything) Told anyhow (anything (connect env))
        (λ _.
          Triple-bind (send env r) _ Anything (λ _. Anything) Told anyhow (anything (send env r))
            (λ _ w h. take-Told env w.connection.pending w tt))

  freeze-SaidFrozen : Triple Anything (freeze env) (λ _. On SaidFrozen) anyhow
  unfolding freeze raise pure
  freeze-SaidFrozen =
      Triple-bind _ _ Anything (λ _. Anything) (λ _. On SaidFrozen) anyhow (anything _)
        (λ _.
          Triple-bind _ _ Anything Told (λ _. On SaidFrozen) anyhow
            (cmd-Told GuestRequest.freeze_status)
            (λ a.
              Triple-if (not (is_frozen a)) _ _ (Told a) (λ _. On SaidFrozen) anyhow (λ _ w h. tt)
                (λ f w h. h (double_negation _ f))))

  -- Whether the file systems are frozen, as `frozen_vm` has it.
  abbrev Tried : Bool → World → Type 0
  Tried frozen w = (frozen ≡ true → SaidFrozen w.trace) × I w

  freeze-Tried : Triple I (freeze env >> pure true) Tried (λ _. I)
  unfolding pure
  freeze-Tried =
      Triple-bind (freeze env) _ I (λ _ w. SaidFrozen w.trace × I w) Tried (λ _. I) both
        (λ _ w h. ((λ _. h.0), h.1))
    where
      both : Triple I (freeze env) (λ _ w. SaidFrozen w.trace × I w) (λ _. I)
      both w h =
          Triple-weaken (freeze env) (λ u. Anything u × I u) (λ _ u. SaidFrozen u.trace × I u)
            (λ _ u. SaidFrozen u.trace × I u) (λ e u. Unit × I u) (λ _. I)
            (Triple-both (freeze env) Anything I (λ _. On SaidFrozen) (λ _. I) anyhow (λ _. I)
              freeze-SaidFrozen (keeps (freeze-Plain env)))
            (λ _ u k. k) (λ e u k. k.1) w (tt, h)

  without : Triple I (pure false) Tried (λ _. I)
  unfolding pure
  without w h = ((λ g. cc), h)

  try_freeze-Tried : Triple I (try_freeze env) Tried (λ _. I)
  unfolding try_freeze
  try_freeze-Tried =
      Triple-bind _ _ I (λ _. I) Tried (λ _. I)
        (Triple-exception _ _ I (λ _. I) I (λ _. I) (keeps (is_running-Plain env))
          (keeps (Emits-raise runtime_error)) (λ e w h. h))
        (λ runs.
          Triple-if runs _ _ I Tried (λ _. I)
            (λ _. Triple-exception _ _ I Tried I (λ _. I) freeze-Tried without (λ e w h. h))
            (λ _. without))

  frozen_vm-Keeps :
      {A : Type 0} (body : Bool → Action A)
      → ((frozen : Bool) → Triple (Tried frozen) (body frozen) (λ _. I) (λ _. I))
      → Keeps I (frozen_vm env body)
  unfolding frozen_vm
  frozen_vm-Keeps body h =
      Triple-bind (try_freeze env) _ I Tried (λ _. I) (λ _. I) try_freeze-Tried
        (λ frozen.
          Triple-finally (body frozen) _ (Tried frozen) (λ _. I) (λ _. I) I I (h frozen)
            (λ _. thaws frozen) (thaws frozen) (λ w k. k))
    where
      thaws : (frozen : Bool) → Keeps I (only_if frozen (ensure_thawed env))
      thaws frozen = keeps (Emits-if frozen (ensure_thawed-Plain env) (Emits-pure tt))

  -- What opening an image does to the calls.
  abbrev Opens : Event → Type 0
  Opens (Event.image_opened v r) = Unit
  Opens _ = ⊥

  abbrev Frozen : Trace → Type 0
  Frozen t = SaidFrozen t × TakesFrozen t

  Opens-Stable : Stable Opens Frozen
  unfolding TakesFrozen
  Opens-Stable (Event.image_opened v r) t p h = (h.0, ((λ g. cc), h.1))
  Opens-Stable _ t p h = elim p [ ]

  open_image-Opens : (v : Image) → Emits Opens (open_image env v)
  unfolding open_image
  open_image-Opens v = Emits-reply _ _ (λ w. tt)

  set_opened-Opens : (v : Image) (b : Bool) → Emits Opens (set_opened v b)
  unfolding set_opened
  set_opened-Opens v b = Emits-silent _ _ (λ w. refl) (λ w. refl)

  rbdimage-Opens : (v : Image) → Emits Opens (rbdimage env v)
  unfolding rbdimage
  rbdimage-Opens v = search (emits, get_state-Emits, open_image-Opens, set_opened-Opens) depth 9

  the_volume-Emits : {E : Event → Type 0} → Emits E (the_volume env root)
  unfolding the_volume volume
  the_volume-Emits = search (emits, get_state-Emits, Emits-option) depth 9

  call-Keeps :
      (v : Image) (name : ℕ)
      → Triple (On Frozen) (call env (Call.snapshot_created v name)) (λ _. I) (λ _. I)
  unfolding call TakesFrozen
  call-Keeps v name w h =
      let c = Call.snapshot_created v name in
      let r = env.call w.trace c in
      reply-Ends I (result r) (record w { trace = Event.called c r ∷ w.trace }) ((λ g. h.0), h.1)

  create_snapshot-Keeps :
      (v : Image) (name : ℕ) → Triple (On Frozen) (create_snapshot env v name) (λ _. I) (λ _. I)
  unfolding create_snapshot
  create_snapshot-Keeps v name =
      Triple-bind (rbdimage env v) _ (On Frozen) (λ _. On Frozen) (λ _. I) (λ _. I)
        (Triple-weaken (rbdimage env v) (On Frozen) (λ _. On Frozen) (λ _. On Frozen)
          (λ _. On Frozen) (λ _. I) ((rbdimage-Opens v).keeps Frozen Opens-Stable) (λ _ w h. h)
          (λ e w h. h.1))
        (λ _.
          Triple-bind (call env (Call.snapshot_created v name)) _ (On Frozen) (λ _. I) (λ _. I)
            (λ _. I) (call-Keeps v name) (λ _. Keeps-pure I tt))

  create_frozen-Keeps :
      (name : ℕ) (frozen : Bool)
      → Triple (Tried frozen) (create_frozen env name frozen) (λ _. I) (λ _. I)
  unfolding create_frozen
  create_frozen-Keeps name frozen =
      Triple-if frozen _ _ (Tried frozen) (λ _. I) (λ _. I)
        (λ f w h.
          Triple-bind (the_volume env root) _ (On Frozen) (λ _. On Frozen) (λ _. I) (λ _. I)
            (Triple-weaken (the_volume env root) (On Frozen) (λ _. On Frozen) (λ _. On Frozen)
              (λ _. On Frozen) (λ _. I) (the_volume-Emits.keeps Frozen Opens-Stable) (λ _ u k. k)
              (λ e u k. k.1))
            (λ v. create_snapshot-Keeps v name) w (h.0 f, h.1))
        (λ _ w h. keeps (Emits-raise runtime_error) w h.1)

  module _ (dated : ℕ → ℕ → ℕ) where
    create_new-Keeps : (name : ℕ) → Keeps I (create_new env dated name)
    unfolding create_new
    create_new-Keeps name = Keeps-bind I _ _ (keeps the_volume-Emits) (λ v.
        Keeps-bind I _ _ (keeps (snapshots-Plain env v)) (λ names.
          Keeps-if I (any (λ n. n == name) names) _ _ (Keeps-pure I tt)
            (frozen_vm-Keeps (create_frozen env name) (create_frozen-Keeps name))))

    -- `snapshot` takes a snapshot only when the newest thing that it heard, with nothing asked or done
    -- since then but opening the image, was the answer "frozen" of the guest.
    pub snapshot-TakesFrozen : (name keep : ℕ) → Keeps I (snapshot env dated name keep)
    unfolding snapshot running
    snapshot-TakesFrozen name keep = locked_keeps env TakesFrozen LockFile-Stable true _ (
        Keeps-bind I _ _ (keeps (is_running-Plain env))
          (λ runs. Keeps-if I _ _ _ (create_new-Keeps _) (keeps (Emits-raise invalid_command))))
