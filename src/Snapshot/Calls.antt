-- ===== src/Snapshot/Calls.antt =====
-- Which calls the conversation with the guest, the images and the looks at the VM make: none of them
-- takes a snapshot.
use fc_qemu.Base.{◌≡◌, ℕ, Bool, true, false, refl, List, [], ◌∷◌}
use fc_qemu.World.{
  Image, Call, Connection, GuestRequest, GuestResponse, failure, frozen, thawed, empty_return,
  number, execution, Event, Env, note, set_connection, random, open_image, set_opened, list_snaps,
  call, Emits, Emits-reply, Emits-silent, emits, Emits-mono,
}
use fc_qemu.Qemu.{is_running}
use fc_qemu.Qemu.Looks.{Look, get_state-Emits, is_running-Look}
use fc_qemu.Guest.{
  send, disconnect, checked, take, read, exchange, sync, connect, cmd, fire_and_forget, freeze,
  thaw,
}
use fc_qemu.Volume.{rbdimage}
use fc_qemu.Volume.Size.{snapshots}
use fc_qemu.Snapshot.{ensure_thawed}

abbrev pub takes : Event → Bool
takes (Event.called (Call.snapshot_created v n) r) = true
takes _ = false

abbrev pub Plain : Event → Type 0
Plain e = takes e ≡ false

Look→Plain : (e : Event) → Look e → Plain e
Look→Plain (Event.time_read n) h = refl
Look→Plain (Event.slept d) h = refl
Look→Plain (Event.process_found b) h = refl
Look→Plain (Event.process_running b) h = refl
Look→Plain (Event.qmp_connected r) h = refl
Look→Plain (Event.status_queried r) h = refl
Look→Plain _ h = elim h [ ]

note-Plain : (e : Event) → Plain e → Emits Plain (note e)
unfolding note
note-Plain e p = record { keeps = λ T s w h. s e w.trace p h; spares = λ s w h. h }

asked-Plain : (r : GuestRequest) → Emits Plain (note (Event.guest_asked r))
asked-Plain r = note-Plain (Event.guest_asked r) refl

heard-Plain : (a : GuestResponse) → Emits Plain (note (Event.guest_heard a))
heard-Plain a = note-Plain (Event.guest_heard a) refl

set_connection-Plain : (f : Connection → Connection) → Emits Plain (set_connection f)
unfolding set_connection
set_connection-Plain f = Emits-silent _ _ (λ w. refl) (λ w. refl)

set_opened-Plain : (v : Image) (b : Bool) → Emits Plain (set_opened v b)
unfolding set_opened
set_opened-Plain v b = Emits-silent _ _ (λ w. refl) (λ w. refl)

module _ (env : Env) where
  pub is_running-Plain : Emits Plain (is_running env)
  is_running-Plain = Emits-mono Look→Plain (is_running-Look env)

  random-Plain : (n : ℕ) → Emits Plain (random env n)
  unfolding random
  random-Plain n = Emits-silent _ (λ w. w) (λ w. refl) (λ w. refl)

  send-Plain : (r : GuestRequest) → Emits Plain (send env r)
  unfolding send
  send-Plain r = search (emits, set_connection-Plain, asked-Plain)

  disconnect-Plain : Emits Plain (disconnect env)
  unfolding disconnect
  disconnect-Plain = set_connection-Plain _

  checked-Plain : (a : GuestResponse) → Emits Plain (checked env a)
  unfolding checked
  checked-Plain failure = search emits
  checked-Plain frozen = search emits
  checked-Plain thawed = search emits
  checked-Plain empty_return = search emits
  checked-Plain (number n) = search emits
  checked-Plain (execution a b c) = search emits

  take-Plain : (answers : List GuestResponse) → Emits Plain (take env answers)
  unfolding take
  take-Plain [] = search (emits, disconnect-Plain)
  take-Plain (a ∷ more) = search (emits, set_connection-Plain, heard-Plain, checked-Plain) depth 9

  exchange-Plain : (r : GuestRequest) → Emits Plain (exchange env r)
  unfolding exchange read
  exchange-Plain r = search (emits, send-Plain, get_state-Emits, take-Plain) depth 9

  sync-Plain : Emits Plain (sync env)
  unfolding sync
  sync-Plain =
      search (emits, send-Plain, set_connection-Plain, random-Plain, exchange-Plain) depth 12

  connect-Plain : Emits Plain (connect env)
  unfolding connect
  connect-Plain =
      search (emits, get_state-Emits, disconnect-Plain, set_connection-Plain, sync-Plain) depth 12

  cmd-Plain : (r : GuestRequest) → Emits Plain (cmd env r)
  unfolding cmd
  cmd-Plain r = search (emits, connect-Plain, exchange-Plain)

  pub freeze-Plain : Emits Plain (freeze env)
  unfolding freeze fire_and_forget
  freeze-Plain = search (emits, cmd-Plain, connect-Plain, send-Plain) depth 12

  pub ensure_thawed-Plain : Emits Plain (ensure_thawed env)
  unfolding ensure_thawed thaw
  ensure_thawed-Plain = search (emits, cmd-Plain, disconnect-Plain, connect-Plain) depth 14

  -- Images that are opened.
  rbdimage-Plain : (v : Image) → Emits Plain (rbdimage env v)
  unfolding rbdimage open_image
  rbdimage-Plain v = search (emits, get_state-Emits, set_opened-Plain, Emits-reply) depth 9

  pub snapshots-Plain : (v : Image) → Emits Plain (snapshots env v)
  unfolding snapshots list_snaps call
  snapshots-Plain v = search (emits, rbdimage-Plain, Emits-reply, Emits-silent) depth 12
