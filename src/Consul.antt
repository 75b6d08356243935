-- ===== src/Consul.antt =====
-- Events of Consul: class ConsulEventHandler and `handle_consul_event` of agent.py. The events are
-- handled in the order in which the pool takes them. VMs and the names of snapshots are numbers.
pub mod Covered
use fc_qemu.Base.{
  ℕ, Bool, true, false, not, Option, none, some, List, [], ◌∷◌, ◌++◌, ◌==◌, if◌then◌else◌,
}
use fc_qemu.Util.Text.{Text, chars, same, split}
use fc_qemu.Config.Words.{text_le}
use fc_qemu.Staging.{Config, Store, stage_new_config}

-- A value after `unwrap_consul_armour`; what cannot be unwrapped, or lacks a key, is malformed.
pub data Value : Type 0 where
  configuration : (vm : ℕ) (is_virtual : Bool) (config : Config) → Value
  snapshot_wanted : (vm name : ℕ) → Value
  malformed : Value

pub record Event : Type 0 where
  pub key : Text
  pub value : Option Value

-- The files of each VM, and what was started: `ensure` on a VM, `snapshot` of a VM.
pub record Host : Type 0 where
  pub store : ℕ → Store
  pub ensured : List ℕ
  pub snapped : List (ℕ × ℕ)

abbrev pub set_store : ℕ → Store → (ℕ → Store) → ℕ → Store
set_store vm s stores v = if vm == v then s else stores v

-- How a handler ends; `handle` catches what it raises.
pub data End : Type 0 where
  handled raised : End

unfoldable pub node : Value → Host → End × Host
node (configuration vm true config) h =
    let (update, s) = stage_new_config config (h.store vm) in
    (
      handled,
      record {
        store = set_store vm s h.store;
        ensured = if update then vm ∷ h.ensured else h.ensured;
        snapped = h.snapped;
      },
    )
node (configuration vm false config) h = (handled, h)
node _ h = (raised, h)

abbrev pub is_first : Text → List Text → Bool
is_first w [] = false
is_first w (v ∷ vs) = same w v

-- `sorted` by the keys.
unfoldable pub insert_event : Event → List Event → List Event
insert_event e [] = e ∷ []
insert_event e (d ∷ ds) =
    let rest = insert_event e ds in if text_le e.key d.key then e ∷ d ∷ ds else d ∷ rest

unfoldable pub sorted : List Event → List Event
sorted [] = []
sorted (e ∷ es) = insert_event e (sorted es)

-- `loads` says whether the VM's configuration can be loaded, `runs` whether the VM runs here.
module _ (loads runs : ℕ → Bool) where
  unfoldable pub snapshot : Value → Host → End × Host
  snapshot (snapshot_wanted vm name) h =
      if loads vm
      then (handled, (if runs vm then record h { snapped = (vm, name) ∷ h.snapped } else h))
      else (handled, h)
  snapshot _ h = (raised, h)

  -- The handler that has the name of the key's first part.
  unfoldable pub dispatch : Text → Value → Host → End × Host
  dispatch key value h =
      if is_first (chars "node") (split b'/' key)
      then node value h
      else (if is_first (chars "snapshot") (split b'/' key) then snapshot value h else (raised, h))

  unfoldable pub handle : Event → Host → Host
  handle e h = elim e.value [ none ↦ h | some v ↦ (dispatch e.key v h).1 ]

  unfoldable pub handle_all : List Event → Host → Host
  handle_all [] h = h
  handle_all (e ∷ es) h = handle_all es (handle e h)

  unfoldable pub handle_consul_event : List Event → Host → Host
  handle_consul_event events h = handle_all (sorted events) h
