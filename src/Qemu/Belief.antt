-- ===== src/Qemu/Belief.antt =====
-- What the replies so far say of the VM: does its process run, and does its monitor answer?
use fc_qemu.Base.{◌≡◌, Bool, true, false, Option, none, some, returns, raises, [], ◌∷◌}
use fc_qemu.World.{Event, Trace}

pub record Belief : Type 0 where
  pub process : Option Bool
  pub monitor : Option Bool

abbrev pub unknown : Belief
unknown = record { process = none; monitor = none }

-- A new look at the process makes what was seen of the monitor old. A monitor that answers that
-- the VM does not run tells neither way. What was seen before the start of a VM, or before a request of
-- the other side of a migration, says nothing any more.
abbrev pub see : Event → Belief → Belief
see (Event.process_found true) k = unknown
see (Event.process_found false) k = record { process = some false; monitor = none }
see (Event.process_running b) k = record { process = some b; monitor = none }
see (Event.qmp_connected (returns _)) k = record k { monitor = some true }
see (Event.qmp_connected (raises _)) k = record k { monitor = some false }
see (Event.status_queried (returns true)) k = record k { monitor = some true }
see (Event.status_queried (returns false)) k = record k { monitor = none }
see (Event.status_queried (raises _)) k = record k { monitor = some false }
see (Event.qemu_started _) k = unknown
see (Event.request_taken _) k = unknown
see _ k = k

abbrev pub belief : Trace → Belief
belief [] = unknown
belief (e ∷ t) = see e (belief t)

-- By the newest look there is neither a process nor a monitor that answers.
abbrev pub SeenOff : Trace → Type 0
SeenOff t = belief t ≡ record { process = some false; monitor = some false }

-- By the newest look the process runs and the monitor says that the VM does.
abbrev pub SeenOn : Trace → Type 0
SeenOn t = belief t ≡ record { process = some true; monitor = some true }
