-- ===== src/Tests/Guests.antt =====
-- Examples for the agent in the guest and for snapshots.
use fc_qemu.Base.{refl, some, ◌∷◌, List, Option}
use fc_qemu.World.{GuestRequest, GuestResponse, frozen, number, Env, Ends, On}
use fc_qemu.Guest.{freeze}
use fc_qemu.Guest.Frozen.{Sane, SaysFrozen, unheard, freeze-SaysFrozen}
use fc_qemu.Guest.Order.{Ready}
use fc_qemu.Snapshot.{snapshot}
use fc_qemu.Snapshot.Consistent.{TakesFrozen, snapshot-TakesFrozen}
use fc_qemu.Tests.{busy, idle}

-- A guest that freezes.
abbrev answer : List GuestRequest → Option GuestResponse
answer (GuestRequest.freeze_status ∷ rs) = some frozen
answer (GuestRequest.synchronize id ∷ rs) = some (number id)
answer rs = some (number 1)

abbrev frosty : Env
frosty = record busy { guest = answer }

frosty-Sane : Sane frosty
unfolding Sane
frosty-Sane rs h = cc

freeze-SaysFrozen_example : Ends (λ _. SaysFrozen frosty) unheard (freeze frosty idle)
unfolding Ready
freeze-SaysFrozen_example = freeze-SaysFrozen frosty frosty-Sane idle (λ _. refl)

snapshot-TakesFrozen_example :
    Ends (λ _. On TakesFrozen) (λ _. On TakesFrozen) (snapshot frosty (λ n days. n) 7 0 idle)
unfolding TakesFrozen
snapshot-TakesFrozen_example = snapshot-TakesFrozen frosty (λ n days. n) 7 0 idle tt
