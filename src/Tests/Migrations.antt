-- ===== src/Tests/Migrations.antt =====
-- Examples for the cookie and the heartbeat of a migration.
use fc_qemu.Base.{◌≡◌, ◌↔◌, refl, true, none, some, List, [], ◌∷◌, map}
use fc_qemu.Util.Text.{chars}
use fc_qemu.Cookie.{Lock, Locked}
use fc_qemu.Cookie.Faithful.{IsForeign, hashed-Faithful}
use fc_qemu.Heartbeat.{ping_retry_attempts, run}
use fc_qemu.Heartbeat.Gives.{failures, HasStreak, run-HasStreak}

abbrev lock : Lock
lock = record { client = chars "client.4711"; id = chars "host1" }

abbrev root_locked : Locked
root_locked = record { name = chars "test00.root"; lock = some lock }

abbrev swap_free : Locked
swap_free = record { name = chars "test00.swap"; lock = none }

abbrev volumes : List Locked
volumes = root_locked ∷ swap_free ∷ []

lock-IsForeign : IsForeign (map (λ v. v.name) volumes) lock
lock-IsForeign = record { client = refl; id = refl; other = refl }

hashed-Faithful_example : map (λ v. v.lock) volumes ≡ map (λ v. v.lock) volumes
hashed-Faithful_example =
    hashed-Faithful volumes volumes refl ((refl, lock-IsForeign), ((refl, tt), tt))
      ((refl, lock-IsForeign), ((refl, tt), tt)) refl

run-HasStreak_example :
    (run (true ∷ failures 12) ≡ true) ↔ HasStreak ping_retry_attempts (true ∷ failures 12)
run-HasStreak_example = run-HasStreak (true ∷ failures 12)
