-- ===== src/Config/Bind.antt =====
-- Chains of results.
use fc_qemu.Base.{◌≡◌, refl, Result, ok, err, stuck}
use fc_qemu.Config.{◌>>=◌}

pub bind_ok :
    {A B : Type 0} (m : Result A) (f : A → Result B) {b : B}
    → (m >>= f) ≡ ok b
    → (a : A) × ((m ≡ ok a) × (f a ≡ ok b))
bind_ok (ok a) f h = (a, (refl, h))
bind_ok (err e) f h = cc
bind_ok stuck f h = cc
