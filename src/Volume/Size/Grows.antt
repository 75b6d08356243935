-- ===== src/Volume/Size/Grows.antt =====
-- Resizing a volume.
use fc_qemu.Base.{ℕ, ◌≡◌, true, ltb, [], ◌∷◌, arith}
use fc_qemu.World.{Image, Call, Event, Trace, Env, calls, Keeps, On}
use fc_qemu.Volume.{rbdimage}
use fc_qemu.Volume.Size.{size, ensure_size}

-- Each resize of an image is to more than the size that it had just then.
unfoldable pub Grows : Env → Trace → Type 0
Grows env [] = Unit
Grows env (Event.called (Call.image_resized v n) r ∷ t) =
    (ltb (env.image_size t v) n ≡ true) × Grows env t
Grows env (_ ∷ t) = Grows env t

-- `ensure_size` never makes an image smaller.
pub ensure_size-Grows :
    (env : Env) (v : Image) (n : ℕ) → Keeps (On (Grows env)) (ensure_size env v n)
unfolding ensure_size size rbdimage Grows calls
ensure_size-Grows env v n w h = ground arith
