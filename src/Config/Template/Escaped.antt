-- ===== src/Config/Template/Escaped.antt =====
-- Templates without braces.
use mathlib.Core.List.{append_assoc}
use fc_qemu.Base.{
  ℕ, ◌≡◌, refl, sym, Bool, false, [], ◌∷◌, ◌++◌, Result, ok, err, stuck, any, ◌||◌, ◌==◌, arith,
}
use fc_qemu.Util.Text.{Text}
use fc_qemu.Util.Parse.{Dict}
use fc_qemu.Config.Template.{render, in_text, ◌ahead◌}

-- Texts without braces.
abbrev pub is_brace : ℕ → Bool
is_brace c = c == b'{' || c == b'}'

abbrev pub Braceless : Text → Type 0
Braceless s = any is_brace s ≡ false

ahead-ahead : (s t : Text) (r : Result Text) → (s ahead (t ahead r)) ≡ ((s ++ t) ahead r)
ahead-ahead s t (ok u) = rw append_assoc
ahead-ahead s t (err e) = refl
ahead-ahead s t stuck = refl

ahead-nil : (r : Result Text) → ([] ahead r) ≡ r
ahead-nil (ok u) = refl
ahead-nil (err e) = refl
ahead-nil stuck = refl

-- A text without braces stays as it is, whatever comes behind it.
pub render-Braceless :
    (d : Dict Text) (s rest : Text)
    → Braceless s
    → render d in_text (s ++ rest) ≡ (s ahead render d in_text rest)
unfolding render
render-Braceless d [] rest h = sym (ahead-nil (render d in_text rest))
render-Braceless d (c ∷ s) rest h =
    ground (arith, render-Braceless d s rest, ahead-ahead (c ∷ []) s (render d in_text rest))
