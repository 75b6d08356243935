-- ===== src/Config/Template.antt =====
-- `str.format` with keyword arguments, as the templates of the arguments and the configuration of Qemu
-- use it: fields without a conversion and without a format. A field is looked up whole, with its
-- attributes and keys.
pub mod Escaped
use fc_qemu.Base.{
  ℕ, Bool, true, false, Option, none, some, List, [], ◌∷◌, ◌++◌, Result, ok, err, stuck, Exc,
  value_error, key_error, index_error, is_empty, ◌==◌, if◌then◌else◌,
}
use fc_qemu.Util.Text.{Text}
use fc_qemu.Util.Parse.{Dict, get}

-- Where the reader is: in the text, after a brace, or in the name of a field.
pub data Mode : Type 0 where
  in_text opened closed : Mode
  in_field : Text → Mode

infix 5 ◌ahead◌
abbrev pub ◌ahead◌ : Text → Result Text → Result Text
s ahead ok t = ok (s ++ t)
s ahead err e = err e
s ahead stuck = stuck

abbrev pub field_value : Option Text → Result Text → Result Text
field_value none rest = err key_error
field_value (some v) rest = v ahead rest

unfoldable pub render : Dict Text → Mode → Text → Result Text
render d in_text [] = ok []
render d in_text (c ∷ s) = elim (c == b'{') [
  | true ↦ render d opened s
  | false ↦ elim (c == b'}') [
    | true ↦ render d closed s
    | false ↦ (c ∷ []) ahead render d in_text s
  ]
]
render d opened [] = err value_error
render d opened (c ∷ s) = elim (c == b'{') [
  | true ↦ (b'{' ∷ []) ahead render d in_text s
  | false ↦ elim (c == b'}') [ true ↦ err index_error | false ↦ render d (in_field (c ∷ [])) s ]
]
render d closed [] = err value_error
render d closed (c ∷ s) = elim (c == b'}') [
  | true ↦ (b'}' ∷ []) ahead render d in_text s
  | false ↦ err value_error
]
render d (in_field name) [] = err value_error
render d (in_field name) (c ∷ s) = elim (c == b'}') [
  | true ↦ field_value (get name d) (render d in_text s)
  | false ↦ elim (c == b'{') [
    | true ↦ err value_error
    | false ↦ render d (in_field (name ++ c ∷ [])) s
  ]
]

unfoldable pub format : Text → Dict Text → Result Text
format template d = render d in_text template
