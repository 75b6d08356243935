-- ===== src/Config/Words.antt =====
-- Words and lists of texts: `split` and `join` of Python's `str`, and the order of texts.
pub mod Members
use fc_qemu.Base.{
  ℕ, Bool, true, false, ◌&&◌, ◌||◌, List, [], ◌∷◌, ◌++◌, is_empty, ltb, ◌==◌, if◌then◌else◌,
}
use fc_qemu.Util.Text.{Text}

-- What `shlex.split` takes as the end of a word, where there is no quote and no backslash.
abbrev pub is_blank : ℕ → Bool
is_blank c = c == 32 || c == 9 || c == 10 || c == 13

-- A word that is over, if there is one.
abbrev pub word : Text → List Text → List Text
word [] ws = ws
word (c ∷ w) ws = (c ∷ w) ∷ ws

-- `s.split()` for the ends of words `p`, after the characters `w`.
unfoldable pub words_from : (ℕ → Bool) → Text → Text → List Text
words_from p w [] = word w []
words_from p w (c ∷ s) = elim (p c) [
  | true ↦ word w (words_from p [] s)
  | false ↦ words_from p (w ++ c ∷ []) s
]

unfoldable pub words : (ℕ → Bool) → Text → List Text
words p s = words_from p [] s

-- `" ".join(ts)`
unfoldable pub join : List Text → Text
join [] = []
join (t ∷ []) = t
join (t ∷ u ∷ ts) = t ++ b' ' ∷ join (u ∷ ts)

unfoldable pub filter : (Text → Bool) → List Text → List Text
filter p [] = []
filter p (t ∷ ts) = let rest = filter p ts in if p t then t ∷ rest else rest

abbrev pub text_le : Text → Text → Bool
text_le [] t = true
text_le (c ∷ s) [] = false
text_le (c ∷ s) (d ∷ t) = ltb c d || (c == d && text_le s t)
