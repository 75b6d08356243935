-- ===== src/Util/Text.antt =====
-- The methods of Python's `str` that util.py calls, on lists of ASCII characters, and `int`.
use Prim.Native.Char.{code}
use Prim.Native.String.{String}
use mathlib.Core.Option.{map}
use fc_qemu.Base.{
  ℕ, zero, suc, ◌+◌, ◌-◌, ◌*◌, Bool, true, false, ◌&&◌, ◌||◌, Option, none, some, List, [], ◌∷◌,
  is_empty, ◌==◌, leb, if◌then◌else◌,
}

abbrev pub Text : Type 0
Text = List ℕ

-- The characters of a literal.
abbrev pub chars : String → Text
chars String.[] = []
chars (String.◌∷◌ c s) = code c ∷ chars s

pub data ℤ : Type 0 where
  pos : ℕ → ℤ
  negsuc : ℕ → ℤ

abbrev pub neg : ℕ → ℤ
neg zero = pos 0
neg (suc n) = negsuc n

abbrev pub same : Text → Text → Bool
same [] [] = true
same (c ∷ s) (d ∷ t) = c == d && same s t
same _ _ = false

abbrev pub starts_with : Text → Text → Bool
starts_with s [] = true
starts_with [] (d ∷ t) = false
starts_with (c ∷ s) (d ∷ t) = c == d && starts_with s t

-- `t in s`
abbrev pub contains : Text → Text → Bool
contains [] t = is_empty t
contains (c ∷ s) t = starts_with (c ∷ s) t || contains s t

-- `str.isspace` of one character.
abbrev pub is_space : ℕ → Bool
is_space c = leb 9 c && leb c 13 || leb 28 c && leb c 32

abbrev pub is_digit : ℕ → Bool
is_digit c = leb b'0' c && leb c b'9'

-- `strip` of the characters that satisfy `p`.
unfoldable pub lstrip : (ℕ → Bool) → Text → Text
lstrip p [] = []
lstrip p (c ∷ s) = if p c then lstrip p s else c ∷ s

unfoldable pub rstrip : (ℕ → Bool) → Text → Text
rstrip p [] = []
rstrip p (c ∷ s) = let rest = rstrip p s in if p c && is_empty rest then [] else c ∷ rest

abbrev pub strip : (ℕ → Bool) → Text → Text
strip p s = rstrip p (lstrip p s)

-- A character before the first of the words.
unfoldable pub push : ℕ → List Text → List Text
push c [] = (c ∷ []) ∷ []
push c (w ∷ ws) = (c ∷ w) ∷ ws

-- `s.split(sep)` for one character.
unfoldable pub split : ℕ → Text → List Text
split sep [] = [] ∷ []
split sep (c ∷ s) = let rest = split sep s in if c == sep then [] ∷ rest else push c rest

-- `s.split(sep)` for two characters.
unfoldable pub split_pair : ℕ → ℕ → Text → List Text
split_pair a b [] = [] ∷ []
split_pair a b (c ∷ []) = (c ∷ []) ∷ []
split_pair a b (c ∷ d ∷ s) = elim (c == a && d == b) [
  | true ↦ [] ∷ split_pair a b s
  | false ↦ push c (split_pair a b (d ∷ s))
]

-- The ends of lines: \n, \v, \f, \r, \x1c, \x1d, \x1e.
abbrev pub is_line_end : ℕ → Bool
is_line_end c = leb 10 c && leb c 13 || leb 28 c && leb c 30

-- `s.splitlines()`, in which "\r\n" is one end, and the last line may lack one.
unfoldable pub splitlines : Text → List Text
splitlines [] = []
splitlines (c ∷ []) = if is_line_end c then [] ∷ [] else (c ∷ []) ∷ []
splitlines (c ∷ d ∷ s) = elim (c == 13 && d == 10) [
  | true ↦ [] ∷ splitlines s
  | false ↦ let rest = splitlines (d ∷ s) in if is_line_end c then [] ∷ rest else push c rest
]

-- The digits of `int`, of which a single underscore may part two.
unfoldable pub number : ℕ → Bool → Text → Option ℕ
number n after_digit [] = if after_digit then some n else none
number n after_digit (c ∷ s) = elim (is_digit c) [
  | true ↦ number (n * 10 + (c - b'0')) true s
  | false ↦ elim (after_digit && c == b'_') [ true ↦ number n false s | false ↦ none ]
]

signed : Text → Option ℤ
signed [] = none
signed (c ∷ s) =
    if c == b'-'
    then map neg (number 0 false s)
    else (if c == b'+' then map pos (number 0 false s) else map pos (number 0 false (c ∷ s)))

-- `int(s)`
unfoldable pub int : Text → Option ℤ
unfolding signed
int s = signed (strip is_space s)
