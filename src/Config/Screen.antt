-- ===== src/Config/Screen.antt =====
-- `screen_config` of incoming.py: two `re.sub` with the flag M. Each pattern starts at the start of a
-- line, and where it has white space a character that is none comes next, so that no choice is open.
use fc_qemu.Base.{
  ℕ, zero, suc, ◌+◌, ◌≡◌, refl, ap, sym, ◌∙◌, inl, inr, Bool-cases, Bool, true, false, ◌==◌, Option,
  none, some, [], ◌∷◌, ◌++◌, if◌then◌else◌, arith,
}
use fc_qemu.Util.Text.{Text, chars, is_space, starts_with, contains}

-- How far a pattern reaches: the characters that it takes, and the text behind them.
abbrev pub Match : Type 0
Match = Option (ℕ × Text)

infixr 6 ◌further◌
abbrev pub ◌further◌ : ℕ → Match → Match
n further none = none
n further some (k, rest) = some (n + k, rest)

infixr 5 ◌then_match◌
abbrev pub ◌then_match◌ : (Text → Match) → (Text → Match) → Text → Match
(m then_match k) s = elim (m s) [ none ↦ none | some (n, rest) ↦ n further k rest ]

unfoldable pub spaces : Text → Match
spaces [] = some (0, [])
spaces (c ∷ s) = let rest = spaces s in if is_space c then 1 further rest else some (0, c ∷ s)

unfoldable pub literal : Text → Text → Match
literal [] s = some (0, s)
literal (d ∷ w) [] = none
literal (d ∷ w) (c ∷ s) = let rest = literal w s in if c == d then 1 further rest else none

-- `.*`
unfoldable pub to_line_end : Text → Match
to_line_end [] = some (0, [])
to_line_end (c ∷ s) =
    let rest = to_line_end s in if c == b'\n' then some (0, c ∷ s) else 1 further rest

-- `$`
unfoldable pub at_line_end : Text → Match
at_line_end [] = some (0, [])
at_line_end (c ∷ s) = if c == b'\n' then some (0, c ∷ s) else none

unfoldable pub iommu : Text → Match
iommu =
    spaces
    then_match literal (chars "iommu")
    then_match spaces
    then_match literal (chars "=")
    then_match to_line_end

unfoldable pub qmp_monitor : Text → Match
qmp_monitor =
    spaces
    then_match literal (chars "chardev")
    then_match spaces
    then_match literal (chars "=")
    then_match spaces
    then_match literal (chars "\"ch_qmp_monitor\"\n")
    then_match spaces
    then_match literal (chars "default")
    then_match spaces
    then_match literal (chars "=")
    then_match spaces
    then_match literal (chars "\"on\"")
    then_match at_line_end

-- `re.sub`: `line_start` says whether the text is at the start of a line; the next `skip` characters
-- belong to a match that has been replaced.
unfoldable pub substitute : (Text → Match) → Text → Bool → ℕ → Text → Text
substitute m by line_start skip [] = []
substitute m by line_start (suc skip) (c ∷ s) = substitute m by (c == b'\n') skip s
substitute m by line_start zero (c ∷ s) = elim (if line_start then m (c ∷ s) else none) [
  | some (suc n, rest) ↦ by ++ substitute m by (c == b'\n') n s
  | _ ↦ c ∷ substitute m by (c == b'\n') 0 s
]

unfoldable pub screen_config : Text → Text
screen_config config =
    substitute qmp_monitor (chars "  chardev = \"ch_qmp_monitor\"\n  pretty = \"off\"") true 0
      (substitute iommu [] true 0 config)

-- The text has the word somewhere, by a place where it starts.
contains_tail : (c : ℕ) (s w : Text) → contains s w ≡ true → contains (c ∷ s) w ≡ true
contains_tail c s w h = ground arith

starts_contains : (s w : Text) → starts_with s w ≡ true → contains s w ≡ true
starts_contains [] [] h = refl
starts_contains [] (d ∷ w) h = cc
starts_contains (c ∷ s) w h = ground arith

abbrev matches : Match → Bool
matches none = false
matches (some x) = true

matches_further : (n : ℕ) (x : Match) → matches (n further x) ≡ matches x
matches_further n none = refl
matches_further n (some x) = refl

literal-starts_with : (w s : Text) → matches (literal w s) ≡ true → starts_with s w ≡ true
unfolding literal
literal-starts_with [] [] h = refl
literal-starts_with [] (c ∷ s) h = refl
literal-starts_with (d ∷ w) [] h = cc
literal-starts_with (d ∷ w) (c ∷ s) h =
    ground (arith, literal-starts_with w s, matches_further 1 (literal w s))

-- The start of a longer pattern.
matches_start :
    (m k : Text → Match) (s : Text) → matches ((m then_match k) s) ≡ true → matches (m s) ≡ true
matches_start m k s h = elim (Bool-cases (matches (m s))) [ inl e ↦ e | inr e ↦ ground arith ]

word_here :
    (w : Text) (k : Text → Match) (s : Text)
    → matches ((literal w then_match k) s) ≡ true
    → contains s w ≡ true
word_here w k s h = starts_contains s w (literal-starts_with w s (matches_start (literal w) k s h))

abbrev go_on : (Text → Match) → Match → Match
go_on k x = elim x [ none ↦ none | some (n, rest) ↦ n further k rest ]

go_on_further :
    (k : Text → Match) (n : ℕ) (x : Match) → matches (go_on k (n further x)) ≡ matches (go_on k x)
go_on_further k n none = refl
go_on_further k n (some (m, rest)) =
    matches_further (n + m) (k rest) ∙ sym (matches_further m (k rest))

spaces_go_on : (c : ℕ) (s : Text) → is_space c ≡ true → spaces (c ∷ s) ≡ (1 further spaces s)
unfolding spaces
spaces_go_on c s h = rw (h, spaces) refl

spaces_end : (c : ℕ) (s : Text) → is_space c ≡ false → spaces (c ∷ s) ≡ some (0, c ∷ s)
unfolding spaces
spaces_end c s h = rw (h, spaces) refl

word_behind_spaces :
    (w : Text) (k : Text → Match) (s : Text)
    → matches ((spaces then_match literal w then_match k) s) ≡ true
    → contains s w ≡ true
unfolding spaces
word_behind_spaces w k [] h =
    word_here w k [] (sym (matches_further 0 ((literal w then_match k) [])) ∙ h)
word_behind_spaces w k (c ∷ s) h = elim (Bool-cases (is_space c)) [
  | inl e ↦ contains_tail c s w (
      word_behind_spaces w k s (
        sym (go_on_further (literal w then_match k) 1 (spaces s))
        ∙ ap (λ x. matches (go_on (literal w then_match k) x)) (sym (spaces_go_on c s e))
        ∙ h))
  | inr e ↦ word_here w k (c ∷ s) (
      sym (matches_further 0 ((literal w then_match k) (c ∷ s)))
      ∙ ap (λ x. matches (go_on (literal w then_match k) x)) (sym (spaces_end c s e))
      ∙ h)
]

passes_on :
    (m : Text → Match) (by s : Text) (c : ℕ) (b : Bool)
    → (if b then m (c ∷ s) else none) ≡ none
    → substitute m by b 0 (c ∷ s) ≡ c ∷ substitute m by (c == b'\n') 0 s
unfolding substitute
passes_on m by s c b h = rw (h, substitute) refl

no_match : (x : Match) (b : Bool) → (matches x ≡ true → ⊥) → (if b then x else none) ≡ none
no_match none true f = refl
no_match none false f = refl
no_match (some x) true f = elim (f refl) [ ]
no_match (some x) false f = refl

lacks_tail : (c : ℕ) (s w : Text) → contains (c ∷ s) w ≡ false → contains s w ≡ false
lacks_tail c s w h = ground arith

-- Without a match nothing is replaced.
substitute_none :
    (m : Text → Match) (by w s : Text) (b : Bool)
    → ((t : Text) → matches (m t) ≡ true → contains t w ≡ true)
    → contains s w ≡ false
    → substitute m by b 0 s ≡ s
unfolding substitute
substitute_none m by w [] b f h = refl
substitute_none m by w (c ∷ s) b f h =
    passes_on m by s c b (no_match (m (c ∷ s)) b (λ e. cc (f (c ∷ s) e)))
    ∙ ap (λ t. c ∷ t) (substitute_none m by w s (c == b'\n') f (lacks_tail c s w h))

-- A configuration without the two settings stays as it is.
pub screen_config_same :
    (config : Text)
    → contains config (chars "iommu") ≡ false
    → contains config (chars "chardev") ≡ false
    → screen_config config ≡ config
unfolding screen_config iommu qmp_monitor
screen_config_same config h k =
    ap (substitute qmp_monitor (chars "  chardev = \"ch_qmp_monitor\"\n  pretty = \"off\"") true 0)
      (substitute_none iommu [] (chars "iommu") config true (word_behind_spaces (chars "iommu") _)
        h)
    ∙ substitute_none qmp_monitor _ (chars "chardev") config true
        (word_behind_spaces (chars "chardev") _) k
