-- ===== src/Logging/Plain.antt =====
-- The colours of the console do not get into the log file.
use mathlib.Core.List.{append_assoc}
use fc_qemu.Base.{
  ℕ, ◌≡◌, refl, sym, ap, ◌∙◌, inl, inr, true, false, Bool-cases, List, [], ◌∷◌, ◌++◌, any, arith,
  if◌then◌else◌,
}
use fc_qemu.Util.Text.{Text, same, starts_with}
use fc_qemu.Util.Replace.{
  replace, replace_nothing, replace_passed, replace_here, replace_lacking, same_start,
}
use fc_qemu.Util.Address.RoundTrip.{Lacks}
use fc_qemu.Util.Parse.LastWins.{same_refl, same-path}
use fc_qemu.Logging.{
  Colour, reset, bright, dim, red, backred, blue, cyan, magenta, yellow, green, colours, colour,
  shown, Markup, palette, weave, erase, log_line,
}

abbrev pub escape : ℕ
escape = 27

-- The colours are escape sequences that end with an "m".
pub record IsAnsi (code : Colour → Text) : Type 0 where
  pub body : Colour → Text
  pub whole : (c : Colour) → code c ≡ escape ∷ body c ++ b'm' ∷ []
  pub one_escape : (c : Colour) → Lacks escape (body c)
  pub one_end : (c : Colour) → Lacks b'm' (body c)

-- The pieces without the colours that look like `c`.
abbrev without : (Colour → Text) → Colour → Markup → Markup
without code c [] = []
without code c (shown s ∷ ps) = shown s ∷ without code c ps
without code c (colour d ∷ ps) =
    if same (code c) (code d) then without code c ps else colour d ∷ without code c ps

-- The texts have no escape sequences of their own.
abbrev pub IsClean : Markup → Type 0
IsClean [] = Unit
IsClean (shown s ∷ ps) = Lacks escape s × IsClean ps
IsClean (colour d ∷ ps) = IsClean ps

module _ (code : Colour → Text) (ansi : IsAnsi code) where
  without-IsClean : (c : Colour) (ps : Markup) → IsClean ps → IsClean (without code c ps)
  without-IsClean c [] h = tt
  without-IsClean c (shown s ∷ ps) h = (h.0, without-IsClean c ps h.1)
  without-IsClean c (colour d ∷ ps) h = elim (Bool-cases (same (code c) (code d))) [
    | inl e ↦ rw e (without-IsClean c ps h)
    | inr e ↦ rw e (without-IsClean c ps h)
  ]

  body_lacking : (d : Colour) → Lacks escape (ansi.body d ++ b'm' ∷ [])
  body_lacking d = lacking (ansi.body d) (ansi.one_escape d)
    where
      lacking : (s : Text) → Lacks escape s → Lacks escape (s ++ b'm' ∷ [])
      lacking [] h = refl
      lacking (x ∷ s) h = ground (arith, lacking s, h)

  looks_same : (c d : Colour) → same (code c) (code d) ≡ false → ansi.body d ≡ ansi.body c → ⊥
  looks_same c d h e =
      let equal : code c ≡ code d =
        ansi.whole c ∙ ap (λ t. escape ∷ t ++ b'm' ∷ []) (sym e) ∙ sym (ansi.whole d) in
      let twice : same (code c) (code d) ≡ true =
        ap (λ t. same (code c) t) (sym equal) ∙ same_refl (code c) in
      cc

  -- Another colour is passed.
  replace_other :
      (c d : Colour) (rest : Text)
      → same (code c) (code d) ≡ false
      → replace (code c) [] (code d ++ rest) ≡ code d ++ replace (code c) [] rest
  replace_other c d rest h =
      rw (ansi.whole c, ansi.whole d)
        (replace_passed (escape ∷ ansi.body c ++ b'm' ∷ []) [] escape
            ((ansi.body d ++ b'm' ∷ []) ++ rest) differs
          ∙ ap (λ t. escape ∷ t)
              (replace_lacking escape (ansi.body c ++ b'm' ∷ []) (ansi.body d ++ b'm' ∷ []) rest
                (body_lacking d)))
    where
      differs :
          starts_with
            (escape ∷ ((ansi.body d ++ b'm' ∷ []) ++ rest))
            (escape ∷ ansi.body c ++ b'm' ∷ [])
          ≡ false
      differs =
          elim (Bool-cases
            (starts_with ((ansi.body d ++ b'm' ∷ []) ++ rest) (ansi.body c ++ b'm' ∷ []))) [
              | inl e ↦ absurd (
                  looks_same c d h (
                    same_start b'm' (ansi.body d) (ansi.body c) rest (ansi.one_end d)
                      (ansi.one_end c)
                      (ap (λ t. starts_with t (ansi.body c ++ b'm' ∷ []))
                          (sym (append_assoc (ansi.body d) (b'm' ∷ []) rest))
                        ∙ e)))
              | inr e ↦ e
            ]

  -- A text with the colours, without one of them.
  replace-weave :
      (c : Colour) (ps : Markup)
      → IsClean ps
      → replace (code c) [] (weave code ps) ≡ weave code (without code c ps)
  unfolding weave
  replace-weave c [] h = replace_nothing (code c)
  replace-weave c (shown s ∷ ps) h =
      rw (ansi.whole c) (replace_lacking escape (ansi.body c ++ b'm' ∷ []) s (weave code ps) h.0)
      ∙ ap (λ t. s ++ t) (replace-weave c ps h.1)
  replace-weave c (colour d ∷ ps) h = elim (Bool-cases (same (code c) (code d))) [
    | inl e ↦ rw e (
        rw (← same-path (code c) (code d) e)
          (rw (ansi.whole c) (replace_here escape (ansi.body c ++ b'm' ∷ []) (weave code ps)))
        ∙ replace-weave c ps h)
    | inr e ↦
        rw e (replace_other c d (weave code ps) e ∙ ap (λ t. code d ++ t) (replace-weave c ps h))
  ]

  without_all : List Colour → Markup → Markup
  without_all [] ps = ps
  without_all (c ∷ cs) ps = without_all cs (without code c ps)

  erase-weave :
      (cs : List Colour) (ps : Markup)
      → IsClean ps
      → erase code cs (weave code ps) ≡ weave code (without_all cs ps)
  unfolding erase without_all
  erase-weave [] ps h = refl
  erase-weave (c ∷ cs) ps h =
      ap (erase code cs) (replace-weave c ps h)
      ∙ erase-weave cs (without code c ps) (without-IsClean c ps h)

  without_shown :
      (cs : List Colour) (s : Text) (ps : Markup)
      → without_all cs (shown s ∷ ps) ≡ shown s ∷ without_all cs ps
  unfolding without_all
  without_shown [] s ps = refl
  without_shown (c ∷ cs) s ps = without_shown cs s (without code c ps)

  without_colour :
      (cs : List Colour) (d : Colour) (ps : Markup)
      → any (λ c. same (code c) (code d)) cs ≡ true
      → without_all cs (colour d ∷ ps) ≡ without_all cs ps
  unfolding without_all
  without_colour [] d ps h = cc
  without_colour (c ∷ cs) d ps h = elim (Bool-cases (same (code c) (code d))) [
    | inl e ↦ rw e refl
    | inr e ↦ rw e (without_colour cs d (without code c ps) (ground (arith, h, e)))
  ]

  is_erased : (d : Colour) → any (λ c. same (code c) (code d)) colours ≡ true
  is_erased reset = ground (arith, same_refl (code reset))
  is_erased bright = ground (arith, same_refl (code bright))
  is_erased dim = ground (arith, same_refl (code dim))
  is_erased red = ground (arith, same_refl (code red))
  is_erased backred = ground (arith, same_refl (code backred))
  is_erased blue = ground (arith, same_refl (code blue))
  is_erased cyan = ground (arith, same_refl (code cyan))
  is_erased magenta = ground (arith, same_refl (code magenta))
  is_erased yellow = ground (arith, same_refl (code yellow))
  is_erased green = ground (arith, same_refl (code green))

  weave_nothing : (cs : List Colour) → weave code (without_all cs []) ≡ []
  unfolding weave without_all
  weave_nothing [] = refl
  weave_nothing (c ∷ cs) = weave_nothing cs

  plain_weave : (ps : Markup) → weave code (without_all colours ps) ≡ weave (palette false code) ps
  unfolding weave
  plain_weave [] = weave_nothing colours
  plain_weave (shown s ∷ ps) = rw (without_shown colours s ps) (ap (λ t. s ++ t) (plain_weave ps))
  plain_weave (colour d ∷ ps) = rw (without_colour colours d ps (is_erased d)) (plain_weave ps)

  -- A line of the console, without its colours.
  pub log_line-weave :
      (ps : Markup)
      → IsClean ps
      → log_line true code (weave (palette true code) ps)
        ≡ log_line false code (weave (palette false code) ps)
  log_line-weave ps h = erase-weave colours ps h ∙ plain_weave ps
