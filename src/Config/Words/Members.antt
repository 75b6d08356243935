-- ===== src/Config/Words/Members.antt =====
-- Words of joined texts, and texts among others.
use mathlib.Core.List.{append-nil, append_assoc}
use fc_qemu.Base.{
  ℕ, ◌≡◌, refl, sym, ap, ◌∙◌, Bool, true, false, ◌||◌, List, [], ◌∷◌, ◌++◌, arith, any, Bool-cases,
  inl, inr,
}
use fc_qemu.Util.Text.{Text, same}
use fc_qemu.Util.Parse.LastWins.{same-path}
use fc_qemu.Config.Words.{words, words_from, word, join, is_blank, filter}

-- Is the text among the others?
abbrev pub has : Text → List Text → Bool
has t ts = any (same t) ts

pub any-append : (p : Text → Bool) (ss ts : List Text) → any p (ss ++ ts) ≡ (any p ss || any p ts)
any-append p [] ts = refl
any-append p (s ∷ ss) ts = ground (arith, any-append p ss ts)

pub any-lacking :
    (p : ℕ → Bool) (s t : Text) → any p s ≡ false → any p t ≡ false → any p (s ++ t) ≡ false
any-lacking p [] t h k = k
any-lacking p (c ∷ s) t h k = ground (arith, any-lacking p s t)

pub has-any :
    (p : Text → Bool) (t : Text) (ts : List Text) → has t ts ≡ true → p t ≡ true → any p ts ≡ true
has-any p t (s ∷ ts) h e = elim (Bool-cases (same t s)) [
  | inl here ↦ let at_s : p s ≡ true = rw (← same-path t s here) e in ground arith
  | inr more ↦ ground (arith, has-any p t ts)
]
has-any p t [] h e = cc

pub has-filter :
    (p : Text → Bool) (t : Text) (ts : List Text)
    → has t ts ≡ true
    → p t ≡ true
    → has t (filter p ts) ≡ true
unfolding filter
has-filter p t [] h e = h
has-filter p t (s ∷ ts) h e = elim (Bool-cases (same t s)) [
  | inl here ↦ let at_s : p s ≡ true = rw (← same-path t s here) e in ground arith
  | inr more ↦ ground (arith, has-filter p t ts)
]

word-append : (w : Text) (ws : List Text) → word w ws ≡ word w [] ++ ws
word-append [] ws = refl
word-append (c ∷ w) ws = refl

module _ (p : ℕ → Bool) where
  word_over : (w : Text) → words_from p w [] ≡ word w []
  unfolding words_from
  word_over w = refl

  word_ends :
      (w s : Text) (c : ℕ) → p c ≡ true → words_from p w (c ∷ s) ≡ word w (words_from p [] s)
  unfolding words_from
  word_ends w s c h = rw (h, words_from) refl

  word_goes_on :
      (w s : Text) (c : ℕ) → p c ≡ false → words_from p w (c ∷ s) ≡ words_from p (w ++ c ∷ []) s
  unfolding words_from
  word_goes_on w s c h = rw (h, words_from) refl

  pub words_from-append :
      (sep : ℕ) (w s t : Text)
      → p sep ≡ true
      → words_from p w (s ++ sep ∷ t) ≡ words_from p w s ++ words_from p [] t
  words_from-append sep w [] t h =
      word_ends w t sep h
      ∙ word-append w (words_from p [] t)
      ∙ ap (λ ws. ws ++ words_from p [] t) (sym (word_over w))
  words_from-append sep w (c ∷ s) t h = elim (Bool-cases (p c)) [
    | inl e ↦
        word_ends w (s ++ sep ∷ t) c e
        ∙ ap (word w) (words_from-append sep [] s t h)
        ∙ word-append w (words_from p [] s ++ words_from p [] t)
        ∙ sym (append_assoc (word w []) (words_from p [] s) (words_from p [] t))
        ∙ ap (λ ws. ws ++ words_from p [] t)
            (sym (word-append w (words_from p [] s)) ∙ sym (word_ends w s c e))
    | inr e ↦
        word_goes_on w (s ++ sep ∷ t) c e
        ∙ words_from-append sep (w ++ c ∷ []) s t h
        ∙ ap (λ ws. ws ++ words_from p [] t) (sym (word_goes_on w s c e))
  ]

  pub words_from-lacking : (w s : Text) → any p s ≡ false → words_from p w s ≡ word (w ++ s) []
  words_from-lacking w [] h = word_over w ∙ ap (λ x. word x []) (sym (append-nil w))
  words_from-lacking w (c ∷ s) h =
      word_goes_on w s c (ground arith)
      ∙ words_from-lacking (w ++ c ∷ []) s (ground arith)
      ∙ ap (λ x. word x []) (append_assoc w (c ∷ []) s)

-- A word of one of the texts is one of the command.
pub has-join :
    (m : Text) (ts : List Text)
    → any (λ t. has m (words is_blank t)) ts ≡ true
    → has m (words is_blank (join ts)) ≡ true
unfolding words join words_from
has-join m [] h = cc
has-join m (t ∷ []) h = ground arith
has-join m (t ∷ u ∷ ts) h =
    rw (words_from-append is_blank b' ' [] t (join (u ∷ ts)) refl)
      (rw any-append (ground (arith, has-join m (u ∷ ts))))
