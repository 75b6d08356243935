-- ===== src/Logging/Clean.antt =====
-- Texts without escape sequences.
use fc_qemu.Base.{
  ℕ, zero, suc, ◌-◌, refl, inl, inr, Bool, true, false, Bool-cases, Option, none, some, [], ◌∷◌,
  ◌++◌, length, All, ◌==◌, arith,
}
use fc_qemu.Util.Text.{Text, chars, starts_with}
use fc_qemu.Util.Address.RoundTrip.{Lacks}
use fc_qemu.Util.Replace.{replace_from}
use fc_qemu.Util.Parse.{Dict}
use fc_qemu.Config.Words.{text_le}
use fc_qemu.Config.Words.Members.{any-lacking}
use fc_qemu.Logging.{
  colour, shown, Markup, spaces, first, pad, rjust, prefix, insert_key, sorted, key_values,
}
use fc_qemu.Logging.Plain.{escape, IsClean}

abbrev pub Clean : Text → Type 0
Clean s = Lacks escape s

abbrev pub CleanOption : Option Text → Type 0
CleanOption none = Unit
CleanOption (some s) = Clean s

abbrev pub CleanPair : Text × Text → Type 0
CleanPair (k, v) = Clean k × Clean v

pub both-Clean : (s t : Text) → Clean s → Clean t → Clean (s ++ t)
both-Clean s t h k = any-lacking (λ d. d == escape) s t h k

spaces-Clean : (n : ℕ) → Clean (spaces n)
unfolding spaces
spaces-Clean zero = refl
spaces-Clean (suc n) = spaces-Clean n

pub first-Clean : (n : ℕ) (s : Text) → Clean s → Clean (first n s)
unfolding first
first-Clean zero s h = refl
first-Clean (suc n) [] h = refl
first-Clean (suc n) (c ∷ s) h = ground (arith, first-Clean n s, h)

replace-Clean :
    (old by : Text) (n : ℕ) (s : Text) → Clean by → Clean s → Clean (replace_from old by n s)
unfolding replace_from
replace-Clean old by n [] h k = refl
replace-Clean old by (suc n) (c ∷ s) h k = replace-Clean old by n s h (ground (arith, k))
replace-Clean old by zero (c ∷ s) h k =
    either (by ++ replace_from old by (length old - 1) s) (c ∷ replace_from old by 0 s)
      (starts_with (c ∷ s) old)
      (both-Clean by (replace_from old by (length old - 1) s) h
        (replace-Clean old by (length old - 1) s h (ground (arith, k))))
      (ground (arith, replace-Clean old by 0 s h, k))
  where
    either : (x y : Text) (b : Bool) → Clean x → Clean y → Clean (elim b [ true ↦ x | false ↦ y ])
    either x y true p q = p
    either x y false p q = q

pub prefix-Clean : (p s : Text) → Clean p → Clean s → Clean (prefix p s)
unfolding prefix
prefix-Clean p s h k =
    let rest = replace_from (b'\n' ∷ []) (b'\n' ∷ p ++ chars ">\t") 0 s in
    both-Clean p (chars ">\t" ++ rest) h (
      both-Clean (chars ">\t") rest refl (
        replace-Clean (b'\n' ∷ []) (b'\n' ∷ p ++ chars ">\t") 0 s
          (both-Clean p (chars ">\t") h refl) k))

pub pad-Clean : (s : Text) (n : ℕ) → Clean s → Clean (pad s n)
pad-Clean s n h = both-Clean s _ h (spaces-Clean (n - length s))

pub rjust-Clean : (s : Text) (n : ℕ) → Clean s → Clean (rjust s n)
rjust-Clean s n h = both-Clean (spaces (n - length s)) s (spaces-Clean (n - length s)) h

markup-append : (ps qs : Markup) → IsClean ps → IsClean qs → IsClean (ps ++ qs)
markup-append [] qs h k = k
markup-append (colour c ∷ ps) qs h k = markup-append ps qs h k
markup-append (shown s ∷ ps) qs h k = (h.0, markup-append ps qs h.1 k)

insert_key-Clean :
    (e : Text × Text) (d : Dict Text)
    → CleanPair e
    → All CleanPair d
    → All CleanPair (insert_key e d)
unfolding insert_key
insert_key-Clean (k, v) [] h i = (h, tt)
insert_key-Clean (k, v) ((j, w) ∷ d) h i = elim (Bool-cases (text_le k j)) [
  | inl e ↦ rw e (h, i)
  | inr e ↦ rw e (i.0, insert_key-Clean (k, v) d h i.1)
]

pub sorted-Clean : (d : Dict Text) → All CleanPair d → All CleanPair (sorted d)
unfolding sorted
sorted-Clean [] h = tt
sorted-Clean (e ∷ d) h = insert_key-Clean e (sorted d) h.0 (sorted-Clean d h.1)

pub key_values-IsClean : (d : Dict Text) → All CleanPair d → IsClean (key_values d)
unfolding key_values
key_values-IsClean [] h = tt
key_values-IsClean ((k, v) ∷ []) h = (h.0.0, (refl, (h.0.1, tt)))
key_values-IsClean ((k, v) ∷ e ∷ d) h =
    (h.0.0, (refl, (h.0.1, (refl, key_values-IsClean (e ∷ d) h.1))))
