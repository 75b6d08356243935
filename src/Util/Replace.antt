-- ===== src/Util/Replace.antt =====
-- `replace` of Python's `str`.
use fc_qemu.Base.{ℕ, zero, suc, ◌-◌, ◌≡◌, refl, ap, ◌∙◌, true, false, [], ◌∷◌, ◌++◌, length, arith}
use fc_qemu.Util.Text.{Text, starts_with}
use fc_qemu.Util.Address.RoundTrip.{Lacks}

-- `s.replace(old, by)` for an `old` that is not empty; the next `skip` characters are replaced already.
unfoldable pub replace_from : Text → Text → ℕ → Text → Text
replace_from old by skip [] = []
replace_from old by (suc skip) (c ∷ s) = replace_from old by skip s
replace_from old by zero (c ∷ s) = elim (starts_with (c ∷ s) old) [
  | true ↦ by ++ replace_from old by (length old - 1) s
  | false ↦ c ∷ replace_from old by 0 s
]

abbrev pub replace : Text → Text → Text → Text
replace old by s = replace_from old by 0 s

pub replace_skip : (old by t s : Text) → replace_from old by (length t) (t ++ s) ≡ replace old by s
unfolding replace_from
replace_skip old by [] s = refl
replace_skip old by (c ∷ t) s = replace_skip old by t s

pub starts_with-append : (s t : Text) → starts_with (s ++ t) s ≡ true
starts_with-append [] t = refl
starts_with-append (c ∷ s) t = ground (arith, starts_with-append s t)

pub replace_nothing : (old : Text) → replace old [] [] ≡ []
unfolding replace_from
replace_nothing old = refl

module _ (old by : Text) (c : ℕ) (s : Text) where
  pub replace_found :
      starts_with (c ∷ s) old ≡ true
      → replace old by (c ∷ s) ≡ by ++ replace_from old by (length old - 1) s
  unfolding replace_from
  replace_found h =
      ap
        (λ b. elim b [
          | true ↦ by ++ replace_from old by (length old - 1) s
          | false ↦ c ∷ replace old by s
        ])
        h

  pub replace_passed :
      starts_with (c ∷ s) old ≡ false → replace old by (c ∷ s) ≡ c ∷ replace old by s
  unfolding replace_from
  replace_passed h =
      ap
        (λ b. elim b [
          | true ↦ by ++ replace_from old by (length old - 1) s
          | false ↦ c ∷ replace old by s
        ])
        h

less_one : (n : ℕ) → (suc n - 1) ≡ n
less_one n = omega arith

-- A text is replaced where it stands.
pub replace_here : (c : ℕ) (w s : Text) → replace (c ∷ w) [] ((c ∷ w) ++ s) ≡ replace (c ∷ w) [] s
replace_here c w s =
    replace_found (c ∷ w) [] c (w ++ s) (starts_with-append (c ∷ w) s)
    ∙ ap (λ n. replace_from (c ∷ w) [] n (w ++ s)) (less_one (length w))
    ∙ replace_skip (c ∷ w) [] w s

-- A text without the first character is passed.
pub replace_lacking :
    (c : ℕ) (w s rest : Text)
    → Lacks c s
    → replace (c ∷ w) [] (s ++ rest) ≡ s ++ replace (c ∷ w) [] rest
replace_lacking c w [] rest h = refl
replace_lacking c w (d ∷ s) rest h =
    replace_passed (c ∷ w) [] d (s ++ rest) (ground (arith, h))
    ∙ ap (λ t. d ∷ t) (replace_lacking c w s rest (ground (arith, h)))

-- Texts before the same end are the same where one starts with the other.
pub same_start :
    (e : ℕ) (s t rest : Text)
    → Lacks e s
    → Lacks e t
    → starts_with (s ++ e ∷ rest) (t ++ e ∷ []) ≡ true
    → s ≡ t
same_start e [] [] rest h k p = refl
same_start e (c ∷ s) [] rest h k p = ground (arith, h, p)
same_start e [] (d ∷ t) rest h k p = ground (arith, k, p)
same_start e (c ∷ s) (d ∷ t) rest h k p = ground (arith, same_start e s t rest, h, k, p)
