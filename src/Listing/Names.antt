-- ===== src/Listing/Names.antt =====
-- The names of the VMs in the names of their PID files.
use mathlib.Core.List.{append-nil}
use fc_qemu.Base.{
  ◌≡◌, refl, sym, ap, ◌∙◌, inl, inr, true, false, Bool-cases, [], ◌∷◌, ◌++◌, length, arith, ◌+◌,
}
use fc_qemu.Util.Text.{Text, chars, starts_with, contains}
use fc_qemu.Util.Address.RoundTrip.{Lacks}
use fc_qemu.Util.Parse.LastWins.{same_refl}
use fc_qemu.Util.Replace.{
  replace, replace_from, replace_nothing, replace_passed, replace_here, replace_lacking, same_start,
  starts_with-append,
}
use fc_qemu.Listing.{ends_with, is_pid_file, name_of_file}

abbrev pub run_file : Text → Text
run_file name = chars "qemu." ++ (name ++ chars ".pid")

-- A name without a full stop that does not end in "qemu".
abbrev pub IsVmName : Text → Type 0
IsVmName name = Lacks b'.' name × (contains (name ++ chars ".") (chars "qemu.") ≡ false)

replace_pid : replace (chars "qemu.") [] (chars ".pid") ≡ chars ".pid"
unfolding replace_from
replace_pid = refl

replace_rest :
    (s : Text) → IsVmName s → replace (chars "qemu.") [] (s ++ chars ".pid") ≡ s ++ chars ".pid"
replace_rest [] h = replace_pid
replace_rest (c ∷ s) h =
    replace_passed (chars "qemu.") [] c (s ++ chars ".pid") differs
    ∙ ap (λ t. c ∷ t) (replace_rest s (ground (arith, h.0), shorter))
  where
    shorter : contains (s ++ chars ".") (chars "qemu.") ≡ false
    shorter = ground (arith, h.1)

    differs : starts_with (c ∷ s ++ chars ".pid") (chars "qemu.") ≡ false
    differs = elim (Bool-cases (starts_with (c ∷ s ++ chars ".pid") (chars "qemu."))) [
      | inl e ↦
          let whole : c ∷ s ≡ chars "qemu" =
            same_start b'.' (c ∷ s) (chars "qemu") (chars "pid") h.0 refl e in
          let twice : contains (chars "qemu" ++ chars ".") (chars "qemu.") ≡ false =
            ap (λ t. contains (t ++ chars ".") (chars "qemu.")) (sym whole) ∙ h.1 in
          cc
      | inr e ↦ e
    ]

pub name_of_file-run_file : (name : Text) → IsVmName name → name_of_file (run_file name) ≡ name
name_of_file-run_file name h =
    ap (replace (chars ".pid") [])
      (replace_here b'q' (chars "emu.") (name ++ chars ".pid") ∙ replace_rest name h)
    ∙ replace_lacking b'.' (chars "pid") name (chars ".pid") h.0
    ∙ ap (λ t. name ++ t) gone
    ∙ append-nil name
  where
    gone : replace (chars ".pid") [] (chars ".pid") ≡ []
    gone = replace_here b'.' (chars "pid") [] ∙ replace_nothing (chars ".pid")

ends_with-append : (s t : Text) → ends_with (s ++ t) t ≡ true
unfolding ends_with
ends_with-append [] [] = refl
ends_with-append [] (d ∷ t) = rw (same_refl (d ∷ t)) refl
ends_with-append (c ∷ s) t = ground (arith, ends_with-append s t)

length-append : (s t : Text) → length (s ++ t) ≡ length s + length t
length-append [] t = omega arith
length-append (c ∷ s) t = omega (arith, length-append s t)

pub run_file-is_pid_file : (name : Text) → is_pid_file (run_file name) ≡ true
run_file-is_pid_file name = ground (
  arith,
  starts_with-append (chars "qemu.") (name ++ chars ".pid"),
  ends_with-append (chars "qemu." ++ name) (chars ".pid"),
  length-append name (chars ".pid"),
)
