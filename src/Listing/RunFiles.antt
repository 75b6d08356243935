-- ===== src/Listing/RunFiles.antt =====
-- Which files are removed with a VM.
use fc_qemu.Base.{
  ◌≡◌, ◌≢◌, ◌↔◌, refl, sym, ap, ◌∙◌, inl, inr, Bool, true, false, not, ◌&&◌, Bool-cases, List, [],
  ◌∷◌, ◌++◌, In, ◌⊎◌, arith,
}
use fc_qemu.Util.Text.{Text, chars, same, starts_with}
use fc_qemu.Util.Address.RoundTrip.{Lacks}
use fc_qemu.Util.Parse.LastWins.{same_refl, same-path}
use fc_qemu.Util.Replace.{same_start}
use fc_qemu.Listing.{
  ends_with, is_run_file, existing_run_files, unlink, unlink_all, clean_run_files,
}
use fc_qemu.Listing.Stops.{In-filter}

-- A file stays exactly where it is not among those that are removed.
In-unlink_all :
    (g : Text) (fs files : List Text) → In g (unlink_all fs files) ↔ (In g files × (In g fs → ⊥))
unfolding unlink_all unlink
In-unlink_all g [] files = ((λ i. (i, (λ x. x))), (λ i. i.0))
In-unlink_all g (f ∷ fs) files =
    let (i, j) = In-unlink_all g fs (unlink f files) in
    let (k, l) = In-filter (λ h. not (same f h)) g files in
    (
      (λ x. ((k (i x).0).0, (λ m. elim m [ inl e ↦ differs e (k (i x).0).1 | inr n ↦ (i x).1 n ]))),
      (λ x. j (l (x.0, passed (λ e. x.1 (inl e))), (λ n. x.1 (inr n)))),
    )
  where
    differs : g ≡ f → not (same f g) ≡ true → ⊥
    differs e h = let s : same f g ≡ true = rw e (same_refl f) in cc

    passed : (g ≡ f → ⊥) → not (same f g) ≡ true
    passed h = elim (Bool-cases (same f g)) [
      | inl e ↦ absurd (h (sym (same-path f g e)))
      | inr e ↦ rw e refl
    ]

In-clean :
    (name g : Text) (files : List Text)
    → In g (clean_run_files name files) ↔ (In g files × (is_run_file name g ≡ false))
unfolding clean_run_files existing_run_files
In-clean name g files =
    let (i, j) = In-unlink_all g (existing_run_files name files) files in
    let (k, l) = In-filter (is_run_file name) g files in
    (
      (λ x. ((i x).0, other (λ e. (i x).1 (l ((i x).0, e))))),
      (λ x. j (x.0, (λ m. clash (k m).1 x.1))),
    )
  where
    other : (is_run_file name g ≡ true → ⊥) → is_run_file name g ≡ false
    other h = elim (Bool-cases (is_run_file name g)) [ inl e ↦ absurd (h e) | inr e ↦ e ]

    clash : is_run_file name g ≡ true → is_run_file name g ≡ false → ⊥
    clash h k = cc

-- A file of the VM.
abbrev pub file_of : Text → Text → Text
file_of name rest = chars "qemu." ++ (name ++ b'.' ∷ rest)

and-false : (b : Bool) → (b && false) ≡ false
and-false true = refl
and-false false = refl

-- The pattern of a VM fits the files of no other.
same_owner :
    (v name rest : Text)
    → Lacks b'.' v
    → Lacks b'.' name
    → starts_with (file_of v rest) (chars "qemu." ++ (name ++ chars ".")) ≡ true
    → v ≡ name
same_owner v name rest h k e = same_start b'.' v name rest h k (ground (arith, e))

own_start :
    (name rest : Text)
    → starts_with (file_of name rest) (chars "qemu." ++ (name ++ chars ".")) ≡ true
own_start name rest = own name
  where
    own : (n : Text) → starts_with (n ++ b'.' ∷ rest) (n ++ chars ".") ≡ true
    own [] = refl
    own (c ∷ n) = ground (arith, own n)

-- Of the files of the VMs, clean_run_files removes just those of this VM that are no lock files. The names have no
-- full stop.
pub clean_run_files-removes :
    (name v rest : Text) (files : List Text)
    → Lacks b'.' v
    → Lacks b'.' name
    → In (file_of v rest) (clean_run_files name files) ↔ (
        In (file_of v rest) files
        × ((v ≢ name) ⊎ (ends_with (file_of v rest) (chars ".lock") ≡ true)))
clean_run_files-removes name v rest files h k =
    ((λ x. ((stays.0 x).0, kept (stays.0 x).1)), (λ x. stays.1 (x.0, outside x.1)))
  where
    stays :
        In (file_of v rest) (clean_run_files name files)
        ↔ (In (file_of v rest) files × (is_run_file name (file_of v rest) ≡ false))
    stays = In-clean name (file_of v rest) files

    kept :
        is_run_file name (file_of v rest) ≡ false
        → (v ≢ name) ⊎ (ends_with (file_of v rest) (chars ".lock") ≡ true)
    kept e = elim (Bool-cases (ends_with (file_of v rest) (chars ".lock"))) [
      | inl l ↦ inr l
      | inr l ↦ inl (λ s. clash s l)
    ]
      where
        clash : v ≡ name → ends_with (file_of v rest) (chars ".lock") ≡ false → ⊥
        clash s l =
            let fits : starts_with (file_of v rest) (chars "qemu." ++ (name ++ chars ".")) ≡ true =
              rw (← s) (own_start v rest) in
            let both : is_run_file name (file_of v rest) ≡ true =
              ap (λ b. b && not (ends_with (file_of v rest) (chars ".lock"))) fits ∙ ap not l in
            cc

    outside :
        (v ≢ name) ⊎ (ends_with (file_of v rest) (chars ".lock") ≡ true)
        → is_run_file name (file_of v rest) ≡ false
    outside (inl n) =
        elim (Bool-cases (starts_with (file_of v rest) (chars "qemu." ++ (name ++ chars ".")))) [
          | inl e ↦ absurd (n (same_owner v name rest h k e))
          | inr e ↦ ap (λ b. b && not (ends_with (file_of v rest) (chars ".lock"))) e
        ]
    outside (inr l) =
        ap (λ b. starts_with (file_of v rest) (chars "qemu." ++ (name ++ chars ".")) && not b) l
        ∙ and-false _
