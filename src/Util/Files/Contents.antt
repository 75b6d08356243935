-- ===== src/Util/Files/Contents.antt =====
-- What is on the disk after an update, without the times.
use fc_qemu.Base.{
  ℕ, ◌≡◌, refl, Bool, true, false, not, ◌||◌, Option, none, some, ◌++◌, Result, ok, if◌then◌else◌,
  ◌==◌, arith, ==_iff,
}
use fc_qemu.Util.Text.{Text}
use fc_qemu.Util.Files.{File, Disk, put, exists, cmp, cmp_with, line_end, conditional_update}
use fc_qemu.Util.Parse.LastWins.{same-path}

-- A disk as a map from names to texts, and what it means to write a file there.
abbrev pub Contents : Type 0
Contents = ℕ → Option Text

abbrev pub content_of : Option File → Option Text
content_of none = none
content_of (some f) = some f.content

abbrev pub contents : Disk → Contents
contents disk n = content_of (disk n)

abbrev pub write : ℕ → Text → Contents → Contents
write name text m n = if name == n then some text else m n

-- The temporary name is a new one, and the file was not written at this very time.
pub record Fresh (now temp filename : ℕ) (disk : Disk) : Type 0 where
  pub unused : disk temp ≡ none
  pub older : (f : File) → disk filename ≡ some f → (f.mtime == now) ≡ false
  pub other : (temp == filename) ≡ false

cmp-content : (f g : File) → (f.mtime == g.mtime) ≡ false → cmp f g ≡ true → f.content ≡ g.content
cmp-content f g h c = ground (arith, same-path f.content g.content)

-- The file that is found to be the same.
same_file :
    (o : Option File) (g : File)
    → (not (exists o) || not (cmp_with o g)) ≡ false
    → (f : File) × ((o ≡ some f) × (cmp f g ≡ true))
same_file none g h = ground arith
same_file (some f) g h = (f, (refl, not-injective (cmp f g) h))
  where
    not-injective : (b : Bool) → not b ≡ false → b ≡ true
    not-injective true k = refl
    not-injective false k = ground arith

choose :
    (b : Bool) (x y : Disk) (n : ℕ) (w : Option Text)
    → contents x n ≡ w
    → (b ≡ false → contents y n ≡ w)
    → contents (if◌then◌else◌ {A = Result (Unit {0}) × Disk} b (ok tt, x) (ok tt, y)).1 n ≡ w
choose true x y n w h k = h
choose false x y n w h k = k refl

module _ (temp filename : ℕ) (disk : Disk) (unused : disk temp ≡ none) where
  moved :
      (g : File) (n : ℕ)
      → (temp == filename) ≡ false
      → contents (put temp none (put filename (some g) disk)) n
        ≡ write filename g.content (contents disk) n
  moved g n h = ground (arith, unused, h, ==_iff temp n, ==_iff filename n)

  kept :
      (f : File) (t : Text) (n : ℕ)
      → disk filename ≡ some f
      → f.content ≡ t
      → contents (put temp none disk) n ≡ write filename t (contents disk) n
  kept f t n e h = ground (arith, unused, e, h, ==_iff temp n, ==_iff filename n)

-- With room for a temporary file, the update writes the text with the end of a line to the file and
-- changes the contents of no other, where the temporary name is new and the file is older.
pub conditional_update-writes :
    (now temp filename : ℕ) (text : Text) (disk : Disk)
    → Fresh now temp filename disk
    → (n : ℕ)
    → contents (conditional_update true now temp filename text disk).1 n
      ≡ write filename (text ++ line_end) (contents disk) n
unfolding conditional_update
conditional_update-writes now temp filename text disk fresh n =
    choose (not (exists (disk filename)) || not (cmp_with (disk filename) written)) _ _ n _
      (moved temp filename disk fresh.unused written n fresh.other)
      (λ h.
        let (f, (e, c)) = same_file (disk filename) written h in
        kept temp filename disk fresh.unused f (text ++ line_end) n e
          (cmp-content f written (fresh.older f e) c))
  where
    written : File
    written = record { content = text ++ line_end; mtime = now }
