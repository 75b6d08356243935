-- ===== src/Util/Files.antt =====
-- `conditional_update`, `inplace_update` and `remove_empty_dirs`, and the update of the file of
-- users in `seed_cloud_init` of hazmat/ceph.py, on a disk of files with numbers for names.
pub mod Contents
use fc_qemu.Base.{
  ℕ, Bool, true, false, not, ◌&&◌, ◌||◌, Option, none, some, List, [], ◌∷◌, ◌++◌, length, Exc,
  Result, ok, err, stuck, os_error, if◌then◌else◌, ◌==◌,
}
use fc_qemu.Util.Text.{Text, chars, same}

pub record File : Type 0 where
  pub content : Text
  pub mtime : ℕ

abbrev pub Disk : Type 0
Disk = ℕ → Option File

-- `os.rename` on top of what is there, `os.unlink`, and a new file.
abbrev pub put : ℕ → Option File → Disk → Disk
put name f disk n = if name == n then f else disk n

abbrev pub exists : Option File → Bool
exists none = false
exists (some f) = true

-- `filecmp.cmp`, which is shallow: files of the same size and time are taken to be the same.
abbrev pub cmp : File → File → Bool
cmp f g =
    if length f.content == length g.content
    then f.mtime == g.mtime || same f.content g.content
    else false

abbrev pub cmp_with : Option File → File → Bool
cmp_with none g = false
cmp_with (some f) g = cmp f g

abbrev pub line_end : Text
line_end = chars "\n"

-- `space` says that there is room for a temporary file, of the name `temp`, which is left behind
-- where it cannot be written. `now` is the time.
unfoldable pub conditional_update : Bool → ℕ → ℕ → ℕ → Text → Disk → Result (Unit {0}) × Disk
conditional_update space now temp filename text disk =
    let written : File = record { content = text ++ line_end; mtime = now } in
    if not space
    then (err os_error, put temp (some (record { content = []; mtime = now })) disk)
    else (if not (exists (disk filename)) || not (cmp_with (disk filename) written)
        then (ok tt, put temp none (put filename (some written) disk))
        else (ok tt, put temp none disk))

-- The file is opened for reading and writing, which needs it to be there.
unfoldable pub inplace_update : ℕ → ℕ → Text → Disk → Result (Unit {0}) × Disk
inplace_update now filename text disk = elim (disk filename) [
  | none ↦ (err os_error, disk)
  | some f ↦ (ok tt, put filename (some (record { content = text; mtime = now })) disk)
]

abbrev is_os_error : Exc → Bool
is_os_error os_error = true
is_os_error _ = false

-- `try: conditional_update except (IOError, OSError): inplace_update`
unfoldable pub update_users : Bool → ℕ → ℕ → ℕ → Text → Disk → Result (Unit {0}) × Disk
update_users space now temp filename text disk =
    let (r, after) = conditional_update space now temp filename text disk in
    elim r [
      | ok a ↦ (ok a, after)
      | err e ↦ if is_os_error e then inplace_update now filename text after else (err e, after)
      | stuck ↦ (stuck, after)
    ]

-- The loop of `remove_empty_dirs` over the directories from `d` up, with the root left out. `rmdir`
-- gives nothing where it raises an OSError.
unfoldable pub remove_empty_dirs : {S : Type 0} → (List ℕ → S → Option S) → List ℕ → S → S
remove_empty_dirs rmdir [] s = s
remove_empty_dirs rmdir (name ∷ d) s = elim (rmdir (name ∷ d) s) [
  | none ↦ s
  | some s' ↦ remove_empty_dirs rmdir d s'
]
