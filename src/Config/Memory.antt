-- ===== src/Config/Memory.antt =====
-- The memory of a VM in its arguments.
use mathlib.Core.List.{append-nil}
use fc_qemu.Base.{ℕ, ◌≡◌, refl, ap, some, List, [], ◌∷◌, ◌++◌, ok}
use fc_qemu.Util.Text.{Text, ℤ, pos, chars, split}
use fc_qemu.Util.Address.{decimal}
use fc_qemu.Util.Address.RoundTrip.{split-lacking, split-parts, int-decimal, decimal-lacking}
use fc_qemu.Util.Parse.{Dict, get}
use fc_qemu.Config.Template.{render, format}
use fc_qemu.Config.{◌>>=◌, format_all, generate_args, adapt_memory, second_int}

-- What the arguments are taken from.
pub record Values : Type 0 where
  pub cpu_model : Text
  pub name : Text
  pub serial_file : Text
  pub memory : Text

pub record HasValues (cfg : Dict Text) (v : Values) : Type 0 where
  pub has_cpu_model : get (chars "cpu_model") cfg ≡ some v.cpu_model
  pub has_name : get (chars "name") cfg ≡ some v.name
  pub has_serial_file : get (chars "serial_file") cfg ≡ some v.serial_file
  pub has_memory : get (chars "memory") cfg ≡ some v.memory

-- The arguments for all hosts.
abbrev pub generated : Values → List Text
generated v =
    chars "-nodefaults"
    ∷ chars "-only-migratable"
    ∷ (chars "-cpu " ++ (v.cpu_model ++ chars ",enforce"))
    ∷ (chars "-name " ++ (v.name ++ (chars ",process=kvm." ++ (v.name ++ []))))
    ∷ chars "-chroot {chroot}"
    ∷ chars "-runas nobody"
    ∷ (chars "-serial file:" ++ (v.serial_file ++ []))
    ∷ chars "-display vnc={vnc}"
    ∷ chars "-pidfile {pidfile}"
    ∷ chars "-vga std"
    ∷ (chars "-m " ++ (v.memory ++ []))
    ∷ chars "-readconfig {configfile}"
    ∷ []

pub generate_args-HasValues :
    (cfg : Dict Text) (v : Values) → HasValues cfg v → generate_args cfg ≡ ok (generated v)
unfolding generate_args format_all format render
generate_args-HasValues cfg v h =
    rw (h.has_cpu_model, h.has_name, h.has_serial_file, h.has_memory) refl

two_words : (n : ℕ) → second_int (split b' ' (chars "-m " ++ (decimal n ++ []))) ≡ ok (pos n)
two_words n = rw (append-nil (decimal n)) (
    rw (split-parts b' ' (chars "-m") (decimal n) refl) (
      rw (split-lacking b' ' (decimal n) (decimal-lacking b' ' n refl))
        (rw (second_int, int-decimal n) refl)))

-- The memory that a VM was started with is the one that the receiving side of a migration reads in
-- its arguments, whatever the other settings are.
pub adapt_memory-generate_args :
    (cfg : Dict Text) (v : Values) (n : ℕ) (m : ℤ)
    → HasValues cfg v
    → v.memory ≡ decimal n
    → (generate_args cfg >>= λ args. adapt_memory args m) ≡ ok (pos n)
unfolding adapt_memory
adapt_memory-generate_args cfg v n m h e =
    rw (generate_args-HasValues cfg v h) (rw e (ap (λ r. r >>= λ k. ok k) (two_words n)))
