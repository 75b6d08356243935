-- ===== src/Listing.antt =====
-- The VMs of a host and their files under /run: `_vm_agents_for_host`, `ls` and `shutdown_all` of
-- agent.py, `existing_run_files` and `clean_run_files` of hazmat/qemu.py. What a VM says in `with vm` is
-- a parameter.
pub mod Names
pub mod Stops
pub mod RunFiles
use fc_qemu.Base.{
  ℕ, ◌-◌, ◌<◌, Bool, true, false, not, ◌&&◌, Option, none, some, List, [], ◌∷◌, ◌++◌, map, length,
  Result, ok, err, stuck, assertion_error, eof_error, leb, if◌then◌else◌,
}
use fc_qemu.Util.Text.{Text, chars, same, starts_with}
use fc_qemu.Config.{◌>>=◌}
use fc_qemu.Config.Words.{filter, text_le}
use fc_qemu.Util.Replace.{replace}

unfoldable pub ends_with : Text → Text → Bool
ends_with [] t = same [] t
ends_with (c ∷ s) t = let rest = ends_with s t in if same (c ∷ s) t then true else rest

-- The pattern "qemu.*.pid".
abbrev pub is_pid_file : Text → Bool
is_pid_file f = (starts_with f (chars "qemu.") && ends_with f (chars ".pid")) && leb 9 (length f)

unfoldable pub insert_text : Text → List Text → List Text
insert_text f [] = f ∷ []
insert_text f (g ∷ gs) = let rest = insert_text f gs in if text_le f g then f ∷ g ∷ gs else g ∷ rest

unfoldable pub sorted : List Text → List Text
sorted [] = []
sorted (f ∷ fs) = insert_text f (sorted fs)

abbrev pub name_of_file : Text → Text
name_of_file f = replace (chars ".pid") [] (replace (chars "qemu.") [] f)

-- `_vm_agents_for_host` of the files under /run: `loads` says whether there is an agent for the name.
unfoldable pub vm_agents_for_host : (Text → Bool) → List Text → List Text
vm_agents_for_host loads files = filter loads (map name_of_file (sorted (filter is_pid_file files)))

-- `look` is `process_exists` in the context of the VM, which may fail.
unfoldable pub running_vms : (Text → Result Bool) → List Text → Result (List Text)
running_vms look [] = ok []
running_vms look (vm ∷ vms) =
    look vm >>= λ runs. running_vms look vms >>= λ rest. ok (if runs then vm ∷ rest else rest)

-- The answers that are typed, one after another.
unfoldable pub choose : List Text → Result Bool
choose [] = err eof_error
choose (choice ∷ more) =
    let rest = choose more in
    if same choice (chars "yes")
    then ok true
    else (if same choice (chars "no") then ok false else rest)

abbrev pub confirmed : Bool → List Text → Result Bool
confirmed false answers = ok true
confirmed true answers = choose answers

-- The VMs for which "stop" is run; `tty` says whether there is somebody to ask.
unfoldable pub shutdown_all :
    (Text → Bool) → (Text → Result Bool) → Bool → List Text → List Text → Result (List Text)
shutdown_all loads look tty answers files =
    running_vms look (vm_agents_for_host loads files) >>= λ vms. elim vms [
      | [] ↦ ok []
      | vm ∷ more ↦ confirmed tty answers >>= λ agreed. ok (if agreed then vm ∷ more else [])
    ]

-- What `ls` says of each VM: whether it is online. `has_proc` is whether `proc` finds its process.
unfoldable pub ls : (Text → Result Bool) → (Text → Bool) → List Text → Result (List (Text × Bool))
ls look has_proc [] = ok []
ls look has_proc (vm ∷ vms) = look vm >>= λ runs.
    (if runs then (if has_proc vm then ok true else err assertion_error) else ok false)
    >>= λ online. ls look has_proc vms >>= λ rest. ok ((vm, online) ∷ rest)

-- The pattern "qemu.{name}.*", without the lock files. A file of that pattern has the suffix ".lock"
-- where its name ends so. The name of a VM has none of the characters `*`, `?` and `[`, which `glob`
-- reads as patterns.
abbrev pub is_run_file : Text → Text → Bool
is_run_file name f =
    starts_with f (chars "qemu." ++ (name ++ chars ".")) && not (ends_with f (chars ".lock"))

unfoldable pub existing_run_files : Text → List Text → List Text
existing_run_files name files = filter (is_run_file name) files

unfoldable pub unlink : Text → List Text → List Text
unlink f files = filter (λ g. not (same f g)) files

unfoldable pub unlink_all : List Text → List Text → List Text
unlink_all [] files = files
unlink_all (f ∷ fs) files = unlink_all fs (unlink f files)

unfoldable pub clean_run_files : Text → List Text → List Text
clean_run_files name files = unlink_all (existing_run_files name files) files
