-- ===== src/Util/Parse.antt =====
-- `parse_export_format`, `generate_cloudinit_ssh_keyfile`, `locate_live_service` of util.py, and
-- `valid_rbd_pool_name` of hazmat/ceph.py.
pub mod LastWins
use fc_qemu.Base.{
  ℕ, Bool, true, false, not, ◌&&◌, ◌||◌, Option, none, some, List, [], ◌∷◌, ◌++◌, any, is_empty,
  Result, ok, err, stuck, key_error, runtime_error, if◌then◌else◌, ◌==◌,
}
use fc_qemu.Util.Text.{Text, chars, same, contains, starts_with, is_space, strip, split, splitlines}

-- A dict with texts as keys, in the order of the first insertions.
abbrev pub Dict : Type 0 → Type 0
Dict A = List (Text × A)

module _ {A : Type 0} where
  unfoldable pub get : Text → Dict A → Option A
  get k [] = none
  get k ((j, v) ∷ d) = let rest = get k d in if same j k then some v else rest

  unfoldable pub set : Text → A → Dict A → Dict A
  set k v [] = (k, v) ∷ []
  set k v ((j, w) ∷ d) = let rest = set k v d in if same j k then (j, v) ∷ d else (j, w) ∷ rest

abbrev pub is_quote : ℕ → Bool
is_quote c = c == b'\'' || c == b'"'

-- The key and the value of a line with one "=", if its key is not empty.
unfoldable pub assignment : Text → Option (Text × Text)
assignment line = from_parts (split b'=' (strip is_space line))
  where
    from_parts : List Text → Option (Text × Text)
    from_parts (k ∷ v ∷ []) =
        let key = strip is_space k in if is_empty key then none else some (key, strip is_quote v)
    from_parts _ = none

-- The loop `result[k] = v` over the items that give a key and a value.
unfoldable pub assign_all : {A B : Type 0} → (A → Option (Text × B)) → List A → Dict B → Dict B
assign_all f [] result = result
assign_all f (x ∷ xs) result = elim (f x) [
  | none ↦ assign_all f xs result
  | some (k, v) ↦ assign_all f xs (set k v result)
]

unfoldable pub parse_export_format : Text → Dict Text
parse_export_format text = assign_all assignment (splitlines text) []

-- A user of the directory: the keys, and the permissions in each resource group.
pub record User : Type 0 where
  pub ssh_pubkey : List Text
  pub permissions : Dict (List Text)

abbrev pub is_permitted : List Text → Bool
is_permitted permissions =
    any (λ p. same p (chars "sudo-srv") || same p (chars "manager")) permissions

infix 5 ◌before◌
abbrev ◌before◌ : List Text → Result (List Text) → Result (List Text)
keys before ok more = ok (keys ++ more)
keys before err e = err e
keys before stuck = stuck

-- The keys of those who may log in; a user without the resource group is a KeyError.
unfoldable pub authorized_keys : List User → Text → Result (List Text)
authorized_keys [] resource_group = ok []
authorized_keys (u ∷ users) resource_group =
    let rest = authorized_keys users resource_group in
    elim (get resource_group u.permissions) [
      | none ↦ err key_error
      | some ps ↦ if is_permitted ps then (u.ssh_pubkey before rest) else rest
    ]

-- `sep.join(lines)`
unfoldable pub join : Text → List Text → Text
join sep [] = []
join sep (line ∷ []) = line
join sep (line ∷ next ∷ lines) = line ++ (sep ++ join sep (next ∷ lines))

unfoldable pub generate_cloudinit_ssh_keyfile : List User → Text → Result Text
generate_cloudinit_ssh_keyfile users resource_group = elim (authorized_keys users resource_group) [
  | ok keys ↦ ok (
      chars "### managed by Flying Circus - do not edit! ###\n"
      ++ (join (chars "\n") keys ++ chars "\n"))
  | err e ↦ err e
  | stuck ↦ stuck
]

-- A service that Consul knows, with the status of each of its checks.
pub record Service : Type 0 where
  pub id : ℕ
  pub checks : List Text

-- `passing`: one check passes, and none is critical.
abbrev pub passing : List Text → Bool
passing checks =
    any (λ s. same s (chars "passing")) checks && not (any (λ s. same s (chars "critical")) checks)

abbrev pub live : List Service → List Service
live [] = []
live (svc ∷ services) = let rest = live services in if passing svc.checks then svc ∷ rest else rest

unfoldable pub locate_live_service : List Service → Result (Option ℕ)
locate_live_service services = elim (live services) [
  | [] ↦ ok none
  | svc ∷ [] ↦ ok (some svc.id)
  | _ ↦ err runtime_error
]

unfoldable pub valid_rbd_pool_name : Text → Bool
valid_rbd_pool_name name =
    if same name (chars "rbd")
    then true
    else (if contains name (chars ".rgw.") then false else starts_with name (chars "rbd."))
