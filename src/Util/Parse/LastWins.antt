-- ===== src/Util/Parse/LastWins.antt =====
-- `parse_export_format` as a map from keys to values.
use fc_qemu.Base.{◌≡◌, refl, ◌∙◌, true, Option, none, some, List, [], ◌∷◌, arith, if◌then◌else◌}
use fc_qemu.Util.Text.{Text, same, splitlines}
use fc_qemu.Util.Parse.{Dict, get, set, assignment, assign_all, parse_export_format}

pub same_refl : (s : Text) → same s s ≡ true
same_refl [] = refl
same_refl (c ∷ s) = ground (arith, same_refl s)

pub same-path : (s t : Text) → same s t ≡ true → s ≡ t
same-path [] [] h = refl
same-path (c ∷ s) (d ∷ t) h = ground (arith, same-path s t)
same-path [] (d ∷ t) h = ground arith
same-path (c ∷ s) [] h = ground arith

get-set :
    {A : Type 0} (j k : Text) (v : A) (d : Dict A)
    → get k (set j v d) ≡ (if same j k then some v else get k d)
unfolding get set
get-set j k v [] = refl
get-set j k v ((i, w) ∷ d) = ground (
  arith,
  get-set j k v d,
  same-path i j,
  same-path i k,
  same-path j k,
  same_refl i,
  same_refl j,
  same_refl k,
)

-- The value that an item gives to `k`.
abbrev pub value_in : {B : Type 0} → Text → Option (Text × B) → Option B
value_in k none = none
value_in k (some (j, v)) = if same j k then some v else none

abbrev or_else : {B : Type 0} → Option B → Option B → Option B
or_else none e = e
or_else (some v) e = some v

or_else-none : {B : Type 0} (o : Option B) → or_else o none ≡ o
or_else-none none = refl
or_else-none (some v) = refl

module _ {A B : Type 0} (f : A → Option (Text × B)) where
  -- The value that the last of the items with the key `k` gives to it.
  unfoldable pub last_value : Text → List A → Option B
  last_value k [] = none
  last_value k (x ∷ xs) = elim (last_value k xs) [ none ↦ value_in k (f x) | some v ↦ some v ]

  -- One item of the loop, of which the rest is `xs`.
  get-item :
      (k : Text) (xs : List A) (d : Dict B)
      → ((d' : Dict B) → get k (assign_all f xs d') ≡ or_else (last_value k xs) (get k d'))
      → (o : Option (Text × B))
      → get k (elim o [ none ↦ assign_all f xs d | some (j, v) ↦ assign_all f xs (set j v d) ])
        ≡ or_else (elim (last_value k xs) [ none ↦ value_in k o | some v ↦ some v ]) (get k d)
  get-item k xs d rest none = ground (arith, rest d)
  get-item k xs d rest (some (j, v)) = ground (arith, rest (set j v d), get-set j k v d)

  get-assign_from :
      (k : Text) (xs : List A) (d : Dict B)
      → get k (assign_all f xs d) ≡ or_else (last_value k xs) (get k d)
  unfolding assign_all last_value
  get-assign_from k [] d = refl
  get-assign_from k (x ∷ xs) d = get-item k xs d (get-assign_from k xs) (f x)

  pub get-assign_all : (k : Text) (xs : List A) → get k (assign_all f xs []) ≡ last_value k xs
  unfolding get
  get-assign_all k xs = get-assign_from k xs [] ∙ or_else-none (last_value k xs)

-- A key has the value of the last line that gives it one, and no value where there is no such line.
pub get-parse_export_format :
    (k s : Text) → get k (parse_export_format s) ≡ last_value assignment k (splitlines s)
unfolding parse_export_format
get-parse_export_format k s = get-assign_all assignment k (splitlines s)
