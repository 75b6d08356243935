-- ===== src/SysConfig/Throttles.antt =====
-- The throttle sections.
use fc_qemu.Base.{
  In, ◌≡◌, refl, sym, ap, ◌∙◌, inl, inr, Bool, true, false, Bool-cases, Option, none, some, [], ◌∷◌,
  ◌++◌, Result, ok, err, stuck, arith, if◌then◌else◌,
}
use fc_qemu.Util.Text.{Text, ℤ, same}
use fc_qemu.Util.Parse.{Dict, get}
use fc_qemu.Util.Parse.LastWins.{value_in, last_value, get-assign_all, same-path, same_refl}
use fc_qemu.Config.{◌>>=◌}
use fc_qemu.SysConfig.{
  Sections, match, section_match, section_matches_as_dicts, int_items, int_sections, block_throttle,
}
use fc_qemu.SysConfig.Sections.{IsSection, match-IsSection, IsSection-match}

value_none :
    (pool name : Text) (items : Dict Text)
    → ¬ (IsSection pool name)
    → value_in pool (section_match (name, items)) ≡ none
value_none pool name items never = split (match name) refl
  where
    split :
        (o : Option Text)
        → match name ≡ o
        → value_in pool (elim o [ none ↦ none | some p ↦ some (p, items) ]) ≡ none
    split none e = refl
    split (some p) e = elim (Bool-cases (same p pool)) [
      | inl s ↦ elim (never (match-IsSection name pool (e ∙ ap some (same-path p pool s)))) [ ]
      | inr s ↦ rw s refl
    ]

value_some :
    (pool name : Text) (items : Dict Text)
    → IsSection pool name
    → value_in pool (section_match (name, items)) ≡ some items
value_some pool name items h =
    ap (λ o. value_in pool (elim o [ none ↦ none | some p ↦ some (p, items) ]))
      (IsSection-match name pool h)
    ∙ ap (λ b. if b then some items else none) (same_refl pool)

-- The section of the pool that comes last.
pub record IsLast (pool : Text) (items : Dict Text) (sections : Sections) : Type 0 where
  pub name : Text
  pub earlier : Sections
  pub later : Sections
  pub parted : sections ≡ earlier ++ (name, items) ∷ later
  pub for_pool : IsSection pool name
  pub others : (n : Text) (d : Dict Text) → In (n, d) later → ¬ (IsSection pool n)

last_none :
    (pool : Text) (sections : Sections)
    → ((n : Text) (d : Dict Text) → In (n, d) sections → ¬ (IsSection pool n))
    → last_value section_match pool sections ≡ none
unfolding last_value
last_none pool [] never = refl
last_none pool ((n, d) ∷ more) never =
    rw (last_none pool more (λ m e i. never m e (inr i)))
      (value_none pool n d (never n d (inl refl)))

last_some :
    (pool name : Text) (items : Dict Text) (earlier later : Sections)
    → IsSection pool name
    → last_value section_match pool later ≡ none
    → last_value section_match pool (earlier ++ (name, items) ∷ later) ≡ some items
unfolding last_value
last_some pool name items [] later h e = rw e (value_some pool name items h)
last_some pool name items (s ∷ earlier) later h e =
    rw (last_some pool name items earlier later h e) refl

module _ (b : Bool) (x y : Dict Text) (o : Option (Dict Text)) where
  taken : b ≡ true → (if b then some x else o) ≡ some y → x ≡ y
  taken e h = ground (arith, e, h)

  passed : b ≡ false → (if b then some x else o) ≡ some y → o ≡ some y
  passed e h = ground (arith, e, h)

int_sections-get :
    (pool : Text) (items : Dict Text) (sections : Sections) (d : Dict (Dict ℤ))
    → int_sections sections ≡ ok d
    → get pool sections ≡ some items
    → (ns : Dict ℤ) × ((int_items items ≡ ok ns) × (get pool d ≡ some ns))
unfolding int_sections get
int_sections-get pool items [] d h g = cc
int_sections-get pool items ((p, is) ∷ more) d h g =
    split (int_items is) (int_sections more) refl refl h g (int_sections-get pool items more)
  where
    split :
        (a : Result (Dict ℤ)) (b : Result (Dict (Dict ℤ)))
        → int_items is ≡ a
        → int_sections more ≡ b
        → (a >>= λ ns. b >>= λ rest. ok ((p, ns) ∷ rest)) ≡ ok d
        → get pool ((p, is) ∷ more) ≡ some items
        → ((e : Dict (Dict ℤ))
            → int_sections more ≡ ok e
            → get pool more ≡ some items
            → (ns : Dict ℤ) × ((int_items items ≡ ok ns) × (get pool e ≡ some ns)))
        → (ns : Dict ℤ) × ((int_items items ≡ ok ns) × (get pool d ≡ some ns))
    split (ok ns) (ok rest) e f k i ih =
        let whole : (p, ns) ∷ rest ≡ d = ap (λ r. elim r [ ok x ↦ x | _ ↦ [] ]) k in
        rw (← whole) (elim (Bool-cases (same p pool)) [
          | inl s ↦ (ns, (ap int_items (sym (taken _ is items (get pool more) s i)) ∙ e, rw s refl))
          | inr s ↦
              let (ms, (m, g)) = ih rest f (passed _ is items (get pool more) s i) in
              (ms, (m, rw s g))
        ])
    split (ok ns) (err x) e f k i ih = cc
    split (ok ns) stuck e f k i ih = cc
    split (err x) r e f k i ih = cc
    split stuck r e f k i ih = cc

-- Where the throttle sections can be loaded, a pool has the settings of the last section whose name is
-- "block-throttle-" and the name of the pool, with nothing behind it that a pool's name could have.
pub block_throttle-IsLast :
    (sections : Sections) (d : Dict (Dict ℤ)) (pool : Text) (items : Dict Text)
    → block_throttle sections ≡ ok d
    → IsLast pool items sections
    → (ns : Dict ℤ) × ((int_items items ≡ ok ns) × (get pool d ≡ some ns))
unfolding block_throttle section_matches_as_dicts
block_throttle-IsLast sections d pool items h l =
    int_sections-get pool items (section_matches_as_dicts sections) d h (
      get-assign_all section_match pool sections
      ∙ ap (last_value section_match pool) l.parted
      ∙ last_some pool l.name items l.earlier l.later l.for_pool (last_none pool l.later l.others))
