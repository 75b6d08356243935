-- ===== src/CpuScan/Variations.antt =====
-- Which variations of the CPU models are tried, and which are reported.
use fc_qemu.Base.{
  ℕ, zero, suc, ◌≤◌, ◌≡◌, refl, sym, ap, ◌∙◌, ◌↔◌, Bool, true, false, List, [], ◌∷◌, ◌++◌, map, ◌⊎◌,
  inl, inr, arith, length, Bool-cases, leb, In, In-append_left, In-append_right, In-append_cases,
  In-map, In-map_cases, if◌then◌else◌,
}
use fc_qemu.Util.Text.{Text, chars}
use fc_qemu.CpuScan.{
  CpuHost, combinations, combinations_to, Variation, new_variation, cpu_arg, variations, valid,
  scan_cpus,
}

-- The first list has some of the texts of the second, in its order.
pub data Part : List Text → List Text → Type 0 where
  done : Part [] []
  taken : (f : Text) {fs gs : List Text} → Part fs gs → Part (f ∷ fs) (f ∷ gs)
  left : (f : Text) {fs gs : List Text} → Part fs gs → Part fs (f ∷ gs)

nothing : (gs : List Text) → Part [] gs
nothing [] = done
nothing (g ∷ gs) = left g (nothing gs)

Part-combinations :
    (flags : List Text) (n : ℕ) (fs : List Text) → In fs (combinations flags n) → Part fs flags
unfolding combinations
Part-combinations [] zero fs (inl e) = rw e done
Part-combinations [] zero fs (inr h) = elim h [ ]
Part-combinations (f ∷ flags) zero fs (inl e) = rw e (nothing (f ∷ flags))
Part-combinations (f ∷ flags) zero fs (inr h) = elim h [ ]
Part-combinations [] (suc n) fs h = elim h [ ]
Part-combinations (f ∷ flags) (suc n) fs h =
    go (In-append_cases fs _ (combinations flags (suc n)) h) (Part-combinations flags n)
      (Part-combinations flags (suc n))
  where
    go :
        In fs (map (λ x. f ∷ x) (combinations flags n)) ⊎ In fs (combinations flags (suc n))
        → ((x : List Text) → In x (combinations flags n) → Part x flags)
        → ((x : List Text) → In x (combinations flags (suc n)) → Part x flags)
        → Part fs (f ∷ flags)
    go (inl m) p q =
        let (x, (i, e)) = In-map_cases (λ (x : List Text). f ∷ x) fs (combinations flags n) m in
        rw e (taken f (p x i))
    go (inr r) p q = left f (q fs r)

empty-combinations : (flags : List Text) → combinations flags zero ≡ [] ∷ []
unfolding combinations
empty-combinations [] = refl
empty-combinations (f ∷ flags) = refl

combinations-Part : {fs flags : List Text} → Part fs flags → In fs (combinations flags (length fs))
unfolding combinations
combinations-Part done = inl refl
combinations-Part (taken f {fs} {gs} p) =
    In-append_left (f ∷ fs) _ (combinations gs (suc (length fs)))
      (In-map (λ (x : List Text). f ∷ x) fs (combinations gs (length fs)) (combinations-Part p))
combinations-Part (left f {fs} {gs} p) = skip fs (combinations-Part p)
  where
    skip :
        (xs : List Text)
        → In xs (combinations gs (length xs))
        → In xs (combinations (f ∷ gs) (length xs))
    skip [] h = inl refl
    skip (x ∷ xs) h =
        In-append_right (x ∷ xs) (map (λ y. f ∷ y) (combinations gs (length xs)))
          (combinations gs (suc (length xs))) h

length-Part : {fs flags : List Text} → Part fs flags → length fs ≤ length flags
length-Part done = omega arith
length-Part (taken f p) = omega (arith, length-Part p)
length-Part (left f p) = omega (arith, length-Part p)

leq-cases : (k n : ℕ) → k ≤ suc n → (k ≤ n) ⊎ (k ≡ suc n)
leq-cases k n h = elim (Bool-cases (leb k n)) [
  | inl e ↦ inl (ground (arith, e))
  | inr e ↦ inr (ground (arith, e))
]

In-combinations_to :
    (flags fs : List Text) (k n : ℕ)
    → k ≤ n
    → In fs (combinations flags k)
    → In fs (combinations_to flags n)
unfolding combinations_to
In-combinations_to flags fs zero zero h i = i
In-combinations_to flags fs (suc k) zero h i = absurd (omega (arith, h))
In-combinations_to flags fs k (suc n) h i = elim (leq-cases k n h) [
  | inl l ↦
      In-append_left fs (combinations_to flags n) (combinations flags (suc n))
        (In-combinations_to flags fs k n l i)
  | inr e ↦ In-append_right fs (combinations_to flags n) (combinations flags (suc n)) (rw (sym e) i)
]

combinations_to_cases :
    (flags fs : List Text) (n : ℕ) → In fs (combinations_to flags n) → Part fs flags
unfolding combinations_to
combinations_to_cases flags fs zero i = Part-combinations flags zero fs i
combinations_to_cases flags fs (suc n) i =
    elim (In-append_cases fs (combinations_to flags n) (combinations flags (suc n)) i) [
      | inl l ↦ combinations_to_cases flags fs n l
      | inr r ↦ Part-combinations flags (suc n) fs r
    ]

In-variations :
    (ms : List Text) (combos : List (List Text)) (m : Text) (fs : List Text)
    → In m ms
    → In fs combos
    → In (new_variation m fs) (variations ms combos)
unfolding variations
In-variations [] combos m fs h i = elim h [ ]
In-variations (x ∷ ms) combos m fs (inl e) i =
    In-append_left (new_variation m fs) (map (new_variation x) combos) (variations ms combos)
      (rw (e) (In-map (new_variation x) fs combos i))
In-variations (x ∷ ms) combos m fs (inr h) i =
    In-append_right (new_variation m fs) (map (new_variation x) combos) (variations ms combos)
      (In-variations ms combos m fs h i)

-- A variation of one of the models by one of the sets of flags.
abbrev pub IsVariation : List Text → (List Text → Type 0) → Variation → Type 0
IsVariation models P v =
    (m : Text) × (In m models × ((fs : List Text) × (P fs × (v ≡ new_variation m fs))))

variations_cases :
    (ms : List Text) (combos : List (List Text)) (v : Variation)
    → In v (variations ms combos)
    → IsVariation ms (λ fs. In fs combos) v
unfolding variations
variations_cases [] combos v h = elim h [ ]
variations_cases (m ∷ ms) combos v h =
    go (In-append_cases v (map (new_variation m) combos) (variations ms combos) h)
      (variations_cases ms combos v)
  where
    go :
        In v (map (new_variation m) combos) ⊎ In v (variations ms combos)
        → (In v (variations ms combos) → IsVariation ms (λ fs. In fs combos) v)
        → IsVariation (m ∷ ms) (λ fs. In fs combos) v
    go (inl l) rest =
        let (fs, (i, e)) = In-map_cases (new_variation m) v combos l in
        (m, (inl refl, (fs, (i, e))))
    go (inr r) rest = let (x, (i, q)) = rest r in (x, (inr i, q))

In-valid :
    (accepts : Text → Bool) (v : Variation) (vs : List Variation)
    → In v vs
    → accepts (cpu_arg v ++ chars ",enforce") ≡ true
    → In v (valid accepts vs)
unfolding valid
In-valid accepts v [] h a = elim h [ ]
In-valid accepts v (x ∷ vs) (inl e) a =
    rw (sym (ap (λ y. accepts (cpu_arg y ++ chars ",enforce")) e), a) (inl e)
In-valid accepts v (x ∷ vs) (inr h) a =
    go (accepts (cpu_arg x ++ chars ",enforce")) (In-valid accepts v vs h a)
  where
    go :
        (b : Bool)
        → In v (valid accepts vs)
        → In v (if b then x ∷ valid accepts vs else valid accepts vs)
    go true i = inr i
    go false i = i

valid_cases :
    (accepts : Text → Bool) (v : Variation) (vs : List Variation)
    → In v (valid accepts vs)
    → In v vs × (accepts (cpu_arg v ++ chars ",enforce") ≡ true)
unfolding valid
valid_cases accepts v [] h = elim h [ ]
valid_cases accepts v (x ∷ vs) h =
    go (accepts (cpu_arg x ++ chars ",enforce")) refl h (valid_cases accepts v vs)
  where
    go :
        (b : Bool)
        → accepts (cpu_arg x ++ chars ",enforce") ≡ b
        → In v (if b then x ∷ valid accepts vs else valid accepts vs)
        → (In v (valid accepts vs) → In v vs × (accepts (cpu_arg v ++ chars ",enforce") ≡ true))
        → In v (x ∷ vs) × (accepts (cpu_arg v ++ chars ",enforce") ≡ true)
    go true e (inl q) rest = (inl q, ap (λ y. accepts (cpu_arg y ++ chars ",enforce")) q ∙ e)
    go true e (inr i) rest = let (j, a) = rest i in (inr j, a)
    go false e i rest = let (j, a) = rest i in (inr j, a)

-- The scan reports a variation exactly where it is one of the host's models by a part of the host's flags, and Qemu
-- runs with it.
pub scan_cpus_complete :
    (accepts : Text → Bool) (host : CpuHost) (v : Variation)
    → In v (scan_cpus accepts host)
      ↔ IsVariation host.cpu_models (λ fs. Part fs host.bug_flags) v
        × (accepts (cpu_arg v ++ chars ",enforce") ≡ true)
unfolding scan_cpus
scan_cpus_complete accepts host v = (forth, back)
  where
    all : List (List Text)
    all = combinations_to host.bug_flags (length host.bug_flags)

    forth :
        In v (scan_cpus accepts host)
        → IsVariation host.cpu_models (λ fs. Part fs host.bug_flags) v
          × (accepts (cpu_arg v ++ chars ",enforce") ≡ true)
    forth i =
        let (j, a) = valid_cases accepts v (variations host.cpu_models all) i in
        let (m, (k, (fs, (l, e)))) = variations_cases host.cpu_models all v j in
        ((m, (k, (fs, (combinations_to_cases host.bug_flags fs (length host.bug_flags) l, e)))), a)

    back :
        IsVariation host.cpu_models (λ fs. Part fs host.bug_flags) v
          × (accepts (cpu_arg v ++ chars ",enforce") ≡ true)
        → In v (scan_cpus accepts host)
    back ((m, (k, (fs, (p, e)))), a) =
        In-valid accepts v (variations host.cpu_models all)
          (rw e (
            In-variations host.cpu_models all m fs k (
              In-combinations_to host.bug_flags fs (length fs) (length host.bug_flags)
                (length-Part p) (combinations-Part p))))
          a
