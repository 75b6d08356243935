-- ===== src/SysConfig/Sections.antt =====
-- The names of the throttle sections.
use fc_qemu.Base.{
  ◌≡◌, refl, sym, ap, ◌∙◌, inl, inr, true, false, Bool-cases, Option, none, some, [], ◌∷◌, ◌++◌,
  all, is_empty, ◌==◌, ==_iff, arith,
}
use fc_qemu.Util.Text.{Text}
use fc_qemu.SysConfig.{is_pool_char, pool_chars, after, throttle_prefix, group, match}

-- A rest of a name that starts with no character of a pool.
abbrev pub Ends : Text → Type 0
Ends [] = Unit
Ends (c ∷ s) = is_pool_char c ≡ false

-- The section with this name is for the pool.
pub record IsSection (pool name : Text) : Type 0 where
  pub rest : Text
  pub parts : name ≡ throttle_prefix ++ (pool ++ rest)
  pub plain : all is_pool_char pool ≡ true
  pub filled : is_empty pool ≡ false
  pub ends : Ends rest

after-append : (w s : Text) → after w (w ++ s) ≡ some s
unfolding after
after-append [] s = refl
after-append (d ∷ w) s = ground (arith, after-append w s)

append-after : (w s t : Text) → after w s ≡ some t → s ≡ w ++ t
unfolding after
append-after [] s t h = ground arith
append-after (d ∷ w) [] t h = cc
append-after (d ∷ w) (c ∷ s) t h = elim (Bool-cases (c == d)) [
  | inl e ↦ rw ((==_iff c d).0 e) (ap (λ x. d ∷ x) (append-after w s t (ground (arith, h, e))))
  | inr e ↦ ground (arith, h, e)
]

pool_chars-append :
    (pool rest : Text) → all is_pool_char pool ≡ true → Ends rest → pool_chars (pool ++ rest) ≡ pool
unfolding pool_chars
pool_chars-append [] [] h e = refl
pool_chars-append [] (c ∷ s) h e = ground (arith, e)
pool_chars-append (c ∷ pool) rest h e = ground (arith, pool_chars-append pool rest)

-- The longest start with characters of a pool.
pool_parts :
    (s : Text)
    → (rest : Text) × ((s ≡ pool_chars s ++ rest)
        × ((all is_pool_char (pool_chars s) ≡ true) × Ends rest))
unfolding pool_chars
pool_parts [] = ([], (refl, (refl, tt)))
pool_parts (c ∷ s) = elim (Bool-cases (is_pool_char c)) [
  | inl e ↦
      let (rest, (p, (q, r))) = pool_parts s in
      rw e (rest, (ap (λ x. c ∷ x) p, (ground (arith, e, q), r)))
  | inr e ↦ rw e (c ∷ s, (refl, (refl, e)))
]

group_of : (s pool : Text) → pool_chars s ≡ pool → is_empty pool ≡ false → group s ≡ some pool
group_of s [] e f = cc
group_of s (c ∷ pool) e f = rw (group, e) refl

group_whole :
    (pool s : Text) → group s ≡ some pool → (pool_chars s ≡ pool) × (is_empty pool ≡ false)
group_whole pool s h = split (pool_chars s) h
  where
    split :
        (t : Text)
        → ◌≡◌ {A = Option Text} (elim t [ [] ↦ none | c ∷ cs ↦ some (c ∷ cs) ]) (some pool)
        → (t ≡ pool) × (is_empty pool ≡ false)
    split [] e = cc
    split (c ∷ cs) e =
        let p : c ∷ cs ≡ pool = ap (λ o. elim o [ none ↦ [] | some x ↦ x ]) e in
        (p, ap is_empty (sym p))

match_parts :
    (s pool : Text)
    → match s ≡ some pool
    → (t : Text) × ((after throttle_prefix s ≡ some t) × (group t ≡ some pool))
unfolding match
match_parts s pool h = split (after throttle_prefix s) refl h
  where
    split :
        (o : Option Text)
        → after throttle_prefix s ≡ o
        → ◌≡◌ {A = Option Text} (elim o [ none ↦ none | some rest ↦ group rest ]) (some pool)
        → (t : Text) × ((after throttle_prefix s ≡ some t) × (group t ≡ some pool))
    split none e k = cc
    split (some t) e k = (t, (e, k))

-- The pattern, told without its matching.
pub match-IsSection : (s pool : Text) → match s ≡ some pool → IsSection pool s
match-IsSection s pool h =
    let (t, (a, g)) = match_parts s pool h in
    let (p, f) = group_whole pool t g in
    let (rest, (parts, (plain, ends))) = pool_parts t in
    record {
      rest = rest;
      parts =
          append-after throttle_prefix s t a
          ∙ ap (λ x. throttle_prefix ++ x) (parts ∙ ap (λ x. x ++ rest) p);
      plain = ap (all is_pool_char) (sym p) ∙ plain;
      filled = f;
      ends = ends;
    }

match_of :
    (s t pool : Text) → after throttle_prefix s ≡ some t → group t ≡ some pool → match s ≡ some pool
unfolding match
match_of s t pool e g = ap (λ o. elim o [ none ↦ none | some rest ↦ group rest ]) e ∙ g

pub IsSection-match : (s pool : Text) → IsSection pool s → match s ≡ some pool
IsSection-match s pool h = rw (h.parts) (
    match_of (throttle_prefix ++ (pool ++ h.rest)) (pool ++ h.rest) pool
      (after-append throttle_prefix (pool ++ h.rest))
      (group_of (pool ++ h.rest) pool (pool_chars-append pool h.rest h.plain h.ends) h.filled))
