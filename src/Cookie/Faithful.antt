-- ===== src/Cookie/Faithful.antt =====
-- Two hosts that hash the same text see the same locks.
use mathlib.Core.List.{append_assoc}
use fc_qemu.Base.{
  ◌≡◌, refl, sym, ap, ◌∙◌, true, false, Option, none, some, List, [], ◌∷◌, ◌++◌, map, All, arith,
}
use fc_qemu.Util.Text.{Text}
use fc_qemu.Util.Address.RoundTrip.{Lacks}
use fc_qemu.Util.Parse.LastWins.{same_refl}
use fc_qemu.Config.Words.Members.{has}
use fc_qemu.Cookie.{Lock, Locked, terminated, hashed}

-- A lock without zeros whose client is called like none of the volumes.
pub record IsForeign (names : List Text) (l : Lock) : Type 0 where
  pub client : Lacks 0 l.client
  pub id : Lacks 0 l.id
  pub other : has l.client names ≡ false

abbrev pub ForeignOption : List Text → Option Lock → Type 0
ForeignOption names none = Unit
ForeignOption names (some l) = IsForeign names l

-- A volume whose name has no zeros, with such a lock, if any.
abbrev pub IsPlain : List Text → Locked → Type 0
IsPlain names v = Lacks 0 v.name × ForeignOption names v.lock

-- The first fields of two texts.
first_field : (s t a b : Text) → Lacks 0 s → Lacks 0 t → s ++ 0 ∷ a ≡ t ++ 0 ∷ b → (s ≡ t) × (a ≡ b)
first_field [] [] a b h k e = (refl, ground (arith, e))
first_field [] (d ∷ t) a b h k e = ground (arith, k, e)
first_field (c ∷ s) [] a b h k e = ground (arith, h, e)
first_field (c ∷ s) (d ∷ t) a b h k e = ground (arith, first_field s t a b, h, k, e)

-- What comes behind the name.
abbrev behind : Option Lock → Text → Text
behind none a = a
behind (some l) a = l.client ++ 0 ∷ (l.id ++ 0 ∷ a)

opened : (v : Locked) (vs : List Locked) → hashed (v ∷ vs) ≡ v.name ++ 0 ∷ behind v.lock (hashed vs)
unfolding hashed terminated
opened v vs = go v.lock
  where
    go :
        (o : Option Lock)
        → terminated (elim o [ none ↦ v.name ∷ [] | some l ↦ v.name ∷ l.client ∷ l.id ∷ [] ])
            ++ hashed vs
          ≡ v.name ++ 0 ∷ behind o (hashed vs)
    go none = append_assoc v.name (0 ∷ []) (hashed vs)
    go (some l) =
        append_assoc v.name (0 ∷ (l.client ++ 0 ∷ (l.id ++ 0 ∷ []))) (hashed vs)
        ∙ ap (λ t. v.name ++ 0 ∷ t)
            (append_assoc l.client (0 ∷ (l.id ++ 0 ∷ [])) (hashed vs)
              ∙ ap (λ t. l.client ++ 0 ∷ t) (append_assoc l.id (0 ∷ []) (hashed vs)))

nothing : (s b : Text) → hashed [] ≡ s ++ 0 ∷ b → ⊥
unfolding hashed
nothing [] b k = cc
nothing (c ∷ s) b k = cc

-- No lock is taken for the volumes that come next.
no_lock :
    (names : List Text) (vs : List Locked) (l : Lock) (b : Text)
    → IsForeign names l
    → All (IsPlain names) vs
    → All (λ v. has v.name names ≡ true) vs
    → hashed vs ≡ l.client ++ 0 ∷ b
    → ⊥
no_lock names [] l b f p i e = nothing l.client b e
no_lock names (v ∷ vs) l b f p i e =
    let same_name : v.name ≡ l.client =
      (first_field v.name l.client (behind v.lock (hashed vs)) b p.0.0 f.client
        (sym (opened v vs) ∙ e)).0 in
    clash (ap (λ t. has t names) same_name ∙ f.other) i.0
  where
    clash : has v.name names ≡ false → has v.name names ≡ true → ⊥
    clash x y = cc

-- Plain volumes with names that are among the names.
abbrev Among : List Text → List Locked → Type 0
Among names vs = All (IsPlain names) vs × All (λ v. has v.name names ≡ true) vs

locks_agree :
    (names : List Text) (l m : Option Lock) (vs ws : List Locked)
    → ForeignOption names l
    → ForeignOption names m
    → Among names vs
    → Among names ws
    → behind l (hashed vs) ≡ behind m (hashed ws)
    → (l ≡ m) × (hashed vs ≡ hashed ws)
locks_agree names none none vs ws f g p q e = (refl, e)
locks_agree names none (some m) vs ws f g p q e =
    absurd (no_lock names vs m (m.id ++ 0 ∷ hashed ws) g p.0 p.1 e)
locks_agree names (some l) none vs ws f g p q e =
    absurd (no_lock names ws l (l.id ++ 0 ∷ hashed vs) f q.0 q.1 (sym e))
locks_agree names (some l) (some m) vs ws f g p q e =
    let (c, r) =
      first_field l.client m.client (l.id ++ 0 ∷ hashed vs) (m.id ++ 0 ∷ hashed ws) f.client
        g.client e in
    let (d, t) = first_field l.id m.id (hashed vs) (hashed ws) f.id g.id r in (same_lock c d, t)
  where
    same_lock : l.client ≡ m.client → l.id ≡ m.id → some l ≡ some m
    same_lock c d =
        ap (λ t. some (record l { client = t })) c ∙ ap (λ t. some (record m { id = t })) d

all_agree :
    (names : List Text) (vs ws : List Locked)
    → Among names vs
    → Among names ws
    → map (λ v. v.name) vs ≡ map (λ v. v.name) ws
    → hashed vs ≡ hashed ws
    → map (λ v. v.lock) vs ≡ map (λ v. v.lock) ws
all_agree names [] [] p q n e = refl
all_agree names [] (w ∷ ws) p q n e = cc
all_agree names (v ∷ vs) [] p q n e = cc
all_agree names (v ∷ vs) (w ∷ ws) p q n e =
    let k =
      first_field v.name w.name (behind v.lock (hashed vs)) (behind w.lock (hashed ws)) p.0.0.0
        q.0.0.0 (sym (opened v vs) ∙ e ∙ opened w ws) in
    let (l, r) =
      locks_agree names v.lock w.lock vs ws p.0.0.1 q.0.0.1 (p.0.1, p.1.1) (q.0.1, q.1.1) k.1 in
    rw l
      (ap (λ ls. w.lock ∷ ls) (all_agree names vs ws (p.0.1, p.1.1) (q.0.1, q.1.1) (ap tail n) r))
  where
    tail : List Text → List Text
    tail [] = []
    tail (t ∷ ts) = ts

has_last : (t : Text) (before after : List Text) → has t (before ++ t ∷ after) ≡ true
has_last t [] after = ground (arith, same_refl t)
has_last t (b ∷ before) after = ground (arith, has_last t before after)

own_names :
    (names before : List Text) (vs : List Locked)
    → names ≡ before ++ map (λ v. v.name) vs
    → All (λ v. has v.name names ≡ true) vs
own_names names before [] e = tt
own_names names before (v ∷ vs) e = (
  ap (has v.name) e ∙ has_last v.name before (map (λ u. u.name) vs),
  own_names names (before ++ v.name ∷ []) vs
      (e ∙ sym (append_assoc before (v.name ∷ []) (map (λ u. u.name) vs))),
)

-- Two hosts that hash the same text for the same volumes see the same locks, where neither names nor locks have zeros,
-- and no client is called like a volume.
pub hashed-Faithful :
    (vs ws : List Locked)
    → map (λ v. v.name) vs ≡ map (λ v. v.name) ws
    → All (IsPlain (map (λ v. v.name) vs)) vs
    → All (IsPlain (map (λ v. v.name) vs)) ws
    → hashed vs ≡ hashed ws
    → map (λ v. v.lock) vs ≡ map (λ v. v.lock) ws
hashed-Faithful vs ws n p q e =
    all_agree (map (λ v. v.name) vs) vs ws (p, own_names (map (λ v. v.name) vs) [] vs refl)
      (q, own_names (map (λ v. v.name) vs) [] ws n) n e
