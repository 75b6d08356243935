-- ===== src/Routes/Reconciled.antt =====
-- The outcome of `ensure_online_host_routes`.
use fc_qemu.Base.{
  ℕ, ◌≡◌, refl, Bool, true, false, not, ◌&&◌, ◌||◌, Option, none, some, List, [], ◌∷◌, arith, ◌==◌,
}
use fc_qemu.Routes.{
  Route, has, filter, current_routes, without, Ip, each, then_remove, with_routes, reconcile,
}

-- Is there a route to `y` that is not the kernel's?
abbrev pub routed : {T : Type 0} → Ip T → ℕ → T → Bool
routed ip y t = elim (ip.show t) [ none ↦ false | some rs ↦ has y (current_routes rs) ]

-- `ip route add` and `ip route del` that succeed do what they say, to the route that is named.
pub record Works {T : Type 0} (ip : Ip T) : Type 0 where
  pub adds :
      (x y : ℕ) (t t' : T) → ip.add x t ≡ some t' → routed ip y t' ≡ (routed ip y t || x == y)
  pub dels :
      (x y : ℕ) (t t' : T) → ip.del x t ≡ some t' → routed ip y t' ≡ (routed ip y t && not (x == y))

has-filter : (p : ℕ → Bool) (y : ℕ) (xs : List ℕ) → has y (filter p xs) ≡ (has y xs && p y)
has-filter p y [] = refl
has-filter p y (x ∷ xs) = ground (arith, has-filter p y xs)

module _ {T : Type 0} (ip : Ip T) (works : Works ip) where
  each_add :
      (xs : List ℕ) (y : ℕ) (t : T)
      → (each ip ip.add xs t).1 ≡ true
      → routed ip y (each ip ip.add xs t).0 ≡ (routed ip y t || has y xs)
  unfolding each
  each_add [] y t h = ground arith
  each_add (x ∷ xs) y t h = split (ip.add x t) refl h (λ t'. each_add xs y t')
    where
      split :
          (o : Option T)
          → ip.add x t ≡ o
          → (elim o as (λ _. T × Bool) [ none ↦ (t, false) | some t' ↦ each ip ip.add xs t' ]).1
            ≡ true
          → ((t' : T)
              → (each ip ip.add xs t').1 ≡ true
              → routed ip y (each ip ip.add xs t').0 ≡ (routed ip y t' || has y xs))
          → routed ip y
              (elim o as (λ _. T × Bool) [ none ↦ (t, false) | some t' ↦ each ip ip.add xs t' ]).0
            ≡ (routed ip y t || has y (x ∷ xs))
      split none e h rest = absurd cc
      split (some t') e h rest = ground (arith, rest t' h, works.adds x y t t' e)

  each_del :
      (xs : List ℕ) (y : ℕ) (t : T)
      → (each ip ip.del xs t).1 ≡ true
      → routed ip y (each ip ip.del xs t).0 ≡ (routed ip y t && not (has y xs))
  unfolding each
  each_del [] y t h = ground arith
  each_del (x ∷ xs) y t h = split (ip.del x t) refl h (λ t'. each_del xs y t')
    where
      split :
          (o : Option T)
          → ip.del x t ≡ o
          → (elim o as (λ _. T × Bool) [ none ↦ (t, false) | some t' ↦ each ip ip.del xs t' ]).1
            ≡ true
          → ((t' : T)
              → (each ip ip.del xs t').1 ≡ true
              → routed ip y (each ip ip.del xs t').0 ≡ (routed ip y t' && not (has y xs)))
          → routed ip y
              (elim o as (λ _. T × Bool) [ none ↦ (t, false) | some t' ↦ each ip ip.del xs t' ]).0
            ≡ (routed ip y t && not (has y (x ∷ xs)))
      split none e h rest = absurd cc
      split (some t') e h rest = ground (arith, rest t' h, works.dels x y t t' e)

  removed :
      (target : List ℕ) (t : T) (rs : List Route) (y : ℕ) (x : T × Bool)
      → ip.show t ≡ some rs
      → (x.1 ≡ true
          → routed ip y x.0 ≡ (routed ip y t || has y (without target (current_routes rs))))
      → (then_remove ip (without (current_routes rs) target) x).1 ≡ true
      → routed ip y (then_remove ip (without (current_routes rs) target) x).0 ≡ has y target
  removed target t rs y (t', true) e added h =
      let before : routed ip y t ≡ has y (current_routes rs) = rw (e, routed) refl in
      ground (
        arith,
        before,
        added refl,
        each_del (without (current_routes rs) target) y t' h,
        has-filter (λ x. not (has x (current_routes rs))) y target,
        has-filter (λ x. not (has x target)) y (current_routes rs),
      )
  removed target t rs y (t', false) e added h = absurd cc

  -- A run in which no command fails leaves exactly the routes of the target, but for the kernel's,
  -- where `ip` does what it says.
  pub reconcile-routed :
      (target : List ℕ) (t : T)
      → (reconcile ip target t).1 ≡ true
      → (y : ℕ) → routed ip y (reconcile ip target t).0 ≡ has y target
  unfolding reconcile
  reconcile-routed target t h y = split (ip.show t) refl h
    where
      split :
          (o : Option (List Route))
          → ip.show t ≡ o
          → (with_routes ip target t o).1 ≡ true
          → routed ip y (with_routes ip target t o).0 ≡ has y target
      split none e h = absurd cc
      split (some rs) e h =
          removed target t rs y (each ip ip.add (without target (current_routes rs)) t) e
            (each_add (without target (current_routes rs)) y t) h
