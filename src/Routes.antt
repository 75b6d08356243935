-- ===== src/Routes.antt =====
-- The host routes of a VM: `ensure_online_host_routes` of class Agent in agent.py, for one network.
-- Addresses are numbers. The command `ip` is a parameter.
pub mod Reconciled
use fc_qemu.Base.{
  ℕ, Bool, true, false, not, ◌&&◌, ◌||◌, ◌≡◌, Option, none, some, List, [], ◌∷◌, any, ◌==◌,
  if◌then◌else◌,
}

pub record Route : Type 0 where
  pub dst : ℕ
  pub by_kernel : Bool

abbrev pub has : ℕ → List ℕ → Bool
has y xs = any (λ x. x == y) xs

abbrev pub filter {ℓ} : {A : Type ℓ} → (A → Bool) → List A → List A
filter p [] = []
filter p (x ∷ xs) = if p x then x ∷ filter p xs else filter p xs

-- `current_routes`, without those of the kernel.
abbrev pub current_routes : List Route → List ℕ
current_routes [] = []
current_routes (r ∷ rs) = if r.by_kernel then current_routes rs else r.dst ∷ current_routes rs

-- `target_routes - current_routes`, and the like.
abbrev pub without : List ℕ → List ℕ → List ℕ
without xs ys = filter (λ x. not (has x ys)) xs

-- `ip route` on the device: what it shows, and the routes after an add or a delete, or none where the
-- command fails.
pub record Ip (T : Type 0) : Type 0 where
  pub show : T → Option (List Route)
  pub add : ℕ → T → Option T
  pub del : ℕ → T → Option T

module _ {T : Type 0} (ip : Ip T) where
  -- A command for each of the routes, up to the first that fails; the routes then, and whether all went
  -- well.
  unfoldable pub each : (ℕ → T → Option T) → List ℕ → T → T × Bool
  each f [] t = (t, true)
  each f (x ∷ xs) t = elim (f x t) [ none ↦ (t, false) | some t' ↦ each f xs t' ]

  abbrev pub then_remove : List ℕ → T × Bool → T × Bool
  then_remove remove (t, true) = each ip.del remove t
  then_remove remove (t, false) = (t, false)

  abbrev pub with_routes : List ℕ → T → Option (List Route) → T × Bool
  with_routes target t none = (t, false)
  with_routes target t (some routes) =
      let current = current_routes routes in
      then_remove (without current target) (each ip.add (without target current) t)

  -- The `try` of the loop over the networks: the routes after it, and false where a command failed.
  unfoldable pub reconcile : List ℕ → T → T × Bool
  reconcile target t = with_routes target t (ip.show t)
