-- ===== src/SysConfig/Hooks.antt =====
-- The network hooks of a host serve its VMs.
use fc_qemu.Base.{
  ◌≡◌, refl, ap, ◌∙◌, inl, inr, Bool, true, false, Bool-cases, Option, none, some, List, [], ◌∷◌,
  ◌++◌, Result, ok, arith, if◌then◌else◌,
}
use fc_qemu.Util.Text.{Text, chars, same, lstrip}
use fc_qemu.Util.Parse.{Dict, get}
use fc_qemu.Util.Parse.LastWins.{last_value, get-assign_all, same-path, same_refl}
use fc_qemu.Config.Template.{format, render}
use fc_qemu.Config.{◌>>=◌, Interface, Settings, net_template, at, netconfig, network, sorted}
use fc_qemu.SysConfig.{hook, is_tap, network_hooks}

-- The section has the four hooks.
pub record HasHooks (items : Dict Text) : Type 0 where
  pub bridge_up : (path : Text) × (get (chars "tap-ifup-bridge") items ≡ some path)
  pub bridge_down : (path : Text) × (get (chars "tap-ifdown-bridge") items ≡ some path)
  pub vrf_up : (path : Text) × (get (chars "tap-ifup-vrf") items ≡ some path)
  pub vrf_down : (path : Text) × (get (chars "tap-ifdown-vrf") items ≡ some path)

-- Some value.
abbrev Has : {A : Type 0} → Option A → Type 0
Has {A} o = (a : A) × (o ≡ some a)

last_hook :
    (k : Text) (items : Dict Text)
    → Has (get k items)
    → Has (last_value hook (lstrip is_tap k) items)
unfolding get last_value
last_hook k [] (v, h) = cc
last_hook k ((j, path) ∷ items) (v, h) =
    behind (last_value hook (lstrip is_tap k) items) (last_hook k items)
  where
    behind :
        (o : Option Text)
        → (Has (get k items) → Has o)
        → Has (elim o [
          | none ↦ (if same (lstrip is_tap j) (lstrip is_tap k) then some path else none)
          | some w ↦ some w
        ])
    behind (some w) rest = (w, refl)
    behind none rest = elim (Bool-cases (same j k)) [
      | inl e ↦ (path, rw (same-path j k e) (rw (same_refl (lstrip is_tap k)) refl))
      | inr e ↦ let (w, p) = rest (v, ground (arith, e, h)) in cc
    ]

found :
    (k : Text) (items : Dict Text)
    → Has (get k items)
    → Has (get (lstrip is_tap k) (network_hooks items))
unfolding network_hooks
found k items h =
    let (w, p) = last_hook k items h in (w, get-assign_all hook (lstrip is_tap k) items ∙ p)

-- The values of the template.
abbrev given : Text → Text → Text → Text → Text → Dict Text
given ifname mac vhost up down =
    (chars "ifname", ifname)
    ∷ (chars "mac", mac)
    ∷ (chars "vhost", vhost)
    ∷ (chars "ifup", up)
    ∷ (chars "ifdown", down)
    ∷ []

template-Formats :
    (ifname mac vhost up down : Text)
    → (t : Text) × (format net_template (given ifname mac vhost up down) ≡ ok t)
unfolding format render get
template-Formats ifname mac vhost up down = (_, refl)

abbrev Formats : Result Text → Type 0
Formats r = (t : Text) × (r ≡ ok t)

both :
    {r q : Result Text} {f : Text → Text → Result Text}
    → Formats r
    → Formats q
    → ((up down : Text) → Formats (f up down))
    → Formats (r >>= λ up. q >>= λ down. f up down)
both (up, p) (down, e) g = rw (p, e) (g up down)

module _ (items : Dict Text) (agent : Settings) (h : HasHooks items)
    (e : agent.network_hooks ≡ network_hooks items) where
  hook-Has : (k : Text) → Has (get k items) → Has (get (lstrip is_tap k) agent.network_hooks)
  hook-Has k has = let (path, p) = found k items has in (path, ap (get (lstrip is_tap k)) e ∙ p)

  at-Has :
      (k : Text)
      → Has (get k items)
      → (path : Text) × (at (lstrip is_tap k) agent.network_hooks ≡ ok path)
  at-Has k has = let (path, p) = hook-Has k has in (path, rw (at, p) refl)

  netconfig-Formats :
      (net mac : Text) (routed : Bool)
      → Formats (netconfig agent (record { net = net; routed = routed; mac = mac }))
  unfolding netconfig lstrip
  netconfig-Formats net mac true =
      both (at-Has (chars "tap-ifup-vrf") h.vrf_up) (at-Has (chars "tap-ifdown-vrf") h.vrf_down) (
        template-Formats (b't' ∷ net ++ agent.id) mac
          (if agent.vhost then chars "  vhost = \"on\"" else []))
  netconfig-Formats net mac false =
      both (at-Has (chars "tap-ifup-bridge") h.bridge_up)
        (at-Has (chars "tap-ifdown-bridge") h.bridge_down)
        (template-Formats (b't' ∷ net ++ agent.id) mac
          (if agent.vhost then chars "  vhost = \"on\"" else []))

  all-Format : (is : List Interface) → Formats (network agent is)
  unfolding network
  all-Format [] = ([], refl)
  all-Format (i ∷ is) =
      let (t, p) = netconfig-Formats i.net i.mac i.routed in
      let (u, q) = all-Format is in (t ++ u, rw (p, q) refl)

  -- Where the section for the network has the four hooks, the network part of the configuration of each VM can be
  -- made from the hooks that are loaded, whatever its interfaces are.
  pub network-Formats : (is : List Interface) → Formats (network agent (sorted is))
  network-Formats is = all-Format (sorted is)
