-- ===== src/Consul/Covered.antt =====
-- What becomes of the configurations that Consul sends.
use fc_qemu.Base.{
  In, ℕ, ◌≡◌, refl, Bool, true, false, Option, none, some, List, [], ◌∷◌, ◌⊎◌, inl, inr, any, arith,
  ◌==◌, if◌then◌else◌, Bool-cases, ap, sym, ◌∙◌, ==_iff,
}
use fc_qemu.Util.Text.{Text, chars, split}
use fc_qemu.Config.Words.{text_le}
use fc_qemu.Staging.{Config, Store, stage_new_config, updates}
use fc_qemu.Staging.Updates.{Covers, stage-Covers, stage-keeps, stage-active, stage-update}
use fc_qemu.Consul.{
  Value, configuration, snapshot_wanted, malformed, Event, Host, set_store, node, snapshot,
  is_first, dispatch, handle, insert_event, sorted, handle_all, handle_consul_event,
}

-- The event brings a configuration of a virtual machine.
pub record Brings (vm : ℕ) (c : Config) (e : Event) : Type 0 where
  pub value : e.value ≡ some (configuration vm true c)
  pub key : is_first (chars "node") (split b'/' e.key) ≡ true

-- The staged configuration is that one or a newer one, and the active one is as new or `ensure` was
-- started.
abbrev pub Served : ℕ → Config → Host → Type 0
Served vm c h =
    Covers c.generation (h.store vm).staging
    × ((updates c.generation (h.store vm).active ≡ false) ⊎ (any (λ v. v == vm) h.ensured ≡ true))

-- The same, as it is kept from event to event.
abbrev Serves : ℕ → Config → Host → Type 0
Serves vm c h =
    Covers c.generation (h.store vm).staging
    × (updates c.generation (h.store vm).active ≡ true → any (λ v. v == vm) h.ensured ≡ true)

Serves-Served : (vm : ℕ) (c : Config) (h : Host) → Serves vm c h → Served vm c h
Serves-Served vm c h s = (
  s.0,
  elim (Bool-cases (updates c.generation (h.store vm).active)) [
    | inl e ↦ inr (s.1 e)
    | inr e ↦ inl e
  ],
)

same_store : (vm : ℕ) (s : Store) (f : ℕ → Store) → set_store vm s f vm ≡ s
same_store vm s f = ground arith

other_store : (u vm : ℕ) (s : Store) (f : ℕ → Store) → (u == vm) ≡ false → set_store u s f vm ≡ f vm
other_store u vm s f h = ground arith

-- `ensure` was started for the VM.
abbrev started : ℕ → List ℕ → Bool
started vm = any (λ v. v == vm)

start_now :
    (vm : ℕ) (b : Bool) (vs : List ℕ) → b ≡ true → started vm (if b then vm ∷ vs else vs) ≡ true
start_now vm b vs h = ground arith

started_before :
    (u vm : ℕ) (b : Bool) (vs : List ℕ)
    → started vm vs ≡ true
    → started vm (if b then u ∷ vs else vs) ≡ true
started_before u vm b vs h = ground arith

node-Serves : (vm : ℕ) (c : Config) (h : Host) → Serves vm c (node (configuration vm true c) h).1
unfolding node
node-Serves vm c h =
    let s = stage_new_config c (h.store vm) in
    rw (same_store vm s.1 h.store) (
      stage-Covers c (h.store vm),
      (λ e. start_now vm s.0 h.ensured (
          stage-update c (h.store vm)
          ∙ ap (updates c.generation) (sym (stage-active c (h.store vm)))
          ∙ e)),
    )

node-keeps : (vm : ℕ) (c : Config) (v : Value) (h : Host) → Serves vm c h → Serves vm c (node v h).1
unfolding node
node-keeps vm c (configuration u true d) h s = elim (Bool-cases (u == vm)) [
  | inl e ↦
      let is_vm : u ≡ vm = (==_iff u vm).0 e in
      rw (is_vm, same_store vm (stage_new_config d (h.store vm)).1 h.store)
        (
          stage-keeps c.generation d (h.store vm) s.0,
          (λ k.
              started_before vm vm (stage_new_config d (h.store vm)).0 h.ensured
                (s.1 (ap (updates c.generation) (sym (stage-active d (h.store vm))) ∙ k))),
        )
  | inr e ↦
      rw (other_store u vm (stage_new_config d (h.store u)).1 h.store e)
        (s.0, (λ k. started_before u vm (stage_new_config d (h.store u)).0 h.ensured (s.1 k)))
]
node-keeps vm c (configuration u false d) h s = s
node-keeps vm c (snapshot_wanted u n) h s = s
node-keeps vm c malformed h s = s

module _ (loads runs : ℕ → Bool) (vm : ℕ) (c : Config) where
  snapshot-keeps : (v : Value) (h : Host) → Serves vm c h → Serves vm c (snapshot loads runs v h).1
  unfolding snapshot
  snapshot-keeps (configuration u b d) h s = s
  snapshot-keeps (snapshot_wanted u n) h s = elim (Bool-cases (loads u)) [
    | inl e ↦ rw e (elim (Bool-cases (runs u)) [ inl r ↦ rw r s | inr r ↦ rw r s ])
    | inr e ↦ rw e s
  ]
  snapshot-keeps malformed h s = s

  handle-keeps : (e : Event) (h : Host) → Serves vm c h → Serves vm c (handle loads runs e h)
  unfolding handle dispatch
  handle-keeps e h s = with_value e.value
    where
      with_value :
          (v : Option Value)
          → Serves vm c (elim v [ none ↦ h | some x ↦ (dispatch loads runs e.key x h).1 ])
      with_value none = s
      with_value (some v) = elim (Bool-cases (is_first (chars "node") (split b'/' e.key))) [
        | inl k ↦ rw k (node-keeps vm c v h s)
        | inr k ↦ rw k (elim (Bool-cases (is_first (chars "snapshot") (split b'/' e.key))) [
          | inl l ↦ rw l (snapshot-keeps v h s)
          | inr l ↦ rw l s
        ])
      ]

  dispatch-node :
      (key : Text) (v : Value) (h : Host)
      → is_first (chars "node") (split b'/' key) ≡ true
      → dispatch loads runs key v h ≡ node v h
  unfolding dispatch
  dispatch-node key v h k = rw (k, dispatch) refl

  handle-Serves : (e : Event) (h : Host) → Brings vm c e → Serves vm c (handle loads runs e h)
  unfolding handle
  handle-Serves e h b = brought e.value b.value
    where
      brought :
          (v : Option Value)
          → v ≡ some (configuration vm true c)
          → Serves vm c (elim v [ none ↦ h | some x ↦ (dispatch loads runs e.key x h).1 ])
      brought v p =
          rw (p, dispatch-node e.key (configuration vm true c) h b.key) (node-Serves vm c h)

  handle_all-keeps :
      (es : List Event) (h : Host) → Serves vm c h → Serves vm c (handle_all loads runs es h)
  unfolding handle_all
  handle_all-keeps [] h s = s
  handle_all-keeps (e ∷ es) h s = handle_all-keeps es (handle loads runs e h) (handle-keeps e h s)

  handle_all-Serves :
      (e : Event) (es : List Event) (h : Host)
      → Brings vm c e
      → In e es
      → Serves vm c (handle_all loads runs es h)
  unfolding handle_all
  handle_all-Serves e [] h b i = elim i [ ]
  handle_all-Serves e (d ∷ es) h b (inl same) =
      handle_all-keeps es (handle loads runs d h) (rw (← same) (handle-Serves e h b))
  handle_all-Serves e (d ∷ es) h b (inr i) = handle_all-Serves e es (handle loads runs d h) b i

In-insert_event : (e d : Event) (es : List Event) → In e (d ∷ es) → In e (insert_event d es)
unfolding insert_event
In-insert_event e d [] i = i
In-insert_event e d (f ∷ es) i = elim (Bool-cases (text_le d.key f.key)) [
  | inl k ↦ rw k i
  | inr k ↦ rw k (behind i (In-insert_event e d es))
]
  where
    behind :
        (e ≡ d) ⊎ ((e ≡ f) ⊎ In e es)
        → (In e (d ∷ es) → In e (insert_event d es))
        → (e ≡ f) ⊎ In e (insert_event d es)
    behind (inl x) r = inr (r (inl x))
    behind (inr (inl x)) r = inl x
    behind (inr (inr x)) r = inr (r (inr x))

In-sorted : (e : Event) (es : List Event) → In e es → In e (sorted es)
unfolding sorted
In-sorted e [] i = elim i [ ]
In-sorted e (d ∷ es) (inl x) = In-insert_event e d (sorted es) (inl x)
In-sorted e (d ∷ es) (inr i) = In-insert_event e d (sorted es) (inr (In-sorted e es i))

-- Whatever the other events are, and also where the handling of one fails: after handle_consul_event
-- the staged configuration of a VM is the one that an event brought or a newer one, and `ensure` was
-- started for the VM, unless its active configuration is as new.
pub handle_consul_event-Served :
    (loads runs : ℕ → Bool) (vm : ℕ) (c : Config) (e : Event) (events : List Event) (h : Host)
    → Brings vm c e
    → In e events
    → Served vm c (handle_consul_event loads runs events h)
unfolding handle_consul_event
handle_consul_event-Served loads runs vm c e events h b i =
    Serves-Served vm c (handle_all loads runs (sorted events) h)
      (handle_all-Serves loads runs vm c e (sorted events) h b (In-sorted e events i))
