-- ===== src/Listing/Stops.antt =====
-- Which VMs are shut down.
use fc_qemu.Base.{
  ◌≡◌, ◌↔◌, sym, ap, ◌∙◌, ◌⊎◌, inl, inr, Bool, true, false, Bool-cases, List, [], ◌∷◌, map, Result,
  ok, All, In, In-map, In-map_cases, if◌then◌else◌,
}
use fc_qemu.Util.Text.{Text}
use fc_qemu.Config.{◌>>=◌}
use fc_qemu.Config.Bind.{bind_ok}
use fc_qemu.Config.Words.{filter, text_le}
use fc_qemu.Listing.{
  is_pid_file, insert_text, sorted, name_of_file, vm_agents_for_host, running_vms, confirmed,
  shutdown_all,
}
use fc_qemu.Listing.Names.{run_file, IsVmName, name_of_file-run_file, run_file-is_pid_file}

pub In-filter :
    (p : Text → Bool) (t : Text) (ts : List Text) → In t (filter p ts) ↔ (In t ts × (p t ≡ true))
unfolding filter
In-filter p t [] = ((λ h. elim h [ ]), (λ h. elim (h.0) [ ]))
In-filter p t (s ∷ ts) = at_head (Bool-cases (p s)) (In-filter p t ts)
  where
    at_head :
        (p s ≡ true) ⊎ (p s ≡ false)
        → In t (filter p ts) ↔ (In t ts × (p t ≡ true))
        → In t (if p s then s ∷ filter p ts else filter p ts) ↔ (In t (s ∷ ts) × (p t ≡ true))
    at_head (inl e) (f, g) = rw e (
      (λ h. elim h [ inl x ↦ (inl x, ap p x ∙ e) | inr i ↦ (inr (f i).0, (f i).1) ]),
      (λ h. elim h.0 [ inl x ↦ inl x | inr i ↦ inr (g (i, h.1)) ]),
    )
    at_head (inr e) (f, g) = rw e (
      (λ h. (inr (f h).0, (f h).1)),
      (λ h. elim h.0 [ inl x ↦ absurd (differs x h.1) | inr i ↦ g (i, h.1) ]),
    )
      where
        differs : t ≡ s → p t ≡ true → ⊥
        differs x k = let q : p s ≡ true = ap p (sym x) ∙ k in cc

In-insert_text : (t f : Text) (fs : List Text) → In t (insert_text f fs) ↔ In t (f ∷ fs)
unfolding insert_text
In-insert_text t f [] = ((λ h. h), (λ h. h))
In-insert_text t f (g ∷ gs) = at_head (Bool-cases (text_le f g)) (In-insert_text t f gs)
  where
    at_head :
        (text_le f g ≡ true) ⊎ (text_le f g ≡ false)
        → In t (insert_text f gs) ↔ In t (f ∷ gs)
        → In t (if text_le f g then f ∷ g ∷ gs else g ∷ insert_text f gs) ↔ In t (f ∷ g ∷ gs)
    at_head (inl e) i = rw e ((λ h. h), (λ h. h))
    at_head (inr e) (i, j) = rw e (
      (λ h. elim h [
        | inl x ↦ inr (inl x)
        | inr k ↦ elim (i k) [ inl x ↦ inl x | inr l ↦ inr (inr l) ]
      ]),
      (λ h. elim h [
        | inl x ↦ inr (j (inl x))
        | inr k ↦ elim k [ inl x ↦ inl x | inr l ↦ inr (j (inr l)) ]
      ]),
    )

In-sorted : (t : Text) (fs : List Text) → In t (sorted fs) ↔ In t fs
unfolding sorted
In-sorted t [] = ((λ h. h), (λ h. h))
In-sorted t (f ∷ fs) =
    let (i, j) = In-insert_text t f (sorted fs) in
    let (k, l) = In-sorted t fs in
    (
      (λ h. elim (i h) [ inl x ↦ inl x | inr m ↦ inr (k m) ]),
      (λ h. j (elim h [ inl x ↦ inl x | inr m ↦ inr (l m) ])),
    )

All-at : {A : Type 0} (P : A → Type 0) (x : A) (xs : List A) → All P xs → In x xs → P x
All-at P x [] h i = elim i [ ]
All-at P x (y ∷ ys) h (inl e) = rw e h.0
All-at P x (y ∷ ys) h (inr i) = All-at P x ys h.1 i

-- The agents are those of the names that have one.
In-agents :
    (loads : Text → Bool) (names : List Text) (v : Text)
    → All IsVmName names
    → In v (vm_agents_for_host loads (map run_file names)) ↔ (In v names × (loads v ≡ true))
unfolding vm_agents_for_host
In-agents loads names v valid = (forth, back)
  where
    forth : In v (vm_agents_for_host loads (map run_file names)) → In v names × (loads v ≡ true)
    forth h =
        let (i, l) = (In-filter loads v _).0 h in
        let (f, (j, e)) = In-map_cases name_of_file v _ i in
        let in_files = ((In-filter is_pid_file f _).0 ((In-sorted f _).0 j)).0 in
        let (name, (k, g)) = In-map_cases run_file f names in_files in
        let same_name : v ≡ name =
          e ∙ ap name_of_file g ∙ name_of_file-run_file name (All-at IsVmName name names valid k) in
        (rw same_name k, l)

    back : In v names × (loads v ≡ true) → In v (vm_agents_for_host loads (map run_file names))
    back (i, l) =
        let file =
          (In-filter is_pid_file (run_file v) (map run_file names)).1
            (In-map run_file v names i, run_file-is_pid_file v) in
        let there = In-map name_of_file (run_file v) _ ((In-sorted (run_file v) _).1 file) in
        (In-filter loads v _).1
          (rw (← name_of_file-run_file v (All-at IsVmName v names valid i)) there, l)

same_list : {xs ys : List Text} → ◌≡◌ {A = Result (List Text)} (ok xs) (ok ys) → xs ≡ ys
same_list e = ap (λ r. elim r [ ok x ↦ x | _ ↦ [] ]) e

module _ (look : Text → Result Bool) (v : Text) where
  In-one_more :
      (runs : Bool) (vm : Text) (vms rest : List Text)
      → look vm ≡ ok runs
      → In v rest ↔ (In v vms × (look v ≡ ok true))
      → In v (if runs then vm ∷ rest else rest) ↔ (In v (vm ∷ vms) × (look v ≡ ok true))
  In-one_more true vm vms rest e (f, g) = (
    (λ h. elim h [ inl x ↦ (inl x, ap look x ∙ e) | inr i ↦ (inr (f i).0, (f i).1) ]),
    (λ h. elim h.0 [ inl x ↦ inl x | inr i ↦ inr (g (i, h.1)) ]),
  )
  In-one_more false vm vms rest e (f, g) = (
    (λ h. (inr (f h).0, (f h).1)),
    (λ h. elim h.0 [ inl x ↦ absurd (differs x h.1) | inr i ↦ g (i, h.1) ]),
  )
    where
      differs : v ≡ vm → look v ≡ ok true → ⊥
      differs x k = let q : look vm ≡ ok true = ap look (sym x) ∙ k in cc

  In-running :
      (vms rs : List Text)
      → running_vms look vms ≡ ok rs
      → In v rs ↔ (In v vms × (look v ≡ ok true))
  unfolding running_vms
  In-running [] rs h = rw (← same_list h) ((λ i. elim i [ ]), (λ i. elim i.0 [ ]))
  In-running (vm ∷ vms) rs h =
      let (runs, (e, g)) =
        bind_ok (look vm)
          (λ runs. running_vms look vms >>= λ rest. ok (if runs then vm ∷ rest else rest)) h in
      let (rest, (f, k)) =
        bind_ok (running_vms look vms) (λ rest. ok (if runs then vm ∷ rest else rest)) g in
      rw (← same_list k) (In-one_more runs vm vms rest e (In-running vms rest f))

  -- The last step: what runs is stopped, if that is confirmed.
  In-confirmed :
      (tty : Bool) (answers rs stops : List Text)
      → ◌≡◌ {A = Result (List Text)}
          (elim rs [
            | [] ↦ ok []
            | vm ∷ more ↦ confirmed tty answers >>= λ agreed. ok (if agreed then vm ∷ more else [])
          ])
          (ok stops)
      → In v stops ↔ (In v rs × (confirmed tty answers ≡ ok true))
  In-confirmed tty answers [] stops h = rw (← same_list h) ((λ i. elim i [ ]), (λ i. elim i.0 [ ]))
  In-confirmed tty answers (vm ∷ more) stops h =
      let (agreed, (e, k)) =
        bind_ok (confirmed tty answers) (λ agreed. ok (if agreed then vm ∷ more else [])) h in
      rw (← same_list k) (decided agreed e)
    where
      decided :
          (agreed : Bool)
          → confirmed tty answers ≡ ok agreed
          → In v (if agreed then vm ∷ more else [])
            ↔ (In v (vm ∷ more) × (confirmed tty answers ≡ ok true))
      decided true e = ((λ i. (i, e)), (λ i. i.0))
      decided false e = ((λ i. elim i [ ]), (λ i. absurd (differs i.1)))
        where
          differs : confirmed tty answers ≡ ok true → ⊥
          differs k = cc

-- Where shutdown_all returns, it has stopped just the VMs whose names have a PID file and an agent and whose process
-- runs, and those only if it need not ask or the first clear answer is yes.
pub shutdown_all-stops :
    (loads : Text → Bool) (look : Text → Result Bool) (tty : Bool) (answers names stops : List Text)
    (v : Text)
    → All IsVmName names
    → shutdown_all loads look tty answers (map run_file names) ≡ ok stops
    → In v stops
      ↔ (((In v names × (loads v ≡ true)) × (look v ≡ ok true)) × (confirmed tty answers ≡ ok true))
unfolding shutdown_all
shutdown_all-stops loads look tty answers names stops v valid h =
    let (rs, (e, k)) =
      bind_ok (running_vms look (vm_agents_for_host loads (map run_file names))) _ h in
    let (f, g) = In-confirmed look v tty answers rs stops k in
    let (i, j) = In-running look v (vm_agents_for_host loads (map run_file names)) rs e in
    let (m, n) = In-agents loads names v valid in
    ((λ x. ((m (i (f x).0).0, (i (f x).0).1), (f x).1)), (λ x. g (j (n x.0.0, x.0.1), x.1)))
