-- ===== src/Controller/Safety/Seen.antt =====
-- internal/controller/reconcile.go: what a pass sees are VMs of the listing that the controller owns.
use mathlib.Core.List.{Memᴰ}
use proxmox_actions_runners.Prelude.{
  ℤ, ◌≡◌, refl, sym, subst, ◌∙◌, inl, inr, Bool, true, false, ◌==◌, text_eq, int_eq, text_beq_iff,
  List, [], ◌∷◌, Text, some, lookup, insert, arith, Bool-cases, Option-cases, if◌then◌else◌,
  ==-refl,
}
use proxmox_actions_runners.Prelude.Lists.{All, All-append}
use proxmox_actions_runners.Prelude.Maps.{Values, insert-Values, lookup-Values, lookup-insert}
use proxmox_actions_runners.Prelude.Results.{Result, ok, err}
use proxmox_actions_runners.Config.{Config}
use proxmox_actions_runners.Proxmox.{Vm, has_tag}
use proxmox_actions_runners.VmTags
use proxmox_actions_runners.Controller.Naming.{Worker, TagError, parse_worker}
use proxmox_actions_runners.Controller.Naming.RoundTrip.{parse_worker-vm}
use proxmox_actions_runners.Controller.Observe.{
  View, workers_of, sort_worker, is_ignored, observe_vm, observe_loop, observe,
}
use proxmox_actions_runners.Controller.Safety.{Owned}

is_ignored-Owned : (cfg : Config) (vm : Vm) → is_ignored cfg vm ≡ false → Owned cfg vm
unfolding is_ignored
is_ignored-Owned cfg vm h = ground (arith, text_beq_iff vm.pool cfg.proxmox.pool)

module _ (P : Vm → Type 0) where
  -- Every stray and every worker of a view is a VM with the property.
  abbrev pub Sees : View → Type 0
  Sees v = All P v.strays × Values (All (λ (w : Worker). P w.vm)) v.workers

  workers_of-All :
      (v : View) (name : Text) → Sees v → All (λ (w : Worker). P w.vm) (workers_of v name)
  workers_of-All v name h = elim (Option-cases (lookup name v.workers)) [
    | inl e ↦ rw e tt
    | inr (ws, e) ↦ rw e (lookup-Values (All (λ (w : Worker). P w.vm)) name v.workers h.1 e)
  ]

  sort_worker-Sees :
      (v : View) (vm : Vm) (r : Result TagError Worker)
      → ((w : Worker) → r ≡ ok w → w.vm ≡ vm)
      → P vm
      → Sees v
      → Sees (sort_worker v vm r)
  sort_worker-Sees v vm (err e) f p h = (All-append P v.strays (vm ∷ []) h.0 (p, tt), h.1)
  sort_worker-Sees v vm (ok w) f p h = (
    h.0,
    insert-Values (All (λ (x : Worker). P x.vm)) w.scale_set _ v.workers
        (All-append (λ (x : Worker). P x.vm) (workers_of v w.scale_set) (w ∷ [])
          (workers_of-All v w.scale_set h) (subst P (sym (f w refl)) p, tt))
        h.1,
  )

  observe_vm-Sees :
      (cfg : Config) (v : View) (vm : Vm)
      → (is_ignored cfg vm ≡ false → P vm)
      → Sees v
      → Sees (observe_vm cfg v vm)
  unfolding observe_vm
  observe_vm-Sees cfg v vm f h = elim (Bool-cases (is_ignored cfg vm)) [
    | inl e ↦ rw e h
    | inr e ↦ rw e (elim (Bool-cases (has_tag vm VmTags.worker)) [
      | inl t ↦ rw t (
          sort_worker-Sees (record v { used = insert vm.vmid true v.used }) vm (parse_worker vm)
            (λ w q. parse_worker-vm vm w q) (f e) h)
      | inr t ↦ rw t (All-append P v.strays (vm ∷ []) h.0 (f e, tt), h.1)
    ])
  ]

  observe_loop-Sees :
      (cfg : Config) (v : View) (vms : List Vm)
      → ((vm : Vm) → Memᴰ vm vms → is_ignored cfg vm ≡ false → P vm)
      → Sees v
      → Sees (observe_loop cfg v vms)
  unfolding observe_loop
  observe_loop-Sees cfg v [] f h = h
  observe_loop-Sees cfg v (vm ∷ vms) f h =
      observe_loop-Sees cfg (observe_vm cfg v vm) vms (λ x m. f x (Memᴰ.tail m))
        (observe_vm-Sees cfg v vm (f vm (Memᴰ.head refl)) h)

-- A listed VM that the controller owns.
abbrev pub Mine : Config → List Vm → Vm → Type 0
Mine cfg vms vm = Memᴰ vm vms × Owned cfg vm

pub observe-Sees : (cfg : Config) (vms : List Vm) → Sees (Mine cfg vms) (observe cfg vms)
unfolding observe
observe-Sees cfg vms =
    observe_loop-Sees (Mine cfg vms) cfg _ vms (λ vm m e. (m, is_ignored-Owned cfg vm e)) (tt, tt)

pub workers_of-Mine :
    (cfg : Config) (vms : List Vm) (name : Text)
    → All (λ (w : Worker). Mine cfg vms w.vm) (workers_of (observe cfg vms) name)
workers_of-Mine cfg vms name =
    workers_of-All (Mine cfg vms) (observe cfg vms) name (observe-Sees cfg vms)

-- The VMIDs that a map marks.
abbrev pub Marks : List (ℤ × Bool) → ℤ → Type 0
Marks used id = lookup id used ≡ some true

pub insert-Marks :
    (used : List (ℤ × Bool)) (id other : ℤ) → Marks used id → Marks (insert other true used) id
insert-Marks used id other h = lookup-insert other id true used ∙ either (other == id)
  where
    either : (b : Bool) → (if b then some true else lookup id used) ≡ some true
    either true = refl
    either false = h

insert-Marks_self : (used : List (ℤ × Bool)) (id : ℤ) → Marks (insert id true used) id
insert-Marks_self used id = rw (lookup-insert id id true used, ==-refl id)

sort_worker-used :
    (v : View) (vm : Vm) (r : Result TagError Worker) → (sort_worker v vm r).used ≡ v.used
sort_worker-used v vm (ok w) = refl
sort_worker-used v vm (err e) = refl

observe_vm-used :
    (cfg : Config) (v : View) (vm : Vm) → (observe_vm cfg v vm).used ≡ insert vm.vmid true v.used
unfolding observe_vm
observe_vm-used cfg v vm = elim (Bool-cases (is_ignored cfg vm)) [
  | inl e ↦ rw e
  | inr e ↦ rw e (elim (Bool-cases (has_tag vm VmTags.worker)) [
    | inl t ↦ rw t (sort_worker-used _ vm (parse_worker vm))
    | inr t ↦ rw t
  ])
]

loop-Marks :
    (cfg : Config) (v : View) (vms : List Vm) (id : ℤ)
    → Marks v.used id
    → Marks (observe_loop cfg v vms).used id
unfolding observe_loop
loop-Marks cfg v [] id h = h
loop-Marks cfg v (vm ∷ vms) id h =
    loop-Marks cfg (observe_vm cfg v vm) vms id
      (rw (observe_vm-used cfg v vm) (insert-Marks v.used id vm.vmid h))

loop-Marks_listed :
    (cfg : Config) (v : View) (vms : List Vm) {vm : Vm}
    → Memᴰ vm vms
    → Marks (observe_loop cfg v vms).used vm.vmid
unfolding observe_loop
loop-Marks_listed cfg v [] m = elim m [ ]
loop-Marks_listed cfg v (x ∷ vms) {vm} (Memᴰ.head e) =
    loop-Marks cfg (observe_vm cfg v x) vms vm.vmid
      (rw (observe_vm-used cfg v x, e) (insert-Marks_self v.used x.vmid))
loop-Marks_listed cfg v (x ∷ vms) (Memᴰ.tail m) = loop-Marks_listed cfg (observe_vm cfg v x) vms m

-- Every listed VMID is marked as used.
pub observe-Marks :
    (cfg : Config) (vms : List Vm) {vm : Vm} → Memᴰ vm vms → Marks (observe cfg vms).used vm.vmid
unfolding observe
observe-Marks cfg vms m = loop-Marks_listed cfg _ vms m

sort_worker-template :
    (v : View) (vm : Vm) (r : Result TagError Worker) → (sort_worker v vm r).template ≡ v.template
sort_worker-template v vm (ok w) = refl
sort_worker-template v vm (err e) = refl

observe_vm-template :
    (cfg : Config) (v : View) (vm : Vm) → (observe_vm cfg v vm).template ≡ v.template
unfolding observe_vm
observe_vm-template cfg v vm = elim (Bool-cases (is_ignored cfg vm)) [
  | inl e ↦ rw e
  | inr e ↦ rw e (elim (Bool-cases (has_tag vm VmTags.worker)) [
    | inl t ↦ rw t (sort_worker-template _ vm (parse_worker vm))
    | inr t ↦ rw t
  ])
]

loop-template :
    (cfg : Config) (v : View) (vms : List Vm) → (observe_loop cfg v vms).template ≡ v.template
unfolding observe_loop
loop-template cfg v [] = refl
loop-template cfg v (vm ∷ vms) =
    loop-template cfg (observe_vm cfg v vm) vms ∙ observe_vm-template cfg v vm

-- The view's template is the newest one of the pool.
pub observe-template :
    (cfg : Config) (vms : List Vm)
    → (observe cfg vms).template ≡ VmTags.newest_template vms cfg.proxmox.pool
unfolding observe
observe-template cfg vms = loop-template cfg _ vms
