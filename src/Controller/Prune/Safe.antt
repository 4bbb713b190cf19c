-- ===== src/Controller/Prune/Safe.antt =====
-- internal/controller/templates.go: no template goes that a worker may depend on.
use mathlib.Core.List.{Memᴰ}
use proxmox_actions_runners.Prelude.{
  ℤ, ◌≡◌, ◌≢◌, ap, subst, ◌∙◌, ◌⊎◌, inl, inr, Bool, true, false, not, ◌||◌, ◌==◌, int_eq, text_eq,
  text_beq_iff, List, [], ◌∷◌, Text, some, lookup, insert, arith, Bool-cases, Option-cases,
  if◌then◌else◌,
}
use proxmox_actions_runners.Prelude.Maps.{lookup-insert_self}
use proxmox_actions_runners.Proxmox.{Vm, has_tag}
use proxmox_actions_runners.VmTags
use proxmox_actions_runners.Controller.Safety.Seen.{Marks, insert-Marks}
use proxmox_actions_runners.Controller.State.{
  Controller, Op, prune_template, is_busy, start_op, op_vmid, creating_any,
}
use proxmox_actions_runners.Controller.Prune.{in_use, is_kept, prune_loop, prune_templates}

-- One of the pool's managed VMs that is no template.
abbrev pub Dependent : Text → Vm → Type 0
Dependent pool x = (x.template ≡ false) × (x.pool ≡ pool) × (has_tag x VmTags.managed ≡ true)

abbrev skipped : Text → Vm → Bool
skipped pool vm = vm.template || (not (vm.pool == pool) || not (has_tag vm VmTags.managed))

-- What one VM adds to the record.
in_use_step :
    (vm : Vm) (vms : List Vm) (pool : Text) (refs out : List (ℤ × Bool))
    → in_use (vm ∷ vms) pool refs ≡ some out
    → ((skipped pool vm ≡ true) × (in_use vms pool refs ≡ some out))
      ⊎ ((ref : ℤ) × (skipped pool vm ≡ false)
          × (VmTags.int vm VmTags.template_ref_prefix ≡ some ref)
          × (in_use vms pool (insert ref true refs) ≡ some out))
unfolding in_use
in_use_step vm vms pool refs out e = elim (Bool-cases (skipped pool vm)) [
  | inl s ↦ inl (s, rw s at e)
  | inr s ↦ elim (Option-cases (VmTags.int vm VmTags.template_ref_prefix)) [
    | inl n ↦ absurd (ground arith)
    | inr (ref, n) ↦ inr (ref, s, n, ground arith)
  ]
]

in_use_mono :
    (vms : List Vm) (pool : Text) (refs out : List (ℤ × Bool)) (k : ℤ)
    → in_use vms pool refs ≡ some out
    → Marks refs k
    → Marks out k
in_use_mono [] pool refs out k e m = unfold in_use in ground arith
in_use_mono (vm ∷ vms) pool refs out k e m = elim (in_use_step vm vms pool refs out e) [
  | inl (s, q) ↦ in_use_mono vms pool refs out k q m
  | inr (ref, s, n, q) ↦
      in_use_mono vms pool (insert ref true refs) out k q (insert-Marks refs k ref m)
]

not-skipped : (pool : Text) (x : Vm) → Dependent pool x → skipped pool x ≡ false
not-skipped pool x d = ground (arith, text_beq_iff x.pool pool)

-- Every dependent VM names its template, and the record holds it.
in_use-covers :
    (vms : List Vm) (pool : Text) (refs out : List (ℤ × Bool)) (x : Vm)
    → in_use vms pool refs ≡ some out
    → Memᴰ x vms
    → Dependent pool x
    → (ref : ℤ) × (VmTags.int x VmTags.template_ref_prefix ≡ some ref) × Marks out ref
in_use-covers [] pool refs out x e m d = elim m [ ]
in_use-covers (vm ∷ vms) pool refs out x e (Memᴰ.head h) d =
    elim (in_use_step vm vms pool refs out e) [
      | inl (s, q) ↦ absurd (ground (arith, not-skipped pool x d, ap (skipped pool) h))
      | inr (ref, s, n, q) ↦ (
        ref,
        ap (λ y. VmTags.int y VmTags.template_ref_prefix) h ∙ n,
        in_use_mono vms pool (insert ref true refs) out ref q (lookup-insert_self ref true refs),
      )
    ]
in_use-covers (vm ∷ vms) pool refs out x e (Memᴰ.tail m) d =
    elim (in_use_step vm vms pool refs out e) [
      | inl (s, q) ↦ in_use-covers vms pool refs out x q m d
      | inr (ref, s, n, q) ↦ in_use-covers vms pool (insert ref true refs) out x q m d
    ]

start_op-started :
    (op o : Op) (c : Controller) → Memᴰ o (start_op op c).started → (o ≡ op) ⊎ Memᴰ o c.started
unfolding start_op
start_op-started op o c m = elim (Bool-cases (is_busy c (op_vmid op))) [
  | inl e ↦ inr (rw e at m)
  | inr e ↦ first (rw e at m)
]
  where
    first : Memᴰ o (op ∷ c.started) → (o ≡ op) ⊎ Memᴰ o c.started
    first (Memᴰ.head q) = inl q
    first (Memᴰ.tail q) = inr q

prune_one-started :
    (x vm t : Vm) (pool : Text) (refs : List (ℤ × Bool)) (c : Controller)
    → Memᴰ
        (prune_template vm)
        (if is_kept x pool t refs then c else start_op (prune_template x) c).started
    → ((is_kept vm pool t refs ≡ false) ⊎ Memᴰ (prune_template vm) c.started)
prune_one-started x vm t pool refs c m = elim (Bool-cases (is_kept x pool t refs)) [
  | inl e ↦ inr (rw e at m)
  | inr e ↦ elim (start_op-started (prune_template x) (prune_template vm) c (rw e at m)) [
    | inl q ↦ let same : vm ≡ x = cc in inl (ap (λ y. is_kept y pool t refs) same ∙ e)
    | inr q ↦ inr q
  ]
]

prune_loop-started :
    (vms : List Vm) (vm t : Vm) (pool : Text) (refs : List (ℤ × Bool)) (c : Controller)
    → Memᴰ (prune_template vm) (prune_loop vms pool t refs c).started
    → (is_kept vm pool t refs ≡ false) ⊎ Memᴰ (prune_template vm) c.started
unfolding prune_loop
prune_loop-started [] vm t pool refs c m = inr m
prune_loop-started (x ∷ vms) vm t pool refs c m = elim (prune_loop-started vms vm t pool refs _ m) [
  | inl e ↦ inl e
  | inr q ↦ prune_one-started x vm t pool refs c q
]

is_kept-unmarked :
    (vm t : Vm) (pool : Text) (refs : List (ℤ × Bool)) (ref : ℤ)
    → is_kept vm pool t refs ≡ false
    → Marks refs ref
    → ref ≢ vm.vmid
is_kept-unmarked vm t pool refs ref e m q = let same = ap (λ k. lookup k refs) q in ground arith

-- A template's removal is started only while no worker is being created, and only if each of the
-- pool's managed VMs in the listing records the template it was cloned from and it is another one.
pub prune_templates-unused :
    (vms : List Vm) (newest vm x : Vm) (c : Controller)
    → c.started ≡ []
    → Memᴰ (prune_template vm) (prune_templates vms (some newest) c).started
    → Memᴰ x vms
    → Dependent c.cfg.proxmox.pool x
    → (creating_any c ≡ false)
      × ((ref : ℤ) × (VmTags.int x VmTags.template_ref_prefix ≡ some ref) × (ref ≢ vm.vmid))
unfolding prune_templates
prune_templates-unused vms newest vm x c z m mx d = elim (Bool-cases (creating_any c)) [
  | inl e ↦ absurd (not-started (rw e at m))
  | inr e ↦ (
    e,
    elim (Option-cases (in_use vms c.cfg.proxmox.pool [])) [
      | inl u ↦ absurd (not-started (rw (e, u) at m))
      | inr (refs, u) ↦
          let (ref, i, k) = in_use-covers vms c.cfg.proxmox.pool [] refs x u mx d in
          elim (prune_loop-started vms vm newest c.cfg.proxmox.pool refs c (rw (e, u) at m)) [
            | inl kept ↦ (ref, i, is_kept-unmarked vm newest c.cfg.proxmox.pool refs ref kept k)
            | inr q ↦ absurd (not-started q)
          ]
    ],
  )
]
  where
    not-started : Memᴰ (prune_template vm) c.started → ⊥
    not-started q = elim (subst (Memᴰ (prune_template vm)) z q) [ ]
