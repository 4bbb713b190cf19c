-- ===== src/VmTags/Newest.antt =====
-- internal/vmtags: what `NewestTemplate` chooses.
use mathlib.Core.List.{Memᴰ}
use proxmox_actions_runners.Prelude.{
  ℤ, pos, negsuc, ◌<ℤ◌, ◌≤ℤ◌, ◌≡◌, refl, ◌⊎◌, inl, inr, true, false, List, [], ◌∷◌, Text, Option,
  none, some, arith, Bool-cases, Option-cases, if◌then◌else◌,
}
use proxmox_actions_runners.Prelude.Int.{eq_of_parts, beq_ℤ_iff}
use proxmox_actions_runners.Proxmox.{Vm}
use proxmox_actions_runners.VmTags.{
  int, is_template, template_version_prefix, Best, better, consider, newest_loop, no_best,
  found_newest, newest_template,
}

-- A version and VMID that the loop's choice is not behind.
abbrev NotNewer : ℤ → ℤ → Best → Type 0
NotNewer w id b = (w <ℤ b.best) ⊎ ((w ≡ b.best) × (id ≤ℤ b.newest.vmid))

consider-NotNewer :
    (w id : ℤ) (b : Best) (vm : Vm) (o : Option ℤ)
    → NotNewer w id b
    → NotNewer w id (consider b vm o)
consider-NotNewer w id b vm none h = h
consider-NotNewer w id b vm (some v) h = ground (arith, beq_ℤ_iff v b.best)

considered : (b : Best) (vm : Vm) (v : ℤ) → NotNewer v vm.vmid (consider b vm (some v))
considered b vm v = ground (arith, beq_ℤ_iff v b.best, eq_of_parts v b.best)

abbrev next : Best → Vm → Text → Best
next b vm pool = if is_template vm pool then consider b vm (int vm template_version_prefix) else b

next-NotNewer :
    (w id : ℤ) (b : Best) (vm : Vm) (pool : Text) → NotNewer w id b → NotNewer w id (next b vm pool)
next-NotNewer w id b vm pool h = elim (Bool-cases (is_template vm pool)) [
  | inl e ↦ rw e (consider-NotNewer w id b vm (int vm template_version_prefix) h)
  | inr e ↦ rw e h
]

loop-NotNewer :
    (w id : ℤ) (b : Best) (vms : List Vm) (pool : Text)
    → NotNewer w id b
    → NotNewer w id (newest_loop b vms pool)
unfolding newest_loop
loop-NotNewer w id b [] pool h = h
loop-NotNewer w id b (vm ∷ vms) pool h =
    loop-NotNewer w id (next b vm pool) vms pool (next-NotNewer w id b vm pool h)

loop-covers :
    (b : Best) (vms : List Vm) (pool : Text) {vm : Vm} {w : ℤ}
    → Memᴰ vm vms
    → is_template vm pool ≡ true
    → int vm template_version_prefix ≡ some w
    → NotNewer w vm.vmid (newest_loop b vms pool)
unfolding newest_loop
loop-covers b [] pool m t v = elim m [ ]
loop-covers b (x ∷ vms) pool {vm} {w} (Memᴰ.head e) t v =
    loop-NotNewer w vm.vmid (next b x pool) vms pool (rw (← e, t, v) (considered b vm w))
loop-covers b (x ∷ vms) pool (Memᴰ.tail m) t v = loop-covers (next b x pool) vms pool m t v

-- What the loop has chosen is one of the pool's templates, or nothing is chosen yet.
abbrev Chosen : Best → List Vm → Text → Type 0
Chosen b vms pool =
    (b.found ≡ false) × (b.best ≡ negsuc 0)
    ⊎ (b.found ≡ true)
      × Memᴰ b.newest vms
      × (is_template b.newest pool ≡ true)
      × (int b.newest template_version_prefix ≡ some b.best)

next-Chosen :
    (b : Best) (vm : Vm) (all : List Vm) (pool : Text)
    → Memᴰ vm all
    → Chosen b all pool
    → Chosen (next b vm pool) all pool
next-Chosen b vm all pool m h = elim (Bool-cases (is_template vm pool)) [
  | inr e ↦ rw e h
  | inl e ↦ rw e (elim (Option-cases (int vm template_version_prefix)) [
    | inl n ↦ rw n h
    | inr (v, s) ↦
        rw s (elim (Bool-cases (better b vm v)) [
          | inl y ↦ rw y (inr (refl, m, e, s))
          | inr y ↦ rw y h
        ])
  ])
]

loop-Chosen :
    (b : Best) (vms all : List Vm) (pool : Text)
    → ((vm : Vm) → Memᴰ vm vms → Memᴰ vm all)
    → Chosen b all pool
    → Chosen (newest_loop b vms pool) all pool
unfolding newest_loop
loop-Chosen b [] all pool sub h = h
loop-Chosen b (vm ∷ vms) all pool sub h =
    loop-Chosen (next b vm pool) vms all pool (λ x m. sub x (Memᴰ.tail m))
      (next-Chosen b vm all pool (sub vm (Memᴰ.head refl)) h)

chosen : (vms : List Vm) (pool : Text) → Chosen (newest_loop no_best vms pool) vms pool
chosen vms pool = loop-Chosen no_best vms vms pool (λ x m. m) (inl (refl, refl))

-- The template chosen is a listed runner template of the pool with a version, and every listed
-- runner template of the pool with a version has a lower one, or the same one and no higher VMID.
pub newest_template-newest :
    (vms : List Vm) (pool : Text) (t vm : Vm) (w : ℤ)
    → newest_template vms pool ≡ some t
    → Memᴰ vm vms
    → is_template vm pool ≡ true
    → int vm template_version_prefix ≡ some w
    → (v : ℤ) × Memᴰ t vms
      × (is_template t pool ≡ true)
      × (int t template_version_prefix ≡ some v)
      × ((w <ℤ v) ⊎ ((w ≡ v) × (vm.vmid ≤ℤ t.vmid)))
unfolding newest_template
newest_template-newest vms pool t vm w e m p i =
    go (newest_loop no_best vms pool) e (chosen vms pool) (loop-covers no_best vms pool m p i)
  where
    go :
        (b : Best)
        → found_newest b ≡ some t
        → Chosen b vms pool
        → NotNewer w vm.vmid b
        → (v : ℤ) × Memᴰ t vms
          × (is_template t pool ≡ true)
          × (int t template_version_prefix ≡ some v)
          × ((w <ℤ v) ⊎ ((w ≡ v) × (vm.vmid ≤ℤ t.vmid)))
    go b e (inl (f, _)) n = ground arith
    go b e (inr (f, mem, tpl, ver)) n =
        let same : b.newest ≡ t = ground arith in rw (← same) (b.best, mem, tpl, ver, n)

-- No template is chosen only if every listed runner template of the pool has a negative version
-- or none that can be read.
pub newest_template-none :
    (vms : List Vm) (pool : Text) (vm : Vm) (w : ℤ)
    → newest_template vms pool ≡ none
    → Memᴰ vm vms
    → is_template vm pool ≡ true
    → int vm template_version_prefix ≡ some w
    → w <ℤ pos 0
unfolding newest_template
newest_template-none vms pool vm w e m p i =
    go (newest_loop no_best vms pool) e (chosen vms pool) (loop-covers no_best vms pool m p i)
  where
    go : (b : Best) → found_newest b ≡ none → Chosen b vms pool → NotNewer w vm.vmid b → w <ℤ pos 0
    go b e (inl (f, low)) n = ground arith
    go b e (inr (f, _, _, _)) n = ground arith
