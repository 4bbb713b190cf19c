-- ===== src/Installer/Uninstall/Owned.antt =====
-- internal/installer/uninstall.go: only VMs that the project owns are destroyed, clones before templates.
use mathlib.Core.List.{Memᴰ, Perm}
use mathlib.Core.List.Perm
use proxmox_actions_runners.Prelude.{
  ℤ, ◌==◌, text_eq, int_eq, Bool, true, false, List, [], ◌∷◌, codes, ◌≡◌, refl, ◌⊎◌, inl, inr,
  Bool-cases, arith, text_beq_iff,
}
use proxmox_actions_runners.Prelude.Results.{ok, Result-cases}
use proxmox_actions_runners.Prelude.Lists.{All}
use proxmox_actions_runners.Proxmox.{Vm, has_tag}
use proxmox_actions_runners.VmTags
use proxmox_actions_runners.Installer.{system_pool, runner_pool, Command, Host, run}
use proxmox_actions_runners.Installer.Log.{and_then-All, run_log}
use proxmox_actions_runners.Installer.Uninstall.{
  is_owned, owned, goes_before, insert_vm, sort_vms, managed_vms, stop_command, destroy_command,
  destroy_listed, stop_if, destroy_vm, destroy_each, destroy_vms,
}

-- No template stands before a VM that is none.
abbrev pub ClonesFirst : List Vm → Type 0
ClonesFirst [] = Unit
ClonesFirst (x ∷ xs) = (x.template ≡ true → All (λ y. y.template ≡ true) xs) × ClonesFirst xs

All-insert_vm : (P : Vm → Type 0) (x : Vm) (xs : List Vm) → P x → All P xs → All P (insert_vm x xs)
unfolding insert_vm
All-insert_vm P x [] p h = (p, tt)
All-insert_vm P x (y ∷ ys) p (q, h) = elim (Bool-cases (goes_before y x)) [
  | inl e ↦ rw e (q, All-insert_vm P x ys p h)
  | inr e ↦ rw e (p, (q, h))
]

All-sort_vms : (P : Vm → Type 0) (xs : List Vm) → All P xs → All P (sort_vms xs)
unfolding sort_vms
All-sort_vms P [] h = tt
All-sort_vms P (x ∷ xs) (h, hs) = All-insert_vm P x (sort_vms xs) h (All-sort_vms P xs hs)

insert_vm-ClonesFirst : (x : Vm) (xs : List Vm) → ClonesFirst xs → ClonesFirst (insert_vm x xs)
unfolding insert_vm
insert_vm-ClonesFirst x [] h = (λ t. tt, tt)
insert_vm-ClonesFirst x (y ∷ ys) (h, hs) = elim (Bool-cases (goes_before y x)) [
  | inl e ↦ rw e (
    λ t. All-insert_vm (λ z. z.template ≡ true) x ys (ground (arith, e, t)) (h t),
    insert_vm-ClonesFirst x ys hs,
  )
  | inr e ↦ rw e (λ t. let u : y.template ≡ true = ground (arith, e, t) in (u, h u), (h, hs))
]

sort_vms-ClonesFirst : (xs : List Vm) → ClonesFirst (sort_vms xs)
unfolding sort_vms
sort_vms-ClonesFirst [] = tt
sort_vms-ClonesFirst (x ∷ xs) = insert_vm-ClonesFirst x (sort_vms xs) (sort_vms-ClonesFirst xs)

insert_vm-perm : (x : Vm) (xs : List Vm) → Perm (insert_vm x xs) (x ∷ xs)
unfolding insert_vm
insert_vm-perm x [] = Perm.refl (x ∷ [])
insert_vm-perm x (y ∷ ys) = elim (Bool-cases (goes_before y x)) [
  | inl e ↦ rw e (Perm.trans (Perm.cons y (insert_vm-perm x ys)) (Perm.swap x y ys))
  | inr e ↦ rw e (Perm.refl (x ∷ y ∷ ys))
]

sort_vms-perm : (xs : List Vm) → Perm (sort_vms xs) xs
unfolding sort_vms
sort_vms-perm [] = Perm.refl []
sort_vms-perm (x ∷ xs) =
    Perm.trans (insert_vm-perm x (sort_vms xs)) (Perm.cons x (sort_vms-perm xs))

-- For every list of VMs, managedVMs is a rearrangement of those that are in the system or the runner
-- pool and have the tag of managed VMs, in which no template stands before a VM that is no
-- template.
pub managed_vms-ClonesFirst :
    (vms : List Vm) → Perm (managed_vms vms) (owned vms) × ClonesFirst (managed_vms vms)
unfolding managed_vms
managed_vms-ClonesFirst vms = (sort_vms-perm (owned vms), sort_vms-ClonesFirst (owned vms))

-- The VM is in one of the two pools and is tagged as managed.
abbrev pub Ours : Vm → Type 0
Ours v = ((v.pool ≡ system_pool) ⊎ (v.pool ≡ runner_pool)) × (has_tag v VmTags.managed ≡ true)

is_owned-Ours : (v : Vm) → is_owned v ≡ true → Ours v
is_owned-Ours v h =
    ground (arith, text_beq_iff v.pool system_pool, text_beq_iff v.pool runner_pool, h)

-- The command stops or destroys a VM of ours.
abbrev pub Allowed : List Vm → Command → Type 0
Allowed vms c =
    (v : Vm) × (Memᴰ v vms × (Ours v × ((c ≡ stop_command v.vmid) ⊎ (c ≡ destroy_command v.vmid))))

module _ (host : Host) (P : Command → Type 0) where
  destroy_listed-All :
      (id : ℤ) (vms : List Vm) (log : List Command)
      → P (stop_command id)
      → P (destroy_command id)
      → All P log
      → All P (destroy_listed host id vms log).1
  unfolding destroy_listed
  destroy_listed-All id [] log s d h = h
  destroy_listed-All id (vm ∷ vms) log s d h = elim (Bool-cases (vm.vmid == id)) [
    | inr e ↦ rw e (destroy_listed-All id vms log s d h)
    | inl e ↦
        let stopped : All P (stop_if host (vm.status == codes "running") id log) =
          stop_if-All (vm.status == codes "running") in
        rw e (
          and_then-All host P
            (run host (destroy_command id) (stop_if host (vm.status == codes "running") id log))
            (destroy_listed host id vms)
            (run_log host P (destroy_command id)
              (stop_if host (vm.status == codes "running") id log) d stopped)
            (λ log1 k. destroy_listed-All id vms log1 s d k))
  ]
    where
      stop_if-All : (b : Bool) → All P (stop_if host b id log)
      stop_if-All true = run_log host P (stop_command id) log s h
      stop_if-All false = h

  destroy_each-All :
      (vms : List Vm) (log : List Command)
      → All (λ v. P (stop_command v.vmid) × P (destroy_command v.vmid)) vms
      → All P log
      → All P (destroy_each host vms log).1
  unfolding destroy_each destroy_vm
  destroy_each-All [] log h k = k
  destroy_each-All (v ∷ vms) log ((s, d), hs) k =
      and_then-All host P (destroy_vm host v.vmid log) (destroy_each host vms)
        (elim (Result-cases (host.vms_answer log)) [
          | inl (e, q) ↦ rw (destroy_vm, q) k
          | inr (listed, q) ↦ rw (destroy_vm, q) (destroy_listed-All v.vmid listed log s d k)
        ])
        (λ log1 l. destroy_each-All vms log1 hs l)

owned-All :
    (P : Vm → Type 0) (vms : List Vm)
    → ((v : Vm) → Memᴰ v vms → is_owned v ≡ true → P v)
    → All P (owned vms)
unfolding owned
owned-All P [] h = tt
owned-All P (v ∷ vms) h = elim (Bool-cases (is_owned v)) [
  | inl e ↦ rw e (h v (Memᴰ.head refl) e, owned-All P vms (λ w m. h w (Memᴰ.tail m)))
  | inr e ↦ rw e (owned-All P vms (λ w m. h w (Memᴰ.tail m)))
]

-- For every host and log so far, where vms are the VMs that are listed: each command that
-- Uninstall logs while it destroys VMs stops or destroys the VMID of a VM in vms that is in the system or the
-- runner pool and has the tag of managed VMs, if that held of the log before.
pub destroy_vms-Allowed :
    (host : Host) (vms : List Vm) (log : List Command)
    → host.vms_answer log ≡ ok vms
    → All (Allowed vms) log
    → All (Allowed vms) (destroy_vms host log).1
unfolding destroy_vms managed_vms
destroy_vms-Allowed host vms log q h =
    rw (destroy_vms, q)
      (destroy_each-All host (Allowed vms) (sort_vms (owned vms)) log
        (All-sort_vms
          (λ v. Allowed vms (stop_command v.vmid) × Allowed vms (destroy_command v.vmid))
          (owned vms)
          (owned-All (λ v. Allowed vms (stop_command v.vmid) × Allowed vms (destroy_command v.vmid))
            vms
            (λ v m o.
              let u = is_owned-Ours v o in ((v, (m, (u, inl refl))), (v, (m, (u, inr refl)))))))
        h)
