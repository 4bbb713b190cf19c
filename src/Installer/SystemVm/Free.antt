-- ===== src/Installer/SystemVm/Free.antt =====
-- internal/installer/systemvm.go: a system VM gets a free VMID outside the range of the workers.
use proxmox_actions_runners.Prelude.{
  ℕ, zero, suc, ◌≤◌, ◌<◌, ℤ, pos, ◌+ℤ◌, ◌≤ℤ◌, leb_ℤ, true, false, List, [], ◌∷◌, Text, some,
  if◌then◌else◌, ◌≡◌, ◌⊎◌, inl, inr, refl, Bool-cases, arith,
}
use proxmox_actions_runners.Prelude.Int.{+ℤ_parts, beq_ℤ_iff}
use proxmox_actions_runners.Prelude.Lists.{length}
use proxmox_actions_runners.Prelude.Results.{Result, ok, err}
use proxmox_actions_runners.Config.{VmidRange}
use proxmox_actions_runners.Config.Range.{contains}
use proxmox_actions_runners.Proxmox.{Vm}
use proxmox_actions_runners.Installer.Template.{is_used}
use proxmox_actions_runners.Installer.SystemVm.{next_unused, system_vmid}

-- How many VMs have an ID from this one on.
unfoldable count_from : List Vm → ℤ → ℕ
count_from [] id = zero
count_from (v ∷ vs) id = let n = count_from vs id in if leb_ℤ id v.vmid then suc n else n

count_from-le : (vms : List Vm) (id : ℤ) → count_from vms id ≤ length vms
unfolding count_from
count_from-le [] id = omega arith
count_from-le (v ∷ vs) id = ground (arith, count_from-le vs id)

count_from_next : (vms : List Vm) (id : ℤ) → count_from vms (id +ℤ pos 1) ≤ count_from vms id
unfolding count_from
count_from_next [] id = omega arith
count_from_next (v ∷ vs) id = ground (arith, count_from_next vs id, +ℤ_parts id (pos 1))

count_from-is_used :
    (vms : List Vm) (id : ℤ)
    → is_used vms id ≡ true
    → count_from vms (id +ℤ pos 1) < count_from vms id
unfolding count_from is_used
count_from-is_used [] id h = cc
count_from-is_used (v ∷ vs) id h = ground (
  arith,
  count_from_next vs id,
  count_from-is_used vs id,
  +ℤ_parts id (pos 1),
  beq_ℤ_iff v.vmid id,
)

next_unused-some :
    (fuel : ℕ) (vms : List Vm) (id : ℤ)
    → count_from vms id < fuel
    → (n : ℤ) × ((next_unused fuel vms id ≡ some n) × ((id ≤ℤ n) × (is_used vms n ≡ false)))
unfolding next_unused
next_unused-some zero vms id h = absurd (omega arith)
next_unused-some (suc fuel) vms id h = elim (Bool-cases (is_used vms id)) [
  | inl e ↦
      let (n, (q, (l, u))) =
        next_unused-some fuel vms (id +ℤ pos 1) (omega (arith, count_from-is_used vms id e)) in
      (n, (rw (next_unused, e) q, (omega (arith, +ℤ_parts id (pos 1)), u)))
  | inr e ↦ (id, (rw (next_unused, e) refl, (omega arith, e)))
]

-- What is answered: the error of one of the two questions, or Proxmox's ID if it is outside the range, or an ID after
-- the range that no listed VM has.
abbrev pub Answered : VmidRange → Result Text ℤ → Result Text (List Vm) → Result Text ℤ → Type 0
Answered r next_id vms (err e) = (next_id ≡ err e) ⊎ (vms ≡ err e)
Answered r next_id vms (ok n) =
    (contains r n ≡ false)
    × ((next_id ≡ ok n) ⊎ ((listed : List Vm) × ((vms ≡ ok listed) × (is_used listed n ≡ false))))

abbrev pub fuel_for : Result Text (List Vm) → ℕ
fuel_for (err e) = zero
fuel_for (ok listed) = suc (length listed)

-- For every range and answers: with one more round than there are listed VMs, systemVMID ends. It
-- fails only with the error of one of its questions. The ID that it answers is
-- outside the range, and it is Proxmox's next free ID or one that no listed VM has.
pub system_vmid-Answered :
    (r : VmidRange) (next_id : Result Text ℤ) (vms : Result Text (List Vm))
    → (out : Result Text ℤ) × ((system_vmid (fuel_for vms) r next_id vms ≡ some out)
        × Answered r next_id vms out)
unfolding system_vmid contains
system_vmid-Answered r (err e) vms = (err e, (refl, inl refl))
system_vmid-Answered r (ok id) (err e) = elim (Bool-cases (contains r id)) [
  | inl c ↦ (err e, (rw c refl, inr refl))
  | inr c ↦ (ok id, (rw c refl, (c, inl refl)))
]
system_vmid-Answered r (ok id) (ok listed) = elim (Bool-cases (contains r id)) [
  | inl c ↦
      let (n, (q, (l, u))) =
        next_unused-some (suc (length listed)) listed (r.end +ℤ pos 1)
          (omega (arith, count_from-le listed (r.end +ℤ pos 1))) in
      (ok n, (rw (c, q) refl, (ground (arith, l, +ℤ_parts r.end (pos 1)), inr (listed, (refl, u)))))
  | inr c ↦ (ok id, (rw c refl, (c, inl refl)))
]
