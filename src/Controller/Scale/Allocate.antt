-- ===== src/Controller/Scale/Allocate.antt =====
-- internal/controller/reconcile.go: `allocateVMID` hands out the lowest free VMID.
use proxmox_actions_runners.Prelude.{
  ℕ, zero, suc, ℤ, pos, ◌+ℤ◌, ◌-ℤ◌, ◌≤ℤ◌, ◌<ℤ◌, pos_part, neg_part, ◌≡◌, ◌⊎◌, refl, ap, subst, inl,
  inr, true, false, Option, none, some, insert, int_eq, arith, Bool-cases,
}
use proxmox_actions_runners.Prelude.Int.{+ℤ_parts, -ℤ_parts, eq_of_parts, one_part}
use proxmox_actions_runners.Config
use proxmox_actions_runners.Config.Range.{workers, contains}
use proxmox_actions_runners.Controller.Scale.{
  Pass, is_taken, first_free, ids_in, reserve, allocate_vmid,
}

-- Nothing from one ID up to another is free.
abbrev AllTaken : ℤ → ℤ → Pass → Type 0
AllTaken lo hi p = (k : ℤ) → lo ≤ℤ k → k <ℤ hi → is_taken k p ≡ true

below-or-eq : (a k : ℤ) → a ≤ℤ k → (a ≡ k) ⊎ (a +ℤ pos 1 ≤ℤ k)
below-or-eq a k h = ground (arith, +ℤ_parts a (pos 1), eq_of_parts a k)

taken_step :
    (a hi : ℤ) (p : Pass) → is_taken a p ≡ true → AllTaken (a +ℤ pos 1) hi p → AllTaken a hi p
taken_step a hi p t f k l m = elim (below-or-eq a k l) [
  | inl e ↦ subst (λ x. is_taken x p ≡ true) e t
  | inr u ↦ f k u m
]

-- The ID found is free and the lowest such of those gone through.
first_free-some :
    (n : ℕ) (a : ℤ) (p : Pass) (id : ℤ)
    → first_free n a p ≡ some id
    → (a ≤ℤ id) × (id <ℤ a +ℤ pos n) × (is_taken id p ≡ false) × AllTaken a id p
unfolding first_free
first_free-some zero a p id e = ground arith
first_free-some (suc n) a p id e = elim (Bool-cases (is_taken a p)) [
  | inl t ↦
      let (lo, hi, free, below) = first_free-some n (a +ℤ pos 1) p id (rw t at e) in
      (
        omega (arith, +ℤ_parts a (pos 1)),
        omega (arith, +ℤ_parts a (pos 1), +ℤ_parts (a +ℤ pos 1) (pos n), +ℤ_parts a (pos (suc n))),
        free,
        taken_step a id p t below,
      )
  | inr t ↦ at_start t (rw t at e)
]
  where
    at_start :
        is_taken a p ≡ false
        → some a ≡ some id
        → (a ≤ℤ id) × (id <ℤ a +ℤ pos (suc n)) × (is_taken id p ≡ false) × AllTaken a id p
    at_start free q =
        let same : a ≡ id = cc in
        (
          omega (arith, ap pos_part same, ap neg_part same),
          omega (arith, +ℤ_parts a (pos (suc n)), ap pos_part same, ap neg_part same),
          subst (λ x. is_taken x p ≡ false) same free,
          λ k l m. absurd (omega (arith, ap pos_part same, ap neg_part same)),
        )

-- None is found only where all that was gone through is taken.
first_free-none : (n : ℕ) (a : ℤ) (p : Pass) → first_free n a p ≡ none → AllTaken a (a +ℤ pos n) p
unfolding first_free
first_free-none zero a p e = λ k l m. absurd (omega (arith, +ℤ_parts a (pos 0)))
first_free-none (suc n) a p e = elim (Bool-cases (is_taken a p)) [
  | inl t ↦ taken_step a (a +ℤ pos (suc n)) p t (λ k l m.
      first_free-none n (a +ℤ pos 1) p (rw t at e) k l (
        omega (arith, +ℤ_parts a (pos 1), +ℤ_parts (a +ℤ pos 1) (pos n), +ℤ_parts a (pos (suc n)))))
  | inr t ↦ absurd (ground arith)
]

-- The IDs gone through are those of the range.
ids_in_end :
    (r : Config.VmidRange) (k : ℤ) → k ≤ℤ r.end → r.start ≤ℤ k → k <ℤ r.start +ℤ pos (ids_in r)
ids_in_end r k h l = omega (
  arith,
  -ℤ_parts r.end r.start,
  +ℤ_parts (r.end -ℤ r.start) (pos 1),
  +ℤ_parts r.start (pos (ids_in r)),
)

ids_in_last :
    (r : Config.VmidRange) (k : ℤ) → r.start ≤ℤ k → k <ℤ r.start +ℤ pos (ids_in r) → k ≤ℤ r.end
ids_in_last r k l h = omega (
  arith,
  -ℤ_parts r.end r.start,
  +ℤ_parts (r.end -ℤ r.start) (pos 1),
  +ℤ_parts r.start (pos (ids_in r)),
  one_part (r.end -ℤ r.start +ℤ pos 1),
)

contains_of : (r : Config.VmidRange) (k : ℤ) → r.start ≤ℤ k → k ≤ℤ r.end → contains r k ≡ true
unfolding contains
contains_of r k l h = ground arith

contains-start :
    (r : Config.VmidRange) (k : ℤ) → contains r k ≡ true → (r.start ≤ℤ k) × (k ≤ℤ r.end)
unfolding contains
contains-start r k h = ground arith

reserve-some :
    (p : Pass) (o : Option ℤ) (id : ℤ) (q : Pass)
    → reserve p o ≡ some (id, q)
    → (o ≡ some id) × (q ≡ record p { used = insert id true p.used })
reserve-some p none id q e = ground arith
reserve-some p (some k) id q e = ground arith

reserve-none : (p : Pass) (o : Option ℤ) → reserve p o ≡ none → o ≡ none
reserve-none p none e = refl
reserve-none p (some k) e = cc

-- The VMID handed out is one of the workers' part of the range, is free (not listed, not known to be
-- foreign, with no operation in flight), and is marked as used. Nothing else of the pass changes.
pub allocate_vmid-some :
    (p : Pass) (id : ℤ) (q : Pass)
    → allocate_vmid p ≡ some (id, q)
    → (contains (workers p.ctrl.cfg.proxmox.vmid_range) id ≡ true)
      × (is_taken id p ≡ false)
      × (q ≡ record p { used = insert id true p.used })
unfolding allocate_vmid
allocate_vmid-some p id q e =
    let r = workers p.ctrl.cfg.proxmox.vmid_range in
    let (found, same) = reserve-some p (first_free (ids_in r) r.start p) id q e in
    let (lo, hi, free, below) = first_free-some (ids_in r) r.start p id found in
    (contains_of r id lo (ids_in_last r id lo hi), free, same)

-- Every VMID of the workers' part of the range below the one handed out is taken.
pub allocate_vmid-lowest :
    (p : Pass) (id k : ℤ) (q : Pass)
    → allocate_vmid p ≡ some (id, q)
    → contains (workers p.ctrl.cfg.proxmox.vmid_range) k ≡ true
    → k <ℤ id
    → is_taken k p ≡ true
unfolding allocate_vmid
allocate_vmid-lowest p id k q e h l =
    let r = workers p.ctrl.cfg.proxmox.vmid_range in
    let (found, same) = reserve-some p (first_free (ids_in r) r.start p) id q e in
    let (lo, hi, free, below) = first_free-some (ids_in r) r.start p id found in
    below k (contains-start r k h).0 l

-- No VMID is handed out only if the whole workers' part of the range is taken.
pub allocate_vmid-none :
    (p : Pass) (k : ℤ)
    → allocate_vmid p ≡ none
    → contains (workers p.ctrl.cfg.proxmox.vmid_range) k ≡ true
    → is_taken k p ≡ true
unfolding allocate_vmid
allocate_vmid-none p k e h =
    let r = workers p.ctrl.cfg.proxmox.vmid_range in
    let (lo, hi) = contains-start r k h in
    first_free-none (ids_in r) r.start p (reserve-none p (first_free (ids_in r) r.start p) e) k lo
      (ids_in_end r k hi lo)
