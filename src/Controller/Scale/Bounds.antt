-- ===== src/Controller/Scale/Bounds.antt =====
-- internal/controller/reconcile.go: how many workers scaling creates or retires, and which.
use Prim.Native.Nat.{min}
use proxmox_actions_runners.Prelude.{
  ℕ, Bool, zero, suc, ◌+◌, ◌≤◌, pos, ◌-ℤ◌, ltb_ℤ, pos_part, nat_beq, ◌≡◌, ap, ◌⊎◌, inl, inr, true,
  false, not, ◌&&◌, ◌||◌, ◌==◌, int_eq, text_eq, List, [], ◌∷◌, Text, Option, none, some, arith,
  Option-cases, if◌then◌else◌, if_intro,
}
use proxmox_actions_runners.Prelude.Int.{beq_ℤ_iff}
use proxmox_actions_runners.Prelude.Lists.{length, tally, sort_by, length-take}
use proxmox_actions_runners.Prelude.Time.{Time}
use proxmox_actions_runners.Proxmox.{Vm}
use proxmox_actions_runners.Controller.ScaleSet.{ScaleSetState, can_create, target}
use proxmox_actions_runners.Controller.Naming.{Worker}
use proxmox_actions_runners.Controller.Observe.{View, workers_of}
use proxmox_actions_runners.Controller.State.{
  Controller, Op, retire, create, too_many, start_op, creating_for,
}
use proxmox_actions_runners.Controller.Scale.{
  Pass, allocate_vmid, create_loop, retire_loop, active_workers, idle_workers, surplus, grow, scale,
}
use proxmox_actions_runners.Controller.Scale.Allocate.{allocate_vmid-some}

abbrev pub is_create : Op → Bool
is_create (create name t id) = true
is_create _ = false

abbrev pub is_retire : Op → Bool
is_retire (retire name vm runner force reason) = true
is_retire _ = false

-- How many operations of a kind were started.
abbrev pub started_of : (Op → Bool) → Controller → ℕ
started_of f c = tally f c.started

start_op-creates :
    (op : Op) (c : Controller)
    → started_of is_create (start_op op c)
      ≤ (if is_create op then 1 else 0) + started_of is_create c
unfolding start_op
start_op-creates op c = ground arith

start_op-retires :
    (op : Op) (c : Controller)
    → started_of is_retire (start_op op c)
      ≤ (if is_retire op then 1 else 0) + started_of is_retire c
unfolding start_op
start_op-retires op c = ground arith

-- At most so many creations and so many retirements more are started than before.
abbrev AtMost : (creations retirements : ℕ) → Controller → Controller → Type 0
AtMost m n c d =
    (started_of is_create d ≤ started_of is_create c + m)
    × (started_of is_retire d ≤ started_of is_retire c + n)

create_loop-AtMost :
    (n : ℕ) (name : Text) (t : Vm) (p : Pass) → AtMost n 0 p.ctrl (create_loop n name t p).ctrl
unfolding create_loop
create_loop-AtMost zero name t p = (omega arith, omega arith)
create_loop-AtMost (suc n) name t p = elim (Option-cases (allocate_vmid p)) [
  | inl e ↦ rw (e, create_loop) (omega arith, omega arith)
  | inr ((id, q), e) ↦
      let op = create name t id in
      let same = (allocate_vmid-some p id q e).2 in
      let (c, r) = create_loop-AtMost n name t (record q { ctrl = start_op op q.ctrl }) in
      rw (e, create_loop)
        (
          omega (
            arith,
            c,
            start_op-creates op q.ctrl,
            ap (λ (x : Pass). started_of is_create x.ctrl) same,
          ),
          omega (
            arith,
            r,
            start_op-retires op q.ctrl,
            ap (λ (x : Pass). started_of is_retire x.ctrl) same,
          ),
        )
]

retire_loop-AtMost :
    (name : Text) (ws : List Worker) (c : Controller)
    → AtMost 0 (length ws) c (retire_loop name ws c)
unfolding retire_loop
retire_loop-AtMost name [] c = (omega arith, omega arith)
retire_loop-AtMost name (w ∷ ws) c =
    let op = retire (some name) w.vm w.name false too_many in
    let (m, r) = retire_loop-AtMost name ws (start_op op c) in
    (omega (arith, m, start_op-creates op c), omega (arith, r, start_op-retires op c))

-- The workers of a scale set that are alive or on their way.
abbrev pub active_count : ScaleSetState → View → Controller → ℕ
active_count s v c = creating_for s.cfg.name c + length (active_workers c (workers_of v s.cfg.name))

-- How many workers a scale set is short of its target, and how many it has too many.
abbrev pub shortage : ScaleSetState → View → Controller → ℕ
shortage s v c = pos_part (s.desired -ℤ pos (active_count s v c))

abbrev pub excess : ScaleSetState → View → Controller → ℕ
excess s v c = pos_part (pos (active_count s v c) -ℤ s.desired)

abbrev Meets : ScaleSetState → View → Pass → Pass → Type 0
Meets s v p q = AtMost (shortage s v p.ctrl) (excess s v p.ctrl) p.ctrl q.ctrl

grow-AtMost :
    (n : ℕ) (s : ScaleSetState) (o : Option Vm) (now : Time) (p : Pass)
    → AtMost n 0 p.ctrl (grow n s o now p).ctrl
grow-AtMost n s none now p = (omega arith, omega arith)
grow-AtMost n s (some t) now p =
    if_intro (λ (q : Pass). AtMost n 0 p.ctrl q.ctrl) (not (can_create s now)) p _
      (omega arith, omega arith) (create_loop-AtMost n s.cfg.name t p)

length-surplus-le : (n : ℕ) (idle : List Worker) → length (surplus n idle) ≤ n
unfolding surplus
length-surplus-le n idle =
    omega (arith, length-take (min n (length idle)) (sort_by (λ (w : Worker). w.created) idle))

-- Of a scale set a pass starts at most as many creations as its active workers (those alive and those
-- being created) are short of the target, and at most as many retirements as they are above it.
pub scale-count :
    (s : ScaleSetState) (v : View) (now : Time) (p : Pass)
    → let q = scale s v now p in
      (started_of is_create q.ctrl ≤ started_of is_create p.ctrl + shortage s v p.ctrl)
      × (started_of is_retire q.ctrl ≤ started_of is_retire p.ctrl + excess s v p.ctrl)
unfolding scale target
scale-count s v now p =
    let alive = active_workers p.ctrl (workers_of v s.cfg.name) in
    let over = excess s v p.ctrl in
    let grown = grow (shortage s v p.ctrl) s v.template now p in
    let shrunk = record p {
      ctrl = retire_loop s.cfg.name (surplus over (idle_workers s alive)) p.ctrl;
    } in
    let surplus_test =
      ltb_ℤ s.desired (pos (active_count s v p.ctrl))
      && nat_beq (creating_for s.cfg.name p.ctrl) 0 in
    let unless_over = if surplus_test then shrunk else p in
    let unless_short =
      if ltb_ℤ (pos (active_count s v p.ctrl)) s.desired then grown else unless_over in
    let nothing : Meets s v p p = (omega arith, omega arith) in
    let (created, left) = grow-AtMost (shortage s v p.ctrl) s v.template now p in
    let (kept, retired) =
      retire_loop-AtMost s.cfg.name (surplus over (idle_workers s alive)) p.ctrl in
    if_intro (Meets s v p) (not s.known || s.id == pos 0) p unless_short nothing (
      if_intro (Meets s v p) (ltb_ℤ (pos (active_count s v p.ctrl)) s.desired) grown unless_over
        (omega (arith, created), omega (arith, left))
        (if_intro (Meets s v p) surplus_test shrunk p
          (
            omega (arith, kept),
            omega (arith, retired, length-surplus-le over (idle_workers s alive)),
          )
          nothing))

-- A scale set whose target is not known yet, or that GitHub has not registered, is left alone.
pub scale-unknown :
    (s : ScaleSetState) (v : View) (now : Time) (p : Pass)
    → (s.known ≡ false) ⊎ (s.id ≡ pos 0)
    → scale s v now p ≡ p
unfolding scale target
scale-unknown s v now p (inl e) = rw e
scale-unknown s v now p (inr e) = ground (arith, beq_ℤ_iff s.id (pos 0))
