-- ===== src/Controller/Scale.antt =====
-- internal/controller/reconcile.go: creating and retiring workers to meet a target.
pub mod Allocate
pub mod Bounds
use Prim.Native.Nat.{min}
use proxmox_actions_runners.Prelude.{
  ℕ, zero, suc, ◌+◌, ℤ, pos, ◌+ℤ◌, ◌-ℤ◌, ltb_ℤ, pos_part, nat_beq, ◌==◌, text_eq, int_eq, Bool,
  true, false, not, ◌||◌, ◌&&◌, List, [], ◌∷◌, Text, Option, none, some, get_or, if◌then◌else◌,
  lookup, insert,
}
use proxmox_actions_runners.Prelude.Lists.{length, take, sort_by}
use proxmox_actions_runners.Prelude.Time.{Time}
use proxmox_actions_runners.Config
use proxmox_actions_runners.Config.Range.{workers}
use proxmox_actions_runners.Proxmox.{Vm}
use proxmox_actions_runners.Controller.ScaleSet.{ScaleSetState, target, has_job, can_create}
use proxmox_actions_runners.Controller.Naming.{Worker}
use proxmox_actions_runners.Controller.Observe.{View, workers_of}
use proxmox_actions_runners.Controller.RetireReason.{stopped}
use proxmox_actions_runners.Controller.State.{
  Controller, retire, create, too_many, is_busy, start_op, creating_for,
}

-- A pass's `used` map, which the scale sets share, and the controller.
pub record Pass : Type 0 where
  pub used : List (ℤ × Bool)
  pub ctrl : Controller

abbrev pub is_taken : ℤ → Pass → Bool
is_taken id p =
    get_or (lookup id p.used) false
    || (get_or (lookup id p.ctrl.foreign) false || is_busy p.ctrl id)

-- The loop of `allocateVMID` over the IDs left.
unfoldable pub first_free : ℕ → ℤ → Pass → Option ℤ
first_free zero id p = none
first_free (suc n) id p =
    let rest = first_free n (id +ℤ pos 1) p in if is_taken id p then rest else some id

-- How many IDs `for id := r.Start; id <= r.End; id++` goes through.
abbrev pub ids_in : Config.VmidRange → ℕ
ids_in r = pos_part (r.end -ℤ r.start +ℤ pos 1)

abbrev pub reserve : Pass → Option ℤ → Option (ℤ × Pass)
reserve p none = none
reserve p (some id) = some (id, record p { used = insert id true p.used })

unfoldable pub allocate_vmid : Pass → Option (ℤ × Pass)
allocate_vmid p =
    let r = workers p.ctrl.cfg.proxmox.vmid_range in reserve p (first_free (ids_in r) r.start p)

unfoldable pub create_loop : ℕ → Text → Vm → Pass → Pass
create_loop zero name template p = p
create_loop (suc n) name template p = elim (allocate_vmid p) [
  | none ↦ p
  | some (id, q) ↦
      create_loop n name template (record q { ctrl = start_op (create name template id) q.ctrl })
]

unfoldable pub retire_loop : Text → List Worker → Controller → Controller
retire_loop name [] c = c
retire_loop name (w ∷ ws) c =
    retire_loop name ws (start_op (retire (some name) w.vm w.name false too_many) c)

-- A listed worker that isn't being retired, hasn't stopped, and isn't half-created.
abbrev pub is_active : Controller → Worker → Bool
is_active c w = not (is_busy c w.vm.vmid || (w.vm.status == stopped || not w.ready))

unfoldable pub active_workers : Controller → List Worker → List Worker
active_workers c [] = []
active_workers c (w ∷ ws) =
    let rest = active_workers c ws in if is_active c w then w ∷ rest else rest

unfoldable pub idle_workers : ScaleSetState → List Worker → List Worker
idle_workers s [] = []
idle_workers s (w ∷ ws) =
    let rest = idle_workers s ws in if not (has_job s w.name) then w ∷ rest else rest

-- The workers that are retired first: the oldest idle ones, at most so many.
unfoldable pub surplus : ℕ → List Worker → List Worker
surplus n idle = take (min n (length idle)) (sort_by (λ (w : Worker). w.created) idle)

abbrev pub grow : ℕ → ScaleSetState → Option Vm → Time → Pass → Pass
grow n s none now p = p
grow n s (some template) now p =
    if not (can_create s now) then p else create_loop n s.cfg.name template p

unfoldable pub scale : ScaleSetState → View → Time → Pass → Pass
scale s v now p =
    let c = p.ctrl in
    let creating = creating_for s.cfg.name c in
    let alive = active_workers c (workers_of v s.cfg.name) in
    let active = creating + length alive in
    let (wanted, known) = target s in
    if not known || s.id == pos 0
    then p
    else if ltb_ℤ (pos active) wanted
    then grow (pos_part (wanted -ℤ pos active)) s v.template now p
    else if ltb_ℤ wanted (pos active) && nat_beq creating 0
    then record p {
      ctrl =
          retire_loop s.cfg.name (surplus (pos_part (pos active -ℤ wanted)) (idle_workers s alive))
            c;
    }
    else p
