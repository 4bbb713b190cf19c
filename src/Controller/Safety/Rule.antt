-- ===== src/Controller/Safety/Rule.antt =====
-- internal/controller/reconcile.go: a rule for what a pass keeps. It need only be kept by `start_op`
-- of an operation that the pass may start.
use mathlib.Core.List.{Memᴰ}
use proxmox_actions_runners.Prelude.{
  ℕ, zero, suc, ℤ, ◌≡◌, ◌≢◌, refl, sym, subst, ap, inl, inr, Bool, true, false, int_eq, text_eq,
  List, [], ◌∷◌, Text, Option, none, some, lookup, get_or, arith, Bool-cases, Option-cases,
  if◌then◌else◌, if_intro,
}
use proxmox_actions_runners.Prelude.Int.{beq_ℤ_iff}
use proxmox_actions_runners.Prelude.Lists.{All, All-mem, Memᴰ-take, Memᴰ-sort_by, All-of_mem}
use proxmox_actions_runners.Prelude.Maps.{Values}
use proxmox_actions_runners.Prelude.Time.{Time}
use proxmox_actions_runners.Config.{Config}
use proxmox_actions_runners.Config.Range.{workers, contains}
use proxmox_actions_runners.Proxmox.{Vm}
use proxmox_actions_runners.VmTags
use proxmox_actions_runners.Controller.ScaleSet.{ScaleSetState, can_create, has_job}
use proxmox_actions_runners.Controller.Naming.{Worker}
use proxmox_actions_runners.Controller.Observe.{View, workers_of, observe}
use proxmox_actions_runners.Controller.State.{
  Controller, Op, retire, create, prune_template, half_created, too_many, is_busy, start_op,
  creating_any,
}
use proxmox_actions_runners.Controller.Prune.{is_kept, in_use, prune_loop, prune_templates}
use proxmox_actions_runners.Controller.RetireReason.{PassEnv, Verdict, retire_reason}
use proxmox_actions_runners.Controller.Freshness.{check_runner_freshness}
use proxmox_actions_runners.Controller.Status.{count_workers}
use proxmox_actions_runners.Controller.Scale.{
  Pass, is_taken, allocate_vmid, create_loop, retire_loop, is_active, active_workers, idle_workers,
  surplus, grow, scale,
}
use proxmox_actions_runners.Controller.Reconcile.{
  retire_strays, Checked, apply_verdict, check_worker, check_workers, check_all, scale_all,
  converge, configured_name,
}
use proxmox_actions_runners.Controller.Scale.Allocate.{allocate_vmid-some}
use proxmox_actions_runners.Controller.Safety.{Allowed}
use proxmox_actions_runners.Controller.Safety.Seen.{
  Mine, Marks, insert-Marks, observe-Sees, observe-Marks, observe-template, workers_of-Mine,
}
use proxmox_actions_runners.Controller.Safety.Verdicts.{retire_reason-frame}

-- What a pass leaves as it is.
abbrev Frame : Config → ℤ → Bool → List (ℤ × Bool) → Controller → Type 0
Frame cfg slots wake foreign c =
    (c.cfg ≡ cfg) × (c.slots ≡ slots) × (c.wake ≡ wake) × (c.foreign ≡ foreign)

-- A creation is under no VMID that is known to be foreign.
abbrev pub Fresh : List (ℤ × Bool) → Op → Type 0
Fresh foreign (create name t id) = get_or (lookup id foreign) false ≡ false
Fresh foreign _ = Unit

start_op-Frame :
    (cfg : Config) (slots : ℤ) (wake : Bool) (foreign : List (ℤ × Bool)) (op : Op) (c : Controller)
    → Frame cfg slots wake foreign c
    → Frame cfg slots wake foreign (start_op op c)
unfolding start_op
start_op-Frame cfg slots wake foreign op c f = ground arith

-- `P` is of the operations in flight and of what was started.
module _ (cfg : Config) (slots : ℤ) (wake : Bool) (foreign : List (ℤ × Bool)) (vms : List Vm)
    (P : List (ℤ × Text) → List Op → Type 0)
    (kept : (op : Op) (c : Controller)
      → Allowed cfg vms op
      → Fresh foreign op
      → P c.busy c.started
      → P (start_op op c).busy (start_op op c).started) where
  -- The configuration, the slots and the wake-up are as at the start, and `P` holds.
  abbrev Good : Controller → Type 0
  Good c = Frame cfg slots wake foreign c × P c.busy c.started

  start_op-Good :
      (op : Op) (c : Controller)
      → Allowed cfg vms op
      → Fresh foreign op
      → Good c
      → Good (start_op op c)
  start_op-Good op c a f g = (start_op-Frame cfg slots wake foreign op c g.0, kept op c a f g.1)

  retire_strays-Good :
      (strays : List Vm) (c : Controller)
      → All (Mine cfg vms) strays
      → Good c
      → Good (retire_strays strays c)
  unfolding retire_strays
  retire_strays-Good [] c h g = g
  retire_strays-Good (vm ∷ strays) c h g =
      retire_strays-Good strays _ h.1
        (start_op-Good (retire none vm [] true half_created) c h.0 tt g)

  apply_verdict-Good :
      (s : Option ScaleSetState) (w : Worker) (v : Verdict)
      → Mine cfg vms w.vm
      → Good v.after
      → Good (apply_verdict s w v).ctrl
  apply_verdict-Good s w v m g = elim (Option-cases v.reason) [
    | inl e ↦ rw e g
    | inr (reason, e) ↦
        rw e (start_op-Good (retire (configured_name s) w.vm w.name v.force reason) v.after m tt g)
  ]

  check_worker-Good :
      (env : PassEnv) (s : Option ScaleSetState) (now : Time) (w : Worker) (k : Checked)
      → Mine cfg vms w.vm
      → Good k.ctrl
      → Good (check_worker env s now w k).ctrl
  unfolding check_worker
  check_worker-Good env s now w k m g = elim (Bool-cases (is_busy k.ctrl w.vm.vmid)) [
    | inl e ↦ rw e g
    | inr e ↦ rw e (
        apply_verdict-Good s w (retire_reason env s w now k.checks k.ctrl) m
          (subst Good (sym (retire_reason-frame env s w now k.checks k.ctrl)) g))
  ]

  check_workers-Good :
      (env : PassEnv) (s : Option ScaleSetState) (now : Time) (ws : List Worker) (k : Checked)
      → All (λ (w : Worker). Mine cfg vms w.vm) ws
      → Good k.ctrl
      → Good (check_workers env s now ws k).ctrl
  unfolding check_workers
  check_workers-Good env s now [] k h g = g
  check_workers-Good env s now (w ∷ ws) k h g =
      check_workers-Good env s now ws _ h.1 (check_worker-Good env s now w k h.0 g)

  check_all-Good :
      (env : PassEnv) (now : Time) (m : List (Text × List Worker)) (k : Checked)
      → Values (All (λ (w : Worker). Mine cfg vms w.vm)) m
      → Good k.ctrl
      → Good (check_all env now m k).ctrl
  unfolding check_all
  check_all-Good env now [] k h g = g
  check_all-Good env now ((name, ws) ∷ m) k h g =
      check_all-Good env now m _ h.1
        (check_workers-Good env (lookup name k.ctrl.scale_sets) now ws k h.0 g)

  prune_one-Good :
      (vm t : Vm) (refs : List (ℤ × Bool)) (pool : Text) (c : Controller)
      → pool ≡ cfg.proxmox.pool
      → VmTags.newest_template vms cfg.proxmox.pool ≡ some t
      → Memᴰ vm vms
      → Good c
      → Good (if is_kept vm pool t refs then c else start_op (prune_template vm) c)
  prune_one-Good vm t refs pool c p n m g = elim (Bool-cases (is_kept vm pool t refs)) [
    | inl e ↦ rw e g
    | inr e ↦ rw e (
        start_op-Good (prune_template vm) c
          (t, n, m, rw (← p) (ground arith), ground (arith, beq_ℤ_iff vm.vmid t.vmid)) tt g)
  ]

  prune_loop-Good :
      (all : List Vm) (t : Vm) (refs : List (ℤ × Bool)) (pool : Text) (c : Controller)
      → pool ≡ cfg.proxmox.pool
      → VmTags.newest_template vms cfg.proxmox.pool ≡ some t
      → ((vm : Vm) → Memᴰ vm all → Memᴰ vm vms)
      → Good c
      → Good (prune_loop all pool t refs c)
  unfolding prune_loop
  prune_loop-Good [] t refs pool c p n sub g = g
  prune_loop-Good (vm ∷ all) t refs pool c p n sub g =
      prune_loop-Good all t refs pool _ p n (λ x m. sub x (Memᴰ.tail m))
        (prune_one-Good vm t refs pool c p n (sub vm (Memᴰ.head refl)) g)

  prune_templates-Good :
      (o : Option Vm) (c : Controller)
      → VmTags.newest_template vms cfg.proxmox.pool ≡ o
      → Good c
      → Good (prune_templates vms o c)
  unfolding prune_templates
  prune_templates-Good none c n g = g
  prune_templates-Good (some t) c n g = elim (Bool-cases (creating_any c)) [
    | inl e ↦ rw e g
    | inr e ↦ rw e (elim (Option-cases (in_use vms c.cfg.proxmox.pool [])) [
      | inl u ↦ rw u g
      | inr (refs, u) ↦ rw u (
          prune_loop-Good vms t refs c.cfg.proxmox.pool c
            (ap (λ (k : Config). k.proxmox.pool) g.0.0) n (λ x m. m) g)
    ])
  ]

  freshness-Good :
      (o : Option Vm) (now : Time) (c : Controller) → Good c → Good (check_runner_freshness o now c)
  unfolding check_runner_freshness
  freshness-Good none now c g = g
  freshness-Good (some t) now c g = ground arith

  -- Every listed VMID is marked, and the controller is good.
  abbrev GoodPass : Pass → Type 0
  GoodPass p = ((vm : Vm) → Memᴰ vm vms → Marks p.used vm.vmid) × Good p.ctrl

  create-Allowed :
      (name : Text) (t : Vm) (id : ℤ) (p : Pass)
      → VmTags.newest_template vms cfg.proxmox.pool ≡ some t
      → contains (workers cfg.proxmox.vmid_range) id ≡ true
      → is_taken id p ≡ false
      → GoodPass p
      → Allowed cfg vms (create name t id)
  create-Allowed name t id p n r free g =
      (n, r, All-of_mem (λ (vm : Vm). vm.vmid ≢ id) vms unlisted)
    where
      unlisted : (vm : Vm) → Memᴰ vm vms → vm.vmid ≢ id
      unlisted vm m e =
          let marked = g.0 vm m in let same = ap (λ k. lookup k p.used) e in ground arith

  create_one-Good :
      (name : Text) (t : Vm) (p : Pass) (id : ℤ) (q : Pass)
      → VmTags.newest_template vms cfg.proxmox.pool ≡ some t
      → allocate_vmid p ≡ some (id, q)
      → GoodPass p
      → GoodPass (record q { ctrl = start_op (create name t id) q.ctrl })
  create_one-Good name t p id q n found g =
      let (range, free, same) = allocate_vmid-some p id q found in
      let inside =
        subst (λ (k : Config). contains (workers k.proxmox.vmid_range) id ≡ true) g.1.0.0 range in
      subst (λ x. GoodPass (record x { ctrl = start_op (create name t id) x.ctrl })) (sym same)
        (
          λ vm m. insert-Marks p.used vm.vmid id (g.0 vm m),
          start_op-Good (create name t id) p.ctrl (create-Allowed name t id p n inside free g)
              (fresh free g.1.0.3) g.1,
        )
    where
      fresh :
          is_taken id p ≡ false
          → p.ctrl.foreign ≡ foreign
          → get_or (lookup id foreign) false ≡ false
      fresh free e = rw (← e) (ground (arith, free))

  create_loop-Good :
      (n : ℕ) (name : Text) (t : Vm) (p : Pass)
      → VmTags.newest_template vms cfg.proxmox.pool ≡ some t
      → GoodPass p
      → GoodPass (create_loop n name t p)
  unfolding create_loop
  create_loop-Good zero name t p e g = g
  create_loop-Good (suc n) name t p e g = elim (Option-cases (allocate_vmid p)) [
    | inl none_left ↦ rw (none_left, create_loop) g
    | inr ((id, q), found) ↦
        rw (found, create_loop)
          (create_loop-Good n name t _ e (create_one-Good name t p id q e found g))
  ]

  retire_loop-Good :
      (name : Text) (ws : List Worker) (c : Controller)
      → All (λ (w : Worker). Mine cfg vms w.vm) ws
      → Good c
      → Good (retire_loop name ws c)
  unfolding retire_loop
  retire_loop-Good name [] c h g = g
  retire_loop-Good name (w ∷ ws) c h g =
      retire_loop-Good name ws _ h.1
        (start_op-Good (retire (some name) w.vm w.name false too_many) c h.0 tt g)

  grow-Good :
      (n : ℕ) (s : ScaleSetState) (o : Option Vm) (now : Time) (p : Pass)
      → VmTags.newest_template vms cfg.proxmox.pool ≡ o
      → GoodPass p
      → GoodPass (grow n s o now p)
  grow-Good n s none now p e g = g
  grow-Good n s (some t) now p e g = elim (Bool-cases (can_create s now)) [
    | inl y ↦ rw y (create_loop-Good n s.cfg.name t p e g)
    | inr y ↦ rw y g
  ]

  All-active :
      (c : Controller) (ws : List Worker)
      → All (λ (w : Worker). Mine cfg vms w.vm) ws
      → All (λ (w : Worker). Mine cfg vms w.vm) (active_workers c ws)
  unfolding active_workers
  All-active c [] h = tt
  All-active c (w ∷ ws) h = elim (Bool-cases (is_active c w)) [
    | inl e ↦ rw e (h.0, All-active c ws h.1)
    | inr e ↦ rw e (All-active c ws h.1)
  ]

  All-idle :
      (s : ScaleSetState) (ws : List Worker)
      → All (λ (w : Worker). Mine cfg vms w.vm) ws
      → All (λ (w : Worker). Mine cfg vms w.vm) (idle_workers s ws)
  unfolding idle_workers
  All-idle s [] h = tt
  All-idle s (w ∷ ws) h = elim (Bool-cases (has_job s w.name)) [
    | inl e ↦ rw e (All-idle s ws h.1)
    | inr e ↦ rw e (h.0, All-idle s ws h.1)
  ]

  All-surplus :
      (n : ℕ) (ws : List Worker)
      → All (λ (w : Worker). Mine cfg vms w.vm) ws
      → All (λ (w : Worker). Mine cfg vms w.vm) (surplus n ws)
  unfolding surplus
  All-surplus n ws h =
      All-of_mem (λ (w : Worker). Mine cfg vms w.vm) _
        λ w m.
          All-mem (λ (w : Worker). Mine cfg vms w.vm) ws h (Memᴰ-sort_by _ ws (Memᴰ-take _ _ m))

  scale-Good :
      (s : ScaleSetState) (v : View) (now : Time) (p : Pass)
      → VmTags.newest_template vms cfg.proxmox.pool ≡ v.template
      → All (λ (w : Worker). Mine cfg vms w.vm) (workers_of v s.cfg.name)
      → GoodPass p
      → GoodPass (scale s v now p)
  unfolding scale
  scale-Good s v now p e h g =
      let alive = active_workers p.ctrl (workers_of v s.cfg.name) in
      if_intro GoodPass _ _ _ g (
        if_intro GoodPass _ _ _ (grow-Good _ s v.template now p e g) (
          if_intro GoodPass _ _ _
            (
              g.0,
              retire_loop-Good s.cfg.name _ p.ctrl
                  (All-surplus _ _ (All-idle s alive (All-active p.ctrl _ h))) g.1,
            )
            g))

  scale_all-Good :
      (m : List (Text × ScaleSetState)) (now : Time) (p : Pass)
      → GoodPass p
      → GoodPass (scale_all m (observe cfg vms) now p)
  unfolding scale_all
  scale_all-Good [] now p g = g
  scale_all-Good ((name, s) ∷ m) now p g = scale_all-Good m now _ (
      scale-Good s (observe cfg vms) now p (sym (observe-template cfg vms))
        (workers_of-Mine cfg vms s.cfg.name) g)

  count_workers-Good : (v : View) (c : Controller) → Good c → Good (count_workers v c)
  unfolding count_workers
  count_workers-Good v c g = g

  kept_by_Good :
      (c : Controller)
      → Good c
      → P c.busy c.started × (c.slots ≡ slots) × (c.wake ≡ wake) × (c.foreign ≡ foreign)
  kept_by_Good c ((f, n, w, r), p) = (p, n, w, r)

-- A pass that begins with `P` ends with `P`, and it changes neither the slots nor the wake-up
-- nor which VMIDs are foreign.
pub converge-keeps :
    (env : PassEnv) (now : Time) (vms : List Vm) (c : Controller)
    (P : List (ℤ × Text) → List Op → Type 0)
    → ((op : Op) (d : Controller)
        → Allowed c.cfg vms op
        → Fresh c.foreign op
        → P d.busy d.started
        → P (start_op op d).busy (start_op op d).started)
    → P c.busy c.started
    → P (converge env now vms c).busy (converge env now vms c).started
      × ((converge env now vms c).slots ≡ c.slots)
      × ((converge env now vms c).wake ≡ c.wake)
      × ((converge env now vms c).foreign ≡ c.foreign)
unfolding converge
converge-keeps env now vms c P kept p =
    let cfg = c.cfg in
    let v = observe cfg vms in
    let start : Good cfg c.slots c.wake c.foreign vms P kept c = ((refl, refl, refl, refl), p) in
    let pruned =
      prune_templates-Good cfg c.slots c.wake c.foreign vms P kept v.template c
        (sym (observe-template cfg vms)) start in
    let swept =
      retire_strays-Good cfg c.slots c.wake c.foreign vms P kept v.strays _ (observe-Sees cfg vms).0
        (freshness-Good cfg c.slots c.wake c.foreign vms P kept v.template now _ pruned) in
    let checked =
      check_all-Good cfg c.slots c.wake c.foreign vms P kept env now v.workers _
        (observe-Sees cfg vms).1 swept in
    kept_by_Good cfg c.slots c.wake c.foreign vms P kept (converge env now vms c) (
      count_workers-Good cfg c.slots c.wake c.foreign vms P kept v _
        (scale_all-Good cfg c.slots c.wake c.foreign vms P kept _ now _
          ((λ vm m. observe-Marks cfg vms m), checked)).1)
