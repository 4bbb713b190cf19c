-- ===== src/Controller/Run/Foreign.antt =====
-- internal/controller/worker.go and reconcile.go: a VMID that a VM out of sight has is not tried again.
use proxmox_actions_runners.Prelude.{
  ℕ, ℤ, ◌==◌, int_eq, text_eq, ◌≡◌, refl, sym, ap, ◌∙◌, subst, Bool, true, false, List, ◌∷◌, ◌++◌,
  Text, Option, none, some, lookup, get_or, arith, inl, inr, Option-cases,
}
use proxmox_actions_runners.Prelude.Int.{beq_ℤ_iff}
use proxmox_actions_runners.Prelude.Lists.{tally, tally-append}
use proxmox_actions_runners.Prelude.Maps.{lookup-insert}
use proxmox_actions_runners.Prelude.Results.{Result, ok, err}
use proxmox_actions_runners.Prelude.Time.{Time}
use proxmox_actions_runners.Proxmox.{Vm}
use proxmox_actions_runners.Proxmox.Errors.{PveError}
use proxmox_actions_runners.Controller.ScaleSet.{ScaleSetState}
use proxmox_actions_runners.Controller.State.{
  Controller, Op, retire, create, prune_template, start_op, end_op,
}
use proxmox_actions_runners.Controller.Freshness.{end_comparison}
use proxmox_actions_runners.Controller.RetireReason.{PassEnv}
use proxmox_actions_runners.Controller.Reconcile.{reconcile, converge}
use proxmox_actions_runners.Controller.Safety.Rule.{Fresh, converge-keeps}
use proxmox_actions_runners.Controller.Worker
use proxmox_actions_runners.Controller.Worker.{
  World, St, OpError, Outcome, unregister, destroy_tolerant, destroy_vm, run_retire,
}
use proxmox_actions_runners.Controller.Worker.Create
use proxmox_actions_runners.Controller.Worker.Create.{
  Plan, Built, build, clean_up, cleaned, cloned, hold_off, run_create,
}
use proxmox_actions_runners.Controller.Run
use proxmox_actions_runners.Controller.Run.{
  System, in_flight, Message, handled, passed, Step, Ran, retired, created, pruned,
}
use proxmox_actions_runners.Controller.Run.Frame.{Keeps, build-Keeps, Ran-Same}
use proxmox_actions_runners.Controller.Run.Stopping.{Steps, here, later}

-- Whether a VMID is known to be taken by a VM that the token can't see.
abbrev pub is_foreign : ℤ → Controller → Bool
is_foreign id c = get_or (lookup id c.foreign) false

-- Whether an operation is the creation of a VM under a VMID.
abbrev pub creates : ℤ → Op → Bool
creates id (create name t vmid) = vmid == id
creates id _ = false

retire-foreign :
    (w : World) (vmid : ℤ) (running : Bool) (runner : Text) (force : Bool) (st : St)
    → (Worker.retire w vmid running runner force st).1.ctrl.foreign ≡ st.ctrl.foreign
unfolding Worker.retire unregister destroy_vm destroy_tolerant
retire-foreign w vmid running runner force st = ground arith

run_retire-foreign :
    (w : World) (s : Option Text) (vmid : ℤ) (running : Bool) (runner : Text) (force : Bool)
    (st : St)
    → (run_retire w s vmid running runner force st).1.ctrl.foreign ≡ st.ctrl.foreign
unfolding run_retire
run_retire-foreign w s vmid running runner force st =
    ground (arith, retire-foreign w vmid running runner force st)

destroy-foreign :
    (w : World) (vmid : ℤ) (st : St) → (destroy_tolerant w vmid st).1.ctrl.foreign ≡ st.ctrl.foreign
unfolding destroy_tolerant
destroy-foreign w vmid st = ground arith

clean_up-foreign :
    (w : World) (p : Plan) (b : Built) → (clean_up w p b).1.ctrl.foreign ≡ b.after.ctrl.foreign
clean_up-foreign w p b = elim (Option-cases b.error) [
  | inl n ↦ rw n refl
  | inr (e, n) ↦ rw n (retire-foreign w p.vmid true _ true b.after)
]

-- A VMID is foreign after what came of an operation, if it ended.
abbrev pub Stays : ℤ → Option Outcome → Type 0
Stays id none = Unit
Stays id (some r) = is_foreign id r.1.ctrl ≡ true

cleaned-Stays :
    (id : ℤ) (w : World) (p : Plan) (c : Controller) (o : Option Built)
    → is_foreign id c ≡ true
    → Keeps c o
    → Stays id (cleaned w p o)
cleaned-Stays id w p c none f k = tt
cleaned-Stays id w p c (some b) f k =
    ap (λ m. get_or (lookup id m) false)
      (clean_up-foreign w p b ∙ ap (λ (d : Controller). d.foreign) k)
    ∙ f

cloned-Stays :
    (id : ℤ) (fuel : ℕ) (w : World) (p : Plan) (o : Option PveError) (st : St)
    → is_foreign id st.ctrl ≡ true
    → Stays id (cloned fuel w p o st)
cloned-Stays id fuel w p none st f = cleaned-Stays id w p st.ctrl _ f (build-Keeps fuel w p st)
cloned-Stays id fuel w p (some e) st f =
    ground (arith, lookup-insert p.vmid id true st.ctrl.foreign)

create-Stays :
    (id : ℤ) (fuel : ℕ) (w : World) (s : ScaleSetState) (template : Vm) (vmid : ℤ) (st : St)
    → is_foreign id st.ctrl ≡ true
    → Stays id (Create.create fuel w s template vmid st)
unfolding Create.create
create-Stays id fuel w s template vmid st f = cloned-Stays id fuel w _ _ _ f

hold_off-foreign :
    (w : World) (name : Text) (r : Outcome) → (hold_off w name r).1.ctrl.foreign ≡ r.1.ctrl.foreign
hold_off-foreign w name (none, st) = refl
hold_off-foreign w name (some e, st) = ground arith

pub held_off-foreign :
    (id : ℤ) (w : World) (name : Text) (o : Option Outcome) (r : Outcome)
    → Stays id o
    → elim o [ none ↦ none | some q ↦ some (hold_off w name q) ] ≡ some r
    → is_foreign id r.1.ctrl ≡ true
held_off-foreign id w name none r h e = cc
held_off-foreign id w name (some q) r h e =
    let here : hold_off w name q ≡ r = cc in
    subst (λ (x : Outcome). is_foreign id x.1.ctrl ≡ true) here
      (ap (λ m. get_or (lookup id m) false) (hold_off-foreign w name q) ∙ h)

Ran-foreign :
    {w : World} {op : Op} {st after : St} (id : ℤ)
    → Ran w op st after
    → is_foreign id st.ctrl ≡ true
    → is_foreign id after.ctrl ≡ true
unfolding run_create
Ran-foreign {w} {st} id (retired {s} {vm} {runner} {force}) f =
    ap (λ m. get_or (lookup id m) false) (run_retire-foreign w s vm.vmid _ runner force st) ∙ f
Ran-foreign {w} {st} id (created s fuel r found e) f =
    held_off-foreign id w s.cfg.name _ r (create-Stays id fuel w s _ _ st f) e
Ran-foreign {w} {st} id (pruned {vm}) f =
    ap (λ m. get_or (lookup id m) false) (destroy-foreign w vm.vmid st) ∙ f

-- A VMID is known to be foreign, and no creation under it is on its way.
abbrev pub Barred : ℤ → System → Type 0
Barred id s =
    (is_foreign id s.ctrl ≡ true)
    × (tally (creates id) s.ctrl.started ≡ 0)
    × (tally (creates id) s.waiting ≡ 0)
    × (tally (creates id) s.working ≡ 0)

Fresh-other :
    (id : ℤ) (foreign : List (ℤ × Bool)) (op : Op)
    → get_or (lookup id foreign) false ≡ true
    → Fresh foreign op
    → creates id op ≡ false
Fresh-other id foreign (retire s vm runner force reason) f h = refl
Fresh-other id foreign (prune_template vm) f h = refl
Fresh-other id foreign (create name t vmid) f h = ground (arith, f, h, beq_ℤ_iff vmid id)

start_op-none :
    (id : ℤ) (op : Op) (c : Controller)
    → creates id op ≡ false
    → tally (creates id) c.started ≡ 0
    → tally (creates id) (start_op op c).started ≡ 0
unfolding start_op
start_op-none id op c n h = ground arith

pass-Barred :
    (id : ℤ) (env : PassEnv) (now : Time) (listing : Result Text (List Vm)) (s : System)
    → Barred id s
    → Barred id (passed env now listing s)
unfolding reconcile
pass-Barred id env now (err e) s (f, n, a, b) =
    (f, refl, omega (arith, tally-append (creates id) s.ctrl.started s.waiting, n, a), b)
pass-Barred id env now (ok vms) s (f, n, a, b) =
    let (m, _, _, same) =
      converge-keeps env now vms s.ctrl (λ busy started. tally (creates id) started ≡ 0)
        (λ op d _ fresh h. start_op-none id op d (Fresh-other id s.ctrl.foreign op f fresh) h) n in
    let added = (converge env now vms s.ctrl).started in
    (
      ap (λ k. get_or (lookup id k) false) same ∙ f,
      refl,
      omega (arith, tally-append (creates id) added s.waiting, m, a),
      b,
    )

handled-foreign :
    (name : Text) (m : Message) (o : Option ScaleSetState) (c : Controller)
    → ((handled name m o c).foreign ≡ c.foreign) × ((handled name m o c).started ≡ c.started)
handled-foreign name m none c = (refl, refl)
handled-foreign name m (some s) c = ground arith

-- An operation is taken out of a list.
out_of :
    (f : Op → Bool) (ops before after : List Op) (op : Op)
    → ops ≡ before ++ op ∷ after
    → tally f ops ≡ 0
    → (tally f (before ++ after) ≡ 0) × (f op ≡ false)
out_of f ops before after op e n =
    let whole : tally f (before ++ op ∷ after) ≡ 0 = sym (ap (tally f) e) ∙ n in
    ground (arith, whole, tally-append f before (op ∷ after), tally-append f before after)

Step-Barred : {w : World} {s t : System} (id : ℤ) → Step w s t → Barred id s → Barred id t
unfolding end_op end_comparison
Step-Barred {s} id (Run.pass env now listing e) h = pass-Barred id env now listing s h
Step-Barred id (Run.tick e) h = h
Step-Barred id (Run.wake e f) h = h
Step-Barred id (Run.done e f) h = h
Step-Barred id Run.cancel h = h
Step-Barred {s} id (Run.message name m e) (f, n, a, b) =
    let (same, started) = handled-foreign name m (lookup name s.ctrl.scale_sets) s.ctrl in
    (ap (λ k. get_or (lookup id k) false) same ∙ f, ap (tally (creates id)) started ∙ n, a, b)
Step-Barred {s} id (Run.slot before after op e g) (f, n, a, b) =
    let (rest, other) = out_of (creates id) s.waiting before after op e a in
    (f, n, rest, ground (arith, other, b))
Step-Barred {s} id (Run.quit before after op e g) (f, n, a, b) =
    (f, n, (out_of (creates id) s.waiting before after op e a).0, b)
Step-Barred {s} id (Run.finish before after op st e r) (f, n, a, b) = (
  Ran-foreign id r f,
  ap (tally (creates id)) (Ran-Same r).1 ∙ n,
  a,
  (out_of (creates id) s.working before after op e b).0,
)
Step-Barred id (Run.compare before after template now latest e) h = h
Step-Barred id (Run.closed e) h = h
Step-Barred id (Run.drained e f g) h = h
Step-Barred id (Run.abandon e) h = h

pub Steps-Barred : {w : World} {s t : System} (id : ℤ) → Steps w s t → Barred id s → Barred id t
Steps-Barred id here h = h
Steps-Barred id (later r st) h = Step-Barred id st (Steps-Barred id r h)
