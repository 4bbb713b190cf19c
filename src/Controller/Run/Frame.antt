-- ===== src/Controller/Run/Frame.antt =====
-- internal/controller/worker.go: what an operation in the background leaves as it was.
use proxmox_actions_runners.Prelude.{
  ℕ, zero, suc, ℤ, ◌≡◌, refl, subst, ◌∙◌, Bool, true, Text, Option, none, some, arith, Option-cases,
  inl, inr,
}
use proxmox_actions_runners.Prelude.Results.{Result, ok, err}
use proxmox_actions_runners.Prelude.Time.{Time}
use proxmox_actions_runners.Proxmox.{Vm}
use proxmox_actions_runners.Proxmox.Errors.{PveError}
use proxmox_actions_runners.Controller.ScaleSet.{ScaleSetState}
use proxmox_actions_runners.Controller.State.{Controller, Op}
use proxmox_actions_runners.Controller.Worker.{
  World, St, OpError, Outcome, unregister, destroy_tolerant, destroy_vm, retire, run_retire,
  wait_for_agent, called, sleep, agent_ping,
}
use proxmox_actions_runners.Controller.Worker.Create.{
  Plan, Built, step, register, booted, deliver, build, clean_up, cleaned, cloned, create, hold_off,
  run_create,
}
use proxmox_actions_runners.Controller.Run.{Ran, retired, created, pruned}

-- The operations in flight, what was started, and the slots are the same.
abbrev pub Same : Controller → Controller → Type 0
Same c d = (d.busy ≡ c.busy) × (d.started ≡ c.started) × (d.slots ≡ c.slots)

Same-trans : (c d e : Controller) → Same c d → Same d e → Same c e
Same-trans c d e (b, s, n) (b', s', n') = (b' ∙ b, s' ∙ s, n' ∙ n)

retire-Same :
    (w : World) (vmid : ℤ) (running : Bool) (runner : Text) (force : Bool) (st : St)
    → Same st.ctrl (retire w vmid running runner force st).1.ctrl
unfolding retire unregister destroy_vm destroy_tolerant
retire-Same w vmid running runner force st = ground arith

run_retire-Same :
    (w : World) (s : Option Text) (vmid : ℤ) (running : Bool) (runner : Text) (force : Bool)
    (st : St)
    → Same st.ctrl (run_retire w s vmid running runner force st).1.ctrl
unfolding run_retire
run_retire-Same w s vmid running runner force st =
    ground (arith, retire-Same w vmid running runner force st)

destroy-Same : (w : World) (vmid : ℤ) (st : St) → Same st.ctrl (destroy_tolerant w vmid st).1.ctrl
unfolding destroy_tolerant
destroy-Same w vmid st = ground arith

-- Whatever is built, the controller is `c`.
abbrev pub Keeps : Controller → Option Built → Type 0
Keeps c none = Unit
Keeps c (some b) = b.after.ctrl ≡ c

abbrev Waits : Controller → Option Outcome → Type 0
Waits c none = Unit
Waits c (some r) = r.1.ctrl ≡ c

step-Keeps :
    (c : Controller) (o : Option PveError) (f : PveError → OpError) (b : Bool) (st : St)
    (next : St → Option Built)
    → st.ctrl ≡ c
    → Keeps c (next st)
    → Keeps c (step o f b st next)
unfolding step
step-Keeps c none f b st next e h = h
step-Keeps c (some x) f b st next e h = e

register-Keeps :
    (c : Controller) (r : Result Bool Text) (st : St) (next : Text → St → Option Built)
    → st.ctrl ≡ c
    → ((jit : Text) → Keeps c (next jit st))
    → Keeps c (register r st next)
unfolding register
register-Keeps c (err x) st next e h = e
register-Keeps c (ok jit) st next e h = h jit

booted-Keeps :
    (c : Controller) (o : Option Outcome) (next : St → Option Built)
    → Waits c o
    → ((st : St) → st.ctrl ≡ c → Keeps c (next st))
    → Keeps c (booted o next)
unfolding booted
booted-Keeps c none next e h = tt
booted-Keeps c (some (none, st)) next e h = h st e
booted-Keeps c (some (some x, st)) next e h = e

wait_for_agent-Waits :
    (fuel : ℕ) (w : World) (vmid : ℤ) (deadline : Time) (st : St)
    → Waits st.ctrl (wait_for_agent fuel w vmid deadline st)
unfolding wait_for_agent
wait_for_agent-Waits zero w vmid deadline st = tt
wait_for_agent-Waits (suc fuel) w vmid deadline st = ground (
  arith,
  wait_for_agent-Waits fuel w vmid deadline
      (called (sleep st.ctrl.agent_poll) (called (agent_ping vmid) st)),
)

deliver-Keeps :
    (fuel : ℕ) (w : World) (p : Plan) (jit : Text) (st : St)
    → Keeps st.ctrl (deliver fuel w p jit st)
unfolding deliver
deliver-Keeps fuel w p jit st =
    booted-Keeps st.ctrl _ _ (wait_for_agent-Waits fuel w p.vmid _ st) λ st1 e.
      step-Keeps st.ctrl _ _ _ _ _ e
        (step-Keeps st.ctrl _ _ _ _ _ e (step-Keeps st.ctrl _ _ _ _ _ e e))

pub build-Keeps : (fuel : ℕ) (w : World) (p : Plan) (st : St) → Keeps st.ctrl (build fuel w p st)
unfolding build
build-Keeps fuel w p st = step-Keeps st.ctrl _ _ _ _ _ refl (
    step-Keeps st.ctrl _ _ _ _ _ refl (
      register-Keeps st.ctrl _ _ _ refl
        λ jit. step-Keeps st.ctrl _ _ _ _ _ refl (deliver-Keeps fuel w p jit _)))

-- The same, of what an operation comes to.
abbrev Holds : Controller → Option Outcome → Type 0
Holds c none = Unit
Holds c (some r) = Same c r.1.ctrl

clean_up-Same : (w : World) (p : Plan) (b : Built) → Same b.after.ctrl (clean_up w p b).1.ctrl
clean_up-Same w p b = elim (Option-cases b.error) [
  | inl n ↦ rw n (refl, refl, refl)
  | inr (e, n) ↦ rw n (retire-Same w p.vmid true _ true b.after)
]

cleaned-Holds :
    (w : World) (p : Plan) (c : Controller) (o : Option Built) → Keeps c o → Holds c (cleaned w p o)
cleaned-Holds w p c none h = tt
cleaned-Holds w p c (some b) h = subst (λ x. Same x (clean_up w p b).1.ctrl) h (clean_up-Same w p b)

cloned-Holds :
    (fuel : ℕ) (w : World) (p : Plan) (o : Option PveError) (st : St)
    → Holds st.ctrl (cloned fuel w p o st)
cloned-Holds fuel w p none st = cleaned-Holds w p st.ctrl _ (build-Keeps fuel w p st)
cloned-Holds fuel w p (some e) st = ground arith

hold_off-Same : (w : World) (name : Text) (r : Outcome) → Same r.1.ctrl (hold_off w name r).1.ctrl
hold_off-Same w name (none, st) = (refl, refl, refl)
hold_off-Same w name (some e, st) = ground arith

create-Holds :
    (fuel : ℕ) (w : World) (s : ScaleSetState) (template : Vm) (vmid : ℤ) (st : St)
    → Holds st.ctrl (create fuel w s template vmid st)
unfolding create
create-Holds fuel w s template vmid st = cloned-Holds fuel w _ _ _

held_off-Holds :
    (w : World) (name : Text) (c : Controller) (o : Option Outcome) (r : Outcome)
    → Holds c o
    → elim o [ none ↦ none | some q ↦ some (hold_off w name q) ] ≡ some r
    → Same c r.1.ctrl
held_off-Holds w name c none r h e = cc
held_off-Holds w name c (some q) r h e =
    let here : hold_off w name q ≡ r = cc in
    subst (λ (x : Outcome). Same c x.1.ctrl) here
      (Same-trans c q.1.ctrl (hold_off w name q).1.ctrl h (hold_off-Same w name q))

run_create-Same :
    (fuel : ℕ) (w : World) (s : ScaleSetState) (template : Vm) (vmid : ℤ) (st : St) (r : Outcome)
    → run_create fuel w s template vmid st ≡ some r
    → Same st.ctrl r.1.ctrl
unfolding run_create
run_create-Same fuel w s template vmid st r e =
    held_off-Holds w s.cfg.name st.ctrl (create fuel w s template vmid st) r
      (create-Holds fuel w s template vmid st) e

-- An operation changes neither the set of operations in flight nor the slots.
pub Ran-Same : {w : World} {op : Op} {st after : St} → Ran w op st after → Same st.ctrl after.ctrl
Ran-Same {w} {st} (retired {s} {vm} {runner} {force}) =
    run_retire-Same w s vm.vmid _ runner force st
Ran-Same {w} {st} (created s fuel r found e) = run_create-Same fuel w s _ _ st r e
Ran-Same {w} {st} (pruned {vm}) = destroy-Same w vm.vmid st
