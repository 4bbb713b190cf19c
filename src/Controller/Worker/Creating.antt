-- ===== src/Controller/Worker/Creating.antt =====
-- internal/controller/worker.go: what a creation leaves behind.
use mathlib.Core.List.{Memᴰ}
use proxmox_actions_runners.Prelude.{
  ℕ, zero, ℤ, ◌≡◌, refl, Bool, true, false, List, [], ◌∷◌, Text, Option, none, some, inl, inr, ◌⊎◌,
  ◌≤ℤ◌, ◌*◌, suc, arith,
}
use proxmox_actions_runners.Prelude.Results.{Result, ok, err}
use proxmox_actions_runners.Prelude.Int.{+ℤ_parts}
use proxmox_actions_runners.Prelude.Time.{Time, seconds, truncate_second}
use proxmox_actions_runners.Proxmox.{Vm}
use proxmox_actions_runners.Proxmox.Errors.{PveError}
use proxmox_actions_runners.Controller.Naming.{jit_config_path, jit_ready_path}
use proxmox_actions_runners.Controller.ScaleSet.{ScaleSetState}
use proxmox_actions_runners.Controller.Worker.{
  wait_for_agent, World, St, Call, clone, set_config, destroy, agent_write_file, agent_ping, sleep,
  generate_jit_config, OpError, configure_failed, grow_failed, start_failed, deliver_failed,
  signal_failed, mark_failed, Outcome, called,
}
use proxmox_actions_runners.Controller.Worker.Create.{
  Built, Plan, plan_name, step, register, booted, tag_setting, deliver, build, clean_up, cleaned,
  clone_options, cloned, create,
}
use proxmox_actions_runners.Controller.Worker.Retiring.{retire_force-destroys}
use proxmox_actions_runners.Controller.Worker.Waiting.{Clock, wait_for_agent-total}

-- The JIT config is what GitHub answered when it was asked to register the worker's runner, in the
-- course of the calls made so far.
pub data Issued (w : World) (p : Plan) (jit : Text) : List Call → Type 0 where
  asked :
      {before : List Call}
      → w.jit_config_answer before (plan_name p) ≡ ok jit
      → Issued w p jit (generate_jit_config p.scale_set.id (plan_name p) ∷ before)
  since : {c : Call} {calls : List Call} → Issued w p jit calls → Issued w p jit (c ∷ calls)

-- A worker is ready: the JIT config that GitHub issued for its runner was delivered, then marked as
-- complete, and then the VM was tagged as ready, with no call after that.
abbrev pub Ready : World → Plan → List Call → Type 0
Ready w p calls =
    (jit : Text) × (before : List Call) × (Issued w p jit before)
    × (calls
        ≡ set_config p.vmid (tag_setting p true ∷ [])
          ∷ agent_write_file p.vmid jit_ready_path []
          ∷ agent_write_file p.vmid jit_config_path jit
          ∷ before)

abbrev Sound : World → Plan → Built → Type 0
Sound w p b = ((b.error ≡ none) × Ready w p b.after.calls) ⊎ ((e : OpError) × (b.error ≡ some e))

-- The fuel was enough, and what was built is sound.
abbrev Returns : World → Plan → Option Built → Type 0
Returns w p none = ⊥
Returns w p (some b) = Sound w p b

-- The wait for the agent, if it ends, only adds calls.
abbrev StillIssued : World → Plan → Text → Option Outcome → Type 0
StillIssued w p jit none = Unit
StillIssued w p jit (some r) = Issued w p jit r.1.calls

wait_for_agent-StillIssued :
    (fuel : ℕ) (w : World) (p : Plan) (jit : Text) (vmid : ℤ) (deadline : Time) (st : St)
    → Issued w p jit st.calls
    → StillIssued w p jit (wait_for_agent fuel w vmid deadline st)
unfolding wait_for_agent
wait_for_agent-StillIssued zero w p jit vmid deadline st h = tt
wait_for_agent-StillIssued (suc fuel) w p jit vmid deadline st h =
    let pinged = called (agent_ping vmid) st in
    let slept = called (sleep st.ctrl.agent_poll) pinged in
    let once : Issued w p jit pinged.calls = since h in
    let twice : Issued w p jit slept.calls = since once in
    ground (arith, once, twice, wait_for_agent-StillIssued fuel w p jit vmid deadline slept twice)

step-Returns :
    (w : World) (p : Plan) (o : Option PveError) (f : PveError → OpError) (registered : Bool)
    (st : St) (next : St → Option Built)
    → Returns w p (next st)
    → Returns w p (step o f registered st next)
unfolding step
step-Returns w p none f registered st next h = h
step-Returns w p (some e) f registered st next h = inr (f e, refl)

register-Returns :
    (w : World) (p : Plan) (r : Result Bool Text) (st : St) (next : Text → St → Option Built)
    → ((jit : Text) → r ≡ ok jit → Returns w p (next jit st))
    → Returns w p (register r st next)
unfolding register
register-Returns w p (err c) st next h = inr (_, refl)
register-Returns w p (ok jit) st next h = h jit refl

booted-Returns :
    (w : World) (p : Plan) (jit : Text) (o : Option Outcome) (next : St → Option Built)
    → ((r : Outcome) × (o ≡ some r))
    → StillIssued w p jit o
    → ((st : St) → Issued w p jit st.calls → Returns w p (next st))
    → Returns w p (booted o next)
unfolding booted
booted-Returns w p jit none next (r, e) k h = absurd (ground arith)
booted-Returns w p jit (some (none, st)) next e k h = h st k
booted-Returns w p jit (some (some x, st)) next e k h = inr (x, refl)

deliver-Returns :
    (fuel : ℕ) (w : World) (p : Plan) (jit : Text) (st : St)
    → Clock w
    → st.ctrl.agent_poll ≡ seconds 2
    → st.ctrl.boot_timeout ≤ℤ seconds (2 * fuel)
    → Issued w p jit st.calls
    → Returns w p (deliver (suc fuel) w p jit st)
unfolding deliver
deliver-Returns fuel w p jit st k poll short issued =
    booted-Returns w p jit _ _
      (wait_for_agent-total fuel w p.vmid _ st k poll (
        omega (
          arith,
          +ℤ_parts (w.now st.calls) st.ctrl.boot_timeout,
          +ℤ_parts (w.now st.calls) (seconds (2 * fuel)),
        )))
      (wait_for_agent-StillIssued (suc fuel) w p jit p.vmid _ st issued)
      λ st1 k1. step-Returns w p _ deliver_failed true _ _ (
        step-Returns w p _ signal_failed true _ _
          (step-Returns w p _ mark_failed true _ _ (inl (refl, (jit, st1.calls, k1, refl)))))

build-Returns :
    (fuel : ℕ) (w : World) (p : Plan) (st : St)
    → Clock w
    → st.ctrl.agent_poll ≡ seconds 2
    → st.ctrl.boot_timeout ≤ℤ seconds (2 * fuel)
    → Returns w p (build (suc fuel) w p st)
unfolding build
build-Returns fuel w p st k poll short = step-Returns w p _ configure_failed false _ _ (
    step-Returns w p _ grow_failed false _ _ (
      register-Returns w p _ _ _ λ jit e.
        step-Returns w p _ start_failed true _ _
          (deliver-Returns fuel w p jit _ k poll short (since (asked e)))))

-- What a creation whose clone succeeded comes to: a ready worker, or an error and a VM that Proxmox
-- was asked to destroy.
abbrev pub Settled : World → Plan → Outcome → Type 0
Settled w p r =
    ((r.0 ≡ none) × Ready w p r.1.calls)
    ⊎ ((e : OpError) × (r.0 ≡ some e) × Memᴰ (destroy p.vmid) r.1.calls)

clean_up-Settled : (w : World) (p : Plan) (b : Built) → Sound w p b → Settled w p (clean_up w p b)
clean_up-Settled w p b (inl (n, r)) = rw n (inl (refl, r))
clean_up-Settled w p b (inr (e, n)) =
    rw n (inr (e, refl, retire_force-destroys w p.vmid true _ b.after))

cleaned-Settled :
    (w : World) (p : Plan) (o : Option Built)
    → Returns w p o
    → (r : Outcome) × (cleaned w p o ≡ some r) × Settled w p r
cleaned-Settled w p none h = absurd h
cleaned-Settled w p (some b) h = (clean_up w p b, refl, clean_up-Settled w p b h)

-- The plan that `create` makes.
abbrev pub plan_of : World → ScaleSetState → Vm → ℤ → St → Plan
plan_of w s template vmid st = record {
  scale_set = s;
  template = template;
  vmid = vmid;
  created = truncate_second (w.now st.calls);
}

pub create-cloned :
    (fuel : ℕ) (w : World) (s : ScaleSetState) (template : Vm) (vmid : ℤ) (st : St)
    → let p = plan_of w s template vmid st in
      let options = clone_options st.ctrl.cfg.proxmox p in
      create fuel w s template vmid st
      ≡ cloned fuel w p (w.clone_answer st.calls options) (called (clone options) st)
unfolding create
create-cloned fuel w s template vmid st = refl

-- With enough fuel for the boot timeout a creation whose clone succeeds always ends, in one of two
-- ways: it succeeds, and the last three calls delivered the JIT config that GitHub issued for the
-- worker's runner in the scale set, marked it as complete and tagged the VM as ready, in this order; or it fails, and Proxmox was asked to destroy the new VM.
pub create-Settled :
    (fuel : ℕ) (w : World) (s : ScaleSetState) (template : Vm) (vmid : ℤ) (st : St)
    → Clock w
    → st.ctrl.agent_poll ≡ seconds 2
    → st.ctrl.boot_timeout ≤ℤ seconds (2 * fuel)
    → w.clone_answer st.calls (clone_options st.ctrl.cfg.proxmox (plan_of w s template vmid st))
      ≡ none
    → (r : Outcome) × (create (suc fuel) w s template vmid st ≡ some r)
      × Settled w (plan_of w s template vmid st) r
create-Settled fuel w s template vmid st k poll short c =
    let p = plan_of w s template vmid st in
    rw (create-cloned (suc fuel) w s template vmid st, c)
      (cleaned-Settled w p _ (build-Returns fuel w p _ k poll short))
