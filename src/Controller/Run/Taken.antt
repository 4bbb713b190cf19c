-- ===== src/Controller/Run/Taken.antt =====
-- internal/controller/worker.go and reconcile.go: after a clone that fails since the VMID is taken.
use proxmox_actions_runners.Prelude.{
  ℕ, suc, ◌≤◌, ℤ, int_eq, text_eq, ◌≡◌, refl, ap, ◌∙◌, subst, Bool, true, false, if◌then◌else◌,
  List, [], ◌∷◌, ◌++◌, Text, some, lookup, arith, ==-refl,
}
use proxmox_actions_runners.Prelude.Lists.{tally, tally-append}
use proxmox_actions_runners.Prelude.Maps.{lookup-insert_self}
use proxmox_actions_runners.Proxmox.{Vm}
use proxmox_actions_runners.Proxmox.Errors.{PveError, is_vmid_in_use}
use proxmox_actions_runners.Controller.ScaleSet.{ScaleSetState}
use proxmox_actions_runners.Controller.State.{
  Op, retire, create, prune_template, is_busy, end_op, Options,
}
use proxmox_actions_runners.Controller.Register.{Surroundings}
use proxmox_actions_runners.Controller.Worker.{World, St}
use proxmox_actions_runners.Controller.Worker.Create
use proxmox_actions_runners.Controller.Worker.Create.{clone_options, run_create}
use proxmox_actions_runners.Controller.Worker.Creating.{plan_of, create-cloned}
use proxmox_actions_runners.Controller.Run.{System, in_flight, released, Reach, Ran, created}
use proxmox_actions_runners.Controller.Run.Frame.{Ran-Same}
use proxmox_actions_runners.Controller.Run.Invariant.{
  count, count-append, Reach-Inv, Reach-Exclusive,
}
use proxmox_actions_runners.Controller.Run.Stopping.{Steps}
use proxmox_actions_runners.Controller.Run.Foreign.{
  is_foreign, creates, Stays, held_off-foreign, Steps-Barred,
}

taken-Stays :
    (fuel : ℕ) (w : World) (s : ScaleSetState) (template : Vm) (vmid : ℤ) (st : St) (e : PveError)
    → w.clone_answer st.calls (clone_options st.ctrl.cfg.proxmox (plan_of w s template vmid st))
      ≡ some e
    → is_vmid_in_use e ≡ true
    → Stays vmid (Create.create fuel w s template vmid st)
taken-Stays fuel w s template vmid st e a t =
    rw (create-cloned fuel w s template vmid st, a, t)
      (rw (lookup-insert_self vmid true st.ctrl.foreign) refl)

-- The operation whose clone failed marks the VMID as foreign, however it ends.
Ran-taken :
    {w : World} {name : Text} {template : Vm} {vmid : ℤ} {st after : St} (s : ScaleSetState)
    (e : PveError)
    → Ran w (create name template vmid) st after
    → lookup name st.ctrl.scale_sets ≡ some s
    → w.clone_answer st.calls (clone_options st.ctrl.cfg.proxmox (plan_of w s template vmid st))
      ≡ some e
    → is_vmid_in_use e ≡ true
    → is_foreign vmid after.ctrl ≡ true
unfolding run_create
Ran-taken {w} {template} {vmid} {st} s e (created s' fuel r found q) known a t =
    let same : s ≡ s' = cc (found, known) in
    held_off-foreign vmid w s'.cfg.name _ r
      (subst (λ x. Stays vmid (Create.create fuel w x template vmid st)) same
        (taken-Stays fuel w s template vmid st e a t))
      q

tally-count : (id : ℤ) (ops : List Op) → tally (creates id) ops ≤ count id ops
unfolding count
tally-count id [] = omega arith
tally-count id (retire s vm runner force reason ∷ ops) = ground (arith, tally-count id ops)
tally-count id (create name t vmid ∷ ops) = ground (arith, tally-count id ops)
tally-count id (prune_template vm ∷ ops) = ground (arith, tally-count id ops)

count_self :
    (name : Text) (t : Vm) (id : ℤ) (ops : List Op)
    → count id (create name t id ∷ ops) ≡ suc (count id ops)
unfolding count
count_self name t id ops = rw (==-refl id) refl

-- Where at most one operation is under the VMID, no other creation is.
only_one :
    (name : Text) (t : Vm) (id : ℤ) (before after waiting working : List Op)
    → working ≡ before ++ create name t id ∷ after
    → count id (waiting ++ working) ≤ 1
    → (tally (creates id) waiting ≡ 0) × (tally (creates id) (before ++ after) ≡ 0)
only_one name t id before after waiting working e le =
    let whole : count id working ≡ count id (before ++ create name t id ∷ after) =
      ap (count id) e in
    let none_waits : count id waiting ≡ 0 = omega (
      arith,
      le,
      whole,
      count-append id waiting working,
      count-append id before (create name t id ∷ after),
      count_self name t id after,
    ) in
    let none_left : count id (before ++ after) ≡ 0 = omega (
      arith,
      le,
      whole,
      count-append id waiting working,
      count-append id before after,
      count-append id before (create name t id ∷ after),
      count_self name t id after,
    ) in
    (
      omega (arith, none_waits, tally-count id waiting),
      omega (arith, none_left, tally-count id (before ++ after)),
    )

at_most_one : (n : ℕ) (b : Bool) → n ≡ (if b then 1 else 0) → n ≤ 1
at_most_one n true e = omega (arith, e)
at_most_one n false e = omega (arith, e)

-- If the clone of a creation fails since the VMID is taken, in any state that `Run` reaches, then once
-- the creation has ended, and whatever steps follow, the VMID is known to be foreign and no creation
-- under it is in flight.
pub taken-Barred :
    {E : Type 0} {w : World} {env : Surroundings E} {opts : Options} {s u : System} (name : Text)
    (template : Vm) (vmid : ℤ) (before after : List Op) (st : St) (scale_set : ScaleSetState)
    (e : PveError)
    → Reach w env opts s
    → s.working ≡ before ++ create name template vmid ∷ after
    → lookup name s.ctrl.scale_sets ≡ some scale_set
    → w.clone_answer s.calls (
        clone_options s.ctrl.cfg.proxmox
          (plan_of w scale_set template vmid (record { ctrl = s.ctrl; calls = s.calls })))
      ≡ some e
    → is_vmid_in_use e ≡ true
    → Ran w (create name template vmid) (record { ctrl = s.ctrl; calls = s.calls }) st
    → Steps w (record (released (create name template vmid) st s) { working = before ++ after }) u
    → (is_foreign vmid u.ctrl ≡ true) × (tally (creates vmid) (in_flight u) ≡ 0)
unfolding end_op
taken-Barred {s} {u} name template vmid before after st sc e reach at known a t ran steps =
    let one = at_most_one _ (is_busy s.ctrl vmid) ((Reach-Exclusive reach).0 vmid) in
    let (waiting, working) = only_one name template vmid before after s.waiting s.working at one in
    let nothing : st.ctrl.started ≡ [] = (Ran-Same ran).1 ∙ (Reach-Inv reach).none_left in
    let (f, n, k, m) =
      Steps-Barred vmid steps
        (Ran-taken sc e ran known a t, ap (tally (creates vmid)) nothing, waiting, working) in
    (f, omega (arith, tally-append (creates vmid) u.waiting u.working, k, m))
