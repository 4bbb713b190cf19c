-- ===== src/Controller/Run/Invariant.antt =====
-- internal/controller/worker.go: the operations in flight, whatever comes in between.
use proxmox_actions_runners.Prelude.{
  ℕ, suc, ◌+◌, ◌≤◌, ◌<◌, ℤ, ◌==◌, int_eq, text_eq, ◌≡◌, refl, sym, ap, ◌∙◌, subst, Bool, true,
  false, if◌then◌else◌, List, [], ◌∷◌, ◌++◌, Text, Option, none, some, is_some, lookup, delete,
  arith, pos, pos_part, leb_ℤ, not, ◌||◌,
}
use proxmox_actions_runners.Prelude.Int.{beq_ℤ_iff}
use proxmox_actions_runners.Prelude.Lists.{length, length-append}
use proxmox_actions_runners.Prelude.Maps.{lookup-insert, lookup-delete}
use proxmox_actions_runners.Prelude.Results.{Result, ok, err}
use proxmox_actions_runners.Prelude.Time.{Time}
use proxmox_actions_runners.Config.{Config}
use proxmox_actions_runners.Proxmox.{Vm}
use proxmox_actions_runners.Controller.State.{
  Controller, Op, op_vmid, op_label, is_busy, start_op, end_op, Options, new, with_config,
  missing_option,
}
use proxmox_actions_runners.Controller.ScaleSet.{ScaleSetState}
use proxmox_actions_runners.Controller.Freshness.{end_comparison}
use proxmox_actions_runners.Controller.RetireReason.{PassEnv}
use proxmox_actions_runners.Controller.Reconcile.{reconcile, converge}
use proxmox_actions_runners.Controller.Register.{Surroundings}
use proxmox_actions_runners.Controller.Safety.Rule.{converge-keeps}
use proxmox_actions_runners.Controller.Worker.{World, St}
use proxmox_actions_runners.Controller.Run
use proxmox_actions_runners.Controller.Run.{
  System, in_flight, slots_of, Message, handled, passed, released, Step, Reach, run,
}
use proxmox_actions_runners.Controller.Run.Frame.{Same, Ran-Same}

-- How many of the operations are under a VMID.
unfoldable pub count : ℤ → List Op → ℕ
count id [] = 0
count id (op ∷ ops) = let n = count id ops in if op_vmid op == id then suc n else n

pub count-append : (id : ℤ) (xs ys : List Op) → count id (xs ++ ys) ≡ count id xs + count id ys
unfolding count
count-append id [] ys = omega arith
count-append id (op ∷ xs) ys = ground (arith, count-append id xs ys)

-- One if the VMID has an entry in `busy`, else none.
abbrev pub entries : List (ℤ × Text) → ℤ → ℕ
entries busy id = if is_some (lookup id busy) then 1 else 0

start_op-count :
    (base : ℤ → ℕ) (op : Op) (c : Controller)
    → ((id : ℤ) → count id c.started + base id ≡ entries c.busy id)
    → (id : ℤ) → count id (start_op op c).started + base id ≡ entries (start_op op c).busy id
unfolding start_op is_busy count
start_op-count base op c h id =
    ground
      (arith, h id, lookup-insert (op_vmid op) id (op_label op) c.busy, beq_ℤ_iff (op_vmid op) id)

-- An operation ends, and its VMID is released.
end-count :
    (before after : List Op) (op : Op) (others : ℤ → ℕ) (busy : List (ℤ × Text))
    → ((id : ℤ) → count id (before ++ op ∷ after) + others id ≡ entries busy id)
    → (id : ℤ) → count id (before ++ after) + others id ≡ entries (delete (op_vmid op) busy) id
unfolding count
end-count before after op others busy h id = ground (
  arith,
  h id,
  count-append id before (op ∷ after),
  count-append id before after,
  lookup-delete (op_vmid op) id busy,
  beq_ℤ_iff (op_vmid op) id,
)

-- A VMID has an entry in `busy` exactly if one operation in flight is under it, and no two are; no
-- more operations work than there are slots; and what a pass started is in the background.
pub record Inv (slots : ℤ) (s : System) : Type 0 where
  pub exact : (id : ℤ) → count id (in_flight s) ≡ entries s.ctrl.busy id
  pub none_left : s.ctrl.started ≡ []
  pub same : s.ctrl.slots ≡ slots
  pub few : length s.working ≤ pos_part slots

-- The same, of the parts that it is about.
abbrev Parts : ℤ → List (ℤ × Text) → List Op → ℤ → List Op → List Op → Type 0
Parts slots busy started n waiting working =
    ((id : ℤ) → count id waiting + count id working ≡ entries busy id)
    × (started ≡ [])
    × (n ≡ slots)
    × (length working ≤ pos_part slots)

from_Parts :
    (slots : ℤ) (s : System)
    → Parts slots s.ctrl.busy s.ctrl.started s.ctrl.slots s.waiting s.working
    → Inv slots s
from_Parts slots s (e, n, k, f) = record {
  exact = λ id. count-append id s.waiting s.working ∙ e id;
  none_left = n;
  same = k;
  few = f;
}

to_Parts :
    (slots : ℤ) (s : System)
    → Inv slots s
    → Parts slots s.ctrl.busy s.ctrl.started s.ctrl.slots s.waiting s.working
to_Parts slots s i =
    (λ id. sym (count-append id s.waiting s.working) ∙ i.exact id, i.none_left, i.same, i.few)

Same-Parts :
    (slots : ℤ) (c d : Controller) (waiting working : List Op)
    → Same c d
    → Parts slots c.busy c.started c.slots waiting working
    → Parts slots d.busy d.started d.slots waiting working
Same-Parts slots c d waiting working (b, s, n) p = rw (b, s, n) p

handled-Same :
    (name : Text) (m : Message) (o : Option ScaleSetState) (c : Controller)
    → Same c (handled name m o c)
handled-Same name m none c = (refl, refl, refl)
handled-Same name m (some s) c = ground arith

-- What a pass starts joins the operations in flight.
pass-Inv :
    (slots : ℤ) (env : PassEnv) (now : Time) (listing : Result Text (List Vm)) (s : System)
    → Inv slots s
    → Inv slots (passed env now listing s)
unfolding reconcile count
pass-Inv slots env now (err e) s i =
    let (x, n, k, f) = to_Parts slots s i in from_Parts slots _ (rw n x, refl, k, f)
pass-Inv slots env now (ok vms) s i =
    let (x, n, k, f) = to_Parts slots s i in
    let others : ℤ → ℕ = λ id. count id s.waiting + count id s.working in
    let at_start : (id : ℤ) → count id s.ctrl.started + others id ≡ entries s.ctrl.busy id =
      λ id. rw n (omega (arith, x id)) in
    let (y, m, _, _) =
      converge-keeps env now vms s.ctrl
        (λ busy started. (id : ℤ) → count id started + others id ≡ entries busy id)
        (λ op c a f h. start_op-count others op c h) at_start in
    from_Parts slots _ (
      (λ id. omega (arith, y id, count-append id (converge env now vms s.ctrl).started s.waiting)),
      refl,
      m ∙ k,
      f,
    )

slot-Inv :
    (slots : ℤ) (before after : List Op) (op : Op) (s : System)
    → s.waiting ≡ before ++ op ∷ after
    → length s.working < slots_of s.ctrl
    → Inv slots s
    → Inv slots (record s { waiting = before ++ after; working = op ∷ s.working })
unfolding count
slot-Inv slots before after op s e f i =
    let (x, n, k, g) = to_Parts slots s i in
    let moved : (id : ℤ)
        → count id (before ++ after) + count id (op ∷ s.working) ≡ entries s.ctrl.busy id =
      λ id.
        let whole : count id (before ++ op ∷ after) + count id s.working ≡ entries s.ctrl.busy id =
          rw (← e) (x id) in
        ground (arith, whole, count-append id before (op ∷ after), count-append id before after) in
    from_Parts slots _ (moved, n, k, ground arith)

finish-Inv :
    (slots : ℤ) (before after : List Op) (op : Op) (st : St) (s : System)
    → s.working ≡ before ++ op ∷ after
    → Same s.ctrl st.ctrl
    → Inv slots s
    → Inv slots (record (released op st s) { working = before ++ after })
unfolding end_op
finish-Inv slots before after op st s e same i =
    let (x, n, k, g) =
      Same-Parts slots s.ctrl st.ctrl s.waiting s.working same (to_Parts slots s i) in
    let whole : (id : ℤ)
        → count id (before ++ op ∷ after) + count id s.waiting ≡ entries st.ctrl.busy id =
      λ id. rw (← e) (omega (arith, x id)) in
    let rest = end-count before after op (λ id. count id s.waiting) st.ctrl.busy whole in
    let fewer : length (before ++ after) ≤ pos_part slots =
      omega (arith, ap length e, length-append before (op ∷ after), length-append before after) in
    from_Parts slots _ ((λ id. omega (arith, rest id)), n, k, fewer)

quit-Inv :
    (slots : ℤ) (before after : List Op) (op : Op) (s : System)
    → s.waiting ≡ before ++ op ∷ after
    → Inv slots s
    → Inv slots (record (released op (record { ctrl = s.ctrl; calls = s.calls }) s) {
      waiting = before ++ after;
    })
unfolding end_op
quit-Inv slots before after op s e i =
    let (x, n, k, g) = to_Parts slots s i in
    let whole : (id : ℤ)
        → count id (before ++ op ∷ after) + count id s.working ≡ entries s.ctrl.busy id =
      λ id. rw (← e) (x id) in
    from_Parts slots _
      (end-count before after op (λ id. count id s.working) s.ctrl.busy whole, n, k, g)

Step-Inv : {w : World} {slots : ℤ} {s t : System} → Step w s t → Inv slots s → Inv slots t
unfolding end_comparison
Step-Inv {slots} {s} (Run.pass env now listing e) i = pass-Inv slots env now listing s i
Step-Inv {slots} {s} (Run.tick e) i = from_Parts slots _ (to_Parts slots s i)
Step-Inv {slots} {s} (Run.wake e f) i = from_Parts slots _ (to_Parts slots s i)
Step-Inv {slots} {s} (Run.done e f) i = from_Parts slots _ (to_Parts slots s i)
Step-Inv {slots} {s} Run.cancel i = from_Parts slots _ (to_Parts slots s i)
Step-Inv {slots} {s} (Run.message name m e) i = from_Parts slots _ (
    Same-Parts slots s.ctrl (handled name m (lookup name s.ctrl.scale_sets) s.ctrl) s.waiting
      s.working (handled-Same name m _ s.ctrl) (to_Parts slots s i))
Step-Inv {slots} {s} (Run.slot before after op e f) i = slot-Inv slots before after op s e f i
Step-Inv {slots} {s} (Run.quit before after op e f) i = quit-Inv slots before after op s e i
Step-Inv {slots} {s} (Run.finish before after op st e r) i =
    finish-Inv slots before after op st s e (Ran-Same r) i
Step-Inv {slots} {s} (Run.compare before after template now latest e) i =
    from_Parts slots _ (to_Parts slots s i)
Step-Inv {slots} {s} (Run.closed e) i = from_Parts slots _ (to_Parts slots s i)
Step-Inv {slots} {s} (Run.drained e f g) i = from_Parts slots _ (to_Parts slots s i)
Step-Inv {slots} {s} (Run.abandon e) i = from_Parts slots _ (to_Parts slots s i)

-- How many operations may work at a time.
abbrev pub parallelism_of : Options → ℤ
parallelism_of opts = if leb_ℤ opts.parallelism (pos 0) then pos 3 else opts.parallelism

with_config-Inv :
    (opts : Options) (cfg : Config) (registered : List (Text × ScaleSetState))
    → Inv (parallelism_of opts) (run (with_config opts cfg) registered)
unfolding lookup count
with_config-Inv opts cfg registered =
    from_Parts _ (run (with_config opts cfg) registered) ((λ id. refl), refl, refl, omega arith)

run-Inv :
    (opts : Options) (c : Controller) (registered : List (Text × ScaleSetState))
    → new opts ≡ ok c
    → Inv (parallelism_of opts) (run c registered)
unfolding new
run-Inv opts c registered e = from (opts.config) e
  where
    checked :
        (b : Bool) (cfg : Config)
        → (if b then err missing_option else ok (with_config opts cfg)) ≡ ok c
        → Inv (parallelism_of opts) (run c registered)
    checked true cfg q = cc
    checked false cfg q =
        let same : with_config opts cfg ≡ c = cc in
        subst (λ d. Inv (parallelism_of opts) (run d registered)) same
          (with_config-Inv opts cfg registered)

    from :
        (o : Option Config)
        → elim o [
          | none ↦ err missing_option
          | some cfg ↦
              if not opts.has_proxmox || not opts.has_github
              then err missing_option
              else ok (with_config opts cfg)
        ]
          ≡ ok c
        → Inv (parallelism_of opts) (run c registered)
    from none q = cc
    from (some cfg) q = checked _ cfg q

pub Reach-Inv :
    {E : Type 0} {w : World} {env : Surroundings E} {opts : Options} {s : System}
    → Reach w env opts s
    → Inv (parallelism_of opts) s
Reach-Inv {opts} (Run.start c fuel events registered made e) = run-Inv opts c registered made
Reach-Inv (Run.later r st) = Step-Inv st (Reach-Inv r)

-- In every state that `Run` reaches, whatever passes, messages and operations come in between, a VMID
-- is taken in `busy` exactly if an operation in flight is under it, no two operations in flight are
-- under the same VMID, and no more operations work than the parallelism allows.
pub Reach-Exclusive :
    {E : Type 0} {w : World} {env : Surroundings E} {opts : Options} {s : System}
    → Reach w env opts s
    → ((id : ℤ) → count id (in_flight s) ≡ (if is_busy s.ctrl id then 1 else 0))
      × (length s.working ≤ pos_part (parallelism_of opts))
unfolding is_busy
Reach-Exclusive r = let i = Reach-Inv r in (i.exact, i.few)
