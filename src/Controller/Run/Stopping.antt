-- ===== src/Controller/Run/Stopping.antt =====
-- internal/controller/controller.go: `Run` on the way out.
use mathlib.Core.List.{append_assoc}
use mathlib.Core.List.Permᴰ
use mathlib.Core.List.{Permᴰ}
use proxmox_actions_runners.Prelude.{
  sym, subst, [], ◌≡◌, refl, Bool, true, false, List, ◌∷◌, ◌++◌, int_eq, text_eq,
}
use proxmox_actions_runners.Controller.State.{Op, end_op}
use proxmox_actions_runners.Controller.Worker.{World}
use proxmox_actions_runners.Controller.Run
use proxmox_actions_runners.Controller.Run.{System, Phase, in_flight, Step}

-- The loop has been left.
abbrev pub is_leaving : Phase → Bool
is_leaving Phase.reconciling = false
is_leaving Phase.selecting = false
is_leaving _ = true

-- Any number of steps.
pub data Steps (w : World) (s : System) : System → Type 0 where
  here : Steps w s s
  later : {t u : System} → Steps w s t → Step w t u → Steps w s u

taken_from :
    {ops : List Op} (before after rest : List Op) (op : Op)
    → ops ≡ before ++ op ∷ after
    → Permᴰ (ops ++ rest) (op ∷ ((before ++ after) ++ rest))
taken_from before after rest op e =
    subst (λ x. Permᴰ (x ++ rest) (op ∷ ((before ++ after) ++ rest))) (sym e)
      (Permᴰ.append_right rest (Permᴰ.middle op before after))

-- The loop is left, and the operations in flight are those of before but some that ended.
abbrev Leaves : System → System → Type 0
Leaves s t =
    (is_leaving s.phase ≡ true)
    → (is_leaving t.phase ≡ true) × ((ended : List Op) × Permᴰ (in_flight s) (ended ++ in_flight t))

Step-Leaves : {w : World} {s t : System} → Step w s t → Leaves s t
unfolding end_op
Step-Leaves (Run.pass env now listing e) l = absurd (let f = rw e at l in cc)
Step-Leaves (Run.tick e) l = absurd (let f = rw e at l in cc)
Step-Leaves (Run.wake e f) l = absurd (let f = rw e at l in cc)
Step-Leaves (Run.done e f) l = absurd (let f = rw e at l in cc)
Step-Leaves {s} Run.cancel l = (l, ([], Permᴰ.refl (in_flight s)))
Step-Leaves {s} (Run.message name m e) l = (l, ([], Permᴰ.refl (in_flight s)))
Step-Leaves {s} (Run.slot before after op e f) l = (
  l,
  (
    [],
    Permᴰ.trans (taken_from before after s.working op e)
        (Permᴰ.symm (Permᴰ.middle op (before ++ after) s.working)),
  ),
)
Step-Leaves {s} (Run.quit before after op e f) l =
    (l, (op ∷ [], taken_from before after s.working op e))
Step-Leaves {s} (Run.finish before after op st e r) l = (
  l,
  (
    op ∷ [],
    Permᴰ.trans (Permᴰ.append_comm s.waiting s.working) (
        Permᴰ.trans (taken_from before after s.waiting op e)
          (Permᴰ.append_left (op ∷ []) (Permᴰ.append_comm (before ++ after) s.waiting))),
  ),
)
Step-Leaves {s} (Run.compare before after template now latest e) l =
    (l, ([], Permᴰ.refl (in_flight s)))
Step-Leaves {s} (Run.closed e) l = (refl, ([], Permᴰ.refl (in_flight s)))
Step-Leaves {s} (Run.drained e f g) l = (refl, ([], Permᴰ.refl (in_flight s)))
Step-Leaves {s} (Run.abandon e) l = (refl, ([], Permᴰ.refl (in_flight s)))

-- Once `Run` has left its loop it never comes back to it, and nothing is put in the background any
-- more: whatever steps follow, the operations then in flight are, with those that have ended, exactly
-- the ones that were in flight before. Those that still wait for a slot may get one.
pub Steps-leaving :
    {w : World} {s t : System}
    → Steps w s t
    → is_leaving s.phase ≡ true
    → (is_leaving t.phase ≡ true) × ((ended : List Op) × Permᴰ (in_flight s) (ended ++ in_flight t))
Steps-leaving {s} here l = (l, ([], Permᴰ.refl (in_flight s)))
Steps-leaving (later {u} r st) l =
    let (left, (ended, p)) = Steps-leaving r l in
    let (out, (more, q)) = Step-Leaves st left in
    (
      out,
      (
        ended ++ more,
        rw (append_assoc ended more (in_flight u)) (Permᴰ.trans p (Permᴰ.append_left ended q)),
      ),
    )
