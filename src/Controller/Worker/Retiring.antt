-- ===== src/Controller/Worker/Retiring.antt =====
-- internal/controller/worker.go: what a retirement does in which order.
use mathlib.Core.List.{Memᴰ}
use proxmox_actions_runners.Prelude.{
  ℤ, ◌≡◌, ◌≢◌, refl, ◌⊎◌, ◌↔◌, sym, ◌∙◌, inl, inr, Bool, true, false, not, ◌&&◌, List, [], ◌∷◌,
  Text, Option, none, some, arith, if◌then◌else◌, is_empty, Bool-cases,
}
use proxmox_actions_runners.Prelude.Results.{Result, ok, err}
use proxmox_actions_runners.Proxmox.{Vm}
use proxmox_actions_runners.Proxmox.Errors.{PveError, is_forbidden}
use proxmox_actions_runners.Controller.Worker.{
  World, St, Call, stop, destroy, runner_by_name, remove_runner, Removal, removed, removal_failed,
  OpError, find_runner_failed, remove_runner_failed, removal_result, forget_runner,
  after_unregister, runner_busy, job_still_running, Outcome, called, unregister, remove_found,
  is_listed, destroy_tolerant, destroy_result, destroy_vm, retire, after_destroy,
}

-- The VM is gone for certain: it was destroyed, or Proxmox refused the destruction and does not
-- list the VM.
abbrev pub Gone : World → List Call → ℤ → Type 0
Gone w before vmid =
    (w.destroy_answer before vmid ≡ none)
    ⊎ ((e : PveError) × (vms : List Vm) × (w.destroy_answer before vmid ≡ some e)
        × (is_forbidden e ≡ true)
        × (w.list_vms_answer (destroy vmid ∷ before) ≡ ok vms)
        × (is_listed vmid vms ≡ false))

destroy_tolerant-Gone :
    (w : World) (vmid : ℤ) (st : St) → (destroy_tolerant w vmid st).0 ≡ none → Gone w st.calls vmid
unfolding destroy_tolerant
destroy_tolerant-Gone w vmid st h =
    from_answer (w.destroy_answer st.calls vmid) (w.list_vms_answer (destroy vmid ∷ st.calls)) refl
      refl h
  where
    from_answer :
        (o : Option PveError) (l : Result PveError (List Vm))
        → w.destroy_answer st.calls vmid ≡ o
        → w.list_vms_answer (destroy vmid ∷ st.calls) ≡ l
        → (destroy_result w vmid o (called (destroy vmid) st)).0 ≡ none
        → Gone w st.calls vmid
    from_answer none l d k h' = inl d
    from_answer (some e) (err f) d k h' = absurd (ground arith)
    from_answer (some e) (ok vms) d k h' = inr (e, vms, d, ground arith, k, ground arith)

Gone-destroy_tolerant :
    (w : World) (vmid : ℤ) (st : St) → Gone w st.calls vmid → (destroy_tolerant w vmid st).0 ≡ none
unfolding destroy_tolerant
Gone-destroy_tolerant w vmid st (inl d) = rw d
Gone-destroy_tolerant w vmid st (inr (e, vms, d, f, l, n)) = rw (d, f, l, n)

unregister-keeps :
    (w : World) (runner : Text) (st : St) (c : Call)
    → Memᴰ c st.calls
    → Memᴰ c (unregister w runner st).1.calls
unfolding unregister
unregister-keeps w runner st c m = after (w.runner_by_name_answer st.calls runner)
  where
    after :
        (r : Result Text (Option ℤ))
        → Memᴰ c (remove_found w r (called (runner_by_name runner) st)).1.calls
    after (err e) = Memᴰ.tail m
    after (ok none) = Memᴰ.tail m
    after (ok (some id)) = Memᴰ.tail (Memᴰ.tail m)

destroy_tolerant-calls_destroy :
    (w : World) (vmid : ℤ) (st : St) → Memᴰ (destroy vmid) (destroy_tolerant w vmid st).1.calls
unfolding destroy_tolerant
destroy_tolerant-calls_destroy w vmid st = after (w.destroy_answer st.calls vmid)
  where
    after :
        (o : Option PveError)
        → Memᴰ (destroy vmid) (destroy_result w vmid o (called (destroy vmid) st)).1.calls
    after none = Memᴰ.head refl
    after (some e) = elim (Bool-cases (is_forbidden e)) [
      | inl y ↦ rw y (Memᴰ.tail (Memᴰ.head refl))
      | inr y ↦ rw y (Memᴰ.head refl)
    ]

after_destroy-keeps :
    (w : World) (vmid : ℤ) (runner : Text) (force : Bool) (r : Outcome) (c : Call)
    → Memᴰ c r.1.calls
    → Memᴰ c (after_destroy w vmid runner force r).1.calls
after_destroy-keeps w vmid runner force (some e, st) c m = m
after_destroy-keeps w vmid runner force (none, st) c m =
    elim (Bool-cases (not (is_empty runner) && force)) [
      | inl y ↦ rw y (unregister-keeps w runner _ c m)
      | inr y ↦ rw y m
    ]

-- A forced retirement always asks Proxmox to destroy the VM, whatever GitHub answers.
pub retire_force-destroys :
    (w : World) (vmid : ℤ) (running : Bool) (runner : Text) (st : St)
    → Memᴰ (destroy vmid) (retire w vmid running runner true st).1.calls
unfolding retire destroy_vm
retire_force-destroys w vmid running runner st = elim (Bool-cases (is_empty runner)) [
  | inl y ↦ rw y (
      after_destroy-keeps w vmid runner true _ (destroy vmid)
        (destroy_tolerant-calls_destroy w vmid _))
  | inr y ↦ rw y (
      after_destroy-keeps w vmid runner true _ (destroy vmid)
        (destroy_tolerant-calls_destroy w vmid _))
]

after_destroy-result :
    (w : World) (vmid : ℤ) (runner : Text) (force : Bool) (r : Outcome)
    → (after_destroy w vmid runner force r).0 ≡ r.0
after_destroy-result w vmid runner force (some e, st) = refl
after_destroy-result w vmid runner force (none, st) = ground arith

retire_force-result :
    (w : World) (vmid : ℤ) (running : Bool) (runner : Text) (st : St)
    → (retire w vmid running runner true st).0
      ≡ (destroy_tolerant w vmid (if running then called (stop vmid) st else st)).0
unfolding retire destroy_vm
retire_force-result w vmid running runner st = elim (Bool-cases (is_empty runner)) [
  | inl y ↦ rw y (after_destroy-result w vmid runner true _)
  | inr y ↦ rw y (after_destroy-result w vmid runner true _)
]

-- A forced retirement asks Proxmox to destroy the VM whatever GitHub answers, and it fails only if
-- the destruction fails; when it succeeds the VM is gone: destroyed, or refused and no longer listed.
pub retire_force :
    (w : World) (vmid : ℤ) (running : Bool) (runner : Text) (st : St)
    → let before = if running then stop vmid ∷ st.calls else st.calls in
      let r = retire w vmid running runner true st in
      Memᴰ (destroy vmid) r.1.calls × ((r.0 ≡ none) ↔ Gone w before vmid)
retire_force w vmid true runner st =
    let same = retire_force-result w vmid true runner st in
    let stopped = record st { calls = stop vmid ∷ st.calls } in
    (
      retire_force-destroys w vmid true runner st,
      (
        (λ h. destroy_tolerant-Gone w vmid stopped (sym same ∙ h)),
        (λ g. same ∙ Gone-destroy_tolerant w vmid stopped g),
      ),
    )
retire_force w vmid false runner st =
    let same = retire_force-result w vmid false runner st in
    (
      retire_force-destroys w vmid false runner st,
      (
        (λ h. destroy_tolerant-Gone w vmid st (sym same ∙ h)),
        (λ g. same ∙ Gone-destroy_tolerant w vmid st g),
      ),
    )

-- GitHub knows no runner of the name any more: it had none, or removed it when asked.
abbrev pub Released : World → Text → List Call → Type 0
Released w runner before =
    (w.runner_by_name_answer before runner ≡ ok none)
    ⊎ ((id : ℤ) × (w.runner_by_name_answer before runner ≡ ok (some id))
        × (w.remove_runner_answer (runner_by_name runner ∷ before) id ≡ removed))

-- GitHub refuses to remove the runner since it is in a job.
abbrev pub InJob : World → Text → List Call → Type 0
InJob w runner before =
    (id : ℤ) × (w.runner_by_name_answer before runner ≡ ok (some id))
    × (w.remove_runner_answer (runner_by_name runner ∷ before) id ≡ job_still_running)

-- Calls that ask GitHub about the runner, after those made before.
abbrev pub OnlyAsked : Text → List Call → List Call → Type 0
OnlyAsked runner before after =
    (after ≡ runner_by_name runner ∷ before)
    ⊎ ((id : ℤ) × (after ≡ remove_runner id ∷ runner_by_name runner ∷ before))

abbrev pub stopped_first : Bool → ℤ → List Call → List Call
stopped_first running vmid calls = if running then stop vmid ∷ calls else calls

-- What a retirement comes to that asks GitHub first.
abbrev pub Unforced : World → ℤ → Bool → Text → St → Outcome → Type 0
Unforced w vmid running runner st r =
    (Released w runner st.calls
      × Memᴰ (destroy vmid) r.1.calls
      × ((asked : List Call) × OnlyAsked runner st.calls asked
          × ((r.0 ≡ none) ↔ Gone w (stopped_first running vmid asked) vmid)))
    ⊎ ((e : OpError) × (r.0 ≡ some e)
        × (Released w runner st.calls → ⊥)
        × (r.1.ctrl ≡ st.ctrl)
        × OnlyAsked runner st.calls r.1.calls
        × ((e ≡ runner_busy) ↔ InJob w runner st.calls))

-- The end of a retirement whose runner GitHub has let go.
let_go :
    (w : World) (vmid : ℤ) (running : Bool) (runner : Text) (st : St)
    → let r = after_unregister w vmid running runner (none, st) in
      Memᴰ (destroy vmid) r.1.calls
      × ((r.0 ≡ none) ↔ Gone w (stopped_first running vmid st.calls) vmid)
unfolding destroy_vm
let_go w vmid true runner st =
    let before = called (stop vmid) (forget_runner runner st) in
    let same = after_destroy-result w vmid runner false (destroy_tolerant w vmid before) in
    (
      after_destroy-keeps w vmid runner false _ (destroy vmid)
          (destroy_tolerant-calls_destroy w vmid before),
      (
        (λ h. destroy_tolerant-Gone w vmid before (sym same ∙ h)),
        (λ g. same ∙ Gone-destroy_tolerant w vmid before g),
      ),
    )
let_go w vmid false runner st =
    let before = forget_runner runner st in
    let same = after_destroy-result w vmid runner false (destroy_tolerant w vmid before) in
    (
      after_destroy-keeps w vmid runner false _ (destroy vmid)
          (destroy_tolerant-calls_destroy w vmid before),
      (
        (λ h. destroy_tolerant-Gone w vmid before (sym same ∙ h)),
        (λ g. same ∙ Gone-destroy_tolerant w vmid before g),
      ),
    )

answered_removed :
    (w : World) (runner : Text) (before : List Call) (id : ℤ) (m : Removal)
    → w.runner_by_name_answer before runner ≡ ok (some id)
    → w.remove_runner_answer (runner_by_name runner ∷ before) id ≡ m
    → m ≢ removed
    → Released w runner before
    → ⊥
answered_removed w runner before id m f r n (inl e) = cc (f, e)
answered_removed w runner before id m f r n (inr (id', f', r')) =
    let same : id ≡ id' = cc (f, f') in n (cc (same, r, r'))

other_answer :
    (w : World) (runner : Text) (before : List Call) (id : ℤ)
    → w.runner_by_name_answer before runner ≡ ok (some id)
    → w.remove_runner_answer (runner_by_name runner ∷ before) id ≡ removal_failed
    → InJob w runner before
    → ⊥
other_answer w runner before id f r (id', f', r') =
    let same : id ≡ id' = cc (f, f') in cc (same, r, r')

unanswered :
    (w : World) (runner : Text) (before : List Call) (x : Text)
    → w.runner_by_name_answer before runner ≡ err x
    → Released w runner before
    → ⊥
unanswered w runner before x f (inl e) = cc (f, e)
unanswered w runner before x f (inr (id, f', r)) = cc (f, f')

removal-Unforced :
    (w : World) (vmid id : ℤ) (running : Bool) (runner : Text) (st : St) (m : Removal)
    → w.runner_by_name_answer st.calls runner ≡ ok (some id)
    → w.remove_runner_answer (runner_by_name runner ∷ st.calls) id ≡ m
    → Unforced w vmid running runner st (
        after_unregister w vmid running runner
          (removal_result m, called (remove_runner id) (called (runner_by_name runner) st)))
removal-Unforced w vmid id running runner st removed f r =
    let asked = called (remove_runner id) (called (runner_by_name runner) st) in
    let (d, g) = let_go w vmid running runner asked in
    inl (inr (id, f, r), d, (asked.calls, inr (id, refl), g))
removal-Unforced w vmid id running runner st job_still_running f r = inr (
  runner_busy,
  refl,
  answered_removed w runner st.calls id job_still_running f r (λ e. cc),
  refl,
  inr (id, refl),
  ((λ e. (id, f, r)), (λ j. refl)),
)
removal-Unforced w vmid id running runner st removal_failed f r = inr (
  remove_runner_failed,
  refl,
  answered_removed w runner st.calls id removal_failed f r (λ e. cc),
  refl,
  inr (id, refl),
  ((λ e. cc), (λ j. absurd (other_answer w runner st.calls id f r j))),
)

found-Unforced :
    (w : World) (vmid : ℤ) (running : Bool) (runner : Text) (st : St) (o : Result Text (Option ℤ))
    → w.runner_by_name_answer st.calls runner ≡ o
    → Unforced w vmid running runner st (
        after_unregister w vmid running runner
          (remove_found w o (called (runner_by_name runner) st)))
found-Unforced w vmid running runner st (err x) f = inr (
  find_runner_failed,
  refl,
  (λ l. unanswered w runner st.calls x f l),
  refl,
  inl refl,
  ((λ e. cc), (λ j. cc (f, j.1))),
)
found-Unforced w vmid running runner st (ok none) f =
    let asked = called (runner_by_name runner) st in
    let (d, g) = let_go w vmid running runner asked in inl (inl f, d, (asked.calls, inl refl, g))
found-Unforced w vmid running runner st (ok (some id)) f =
    removal-Unforced w vmid id running runner st _ f refl

-- A retirement without force asks GitHub first. Only if GitHub has no runner of that name or removes
-- it, Proxmox is asked to destroy the VM, and the retirement succeeds exactly if the VM is gone:
-- destroyed, or refused and no longer listed. In any other case it fails before it touches the VM:
-- the only calls are those that ask GitHub, the controller is as it was, and the error is
-- `runner_busy` exactly if GitHub says that the runner is in a job.
pub retire-Unforced :
    (w : World) (vmid : ℤ) (running : Bool) (runner : Text) (st : St)
    → runner ≢ []
    → Unforced w vmid running runner st (retire w vmid running runner false st)
unfolding retire unregister
retire-Unforced w vmid running [] st h = absurd (h refl)
retire-Unforced w vmid running (c ∷ runner) st h =
    found-Unforced w vmid running (c ∷ runner) st _ refl
