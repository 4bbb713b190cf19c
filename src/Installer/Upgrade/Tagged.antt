-- ===== src/Installer/Upgrade/Tagged.antt =====
-- internal/installer/update.go: the release tag marks a finished update.
use proxmox_actions_runners.Prelude.{
  ℤ, pos, ltb_ℤ, text_eq, Bool, true, false, not, ◌&&◌, List, [], ◌∷◌, ◌++◌, Text, Option, none,
  some, if◌then◌else◌, ◌≡◌, refl, sym, ◌∙◌, ap, ◌⊎◌, inl, inr, Bool-cases, Option-cases, arith,
}
use proxmox_actions_runners.Prelude.Results.{Result, ok, err, Result-cases}
use proxmox_actions_runners.Release.{Version, compare_versions}
use proxmox_actions_runners.Installer.{find_system_vm}
use proxmox_actions_runners.Installer.Upgrade.{
  UpgradeStep, tag_release, Found, Permission, run_steps, run_plan, upgrade, upgrade_steps,
  gateway_tag, controller_tag, with_controller, is_missing, no_gateway,
}
use proxmox_actions_runners.Installer.Upgrade.Plan.{
  has_tag_step, done_all, EndsTagged, with_controller-EndsTagged,
}

module _ (do_step : List UpgradeStep → UpgradeStep → Option Text) where
  -- Each of the steps, newest first, was done without an error.
  abbrev pub Succeeded : List UpgradeStep → Type 0
  Succeeded [] = Unit
  Succeeded (s ∷ ss) = (do_step ss s ≡ none) × Succeeded ss

  untagged_run :
      (steps done : List UpgradeStep)
      → has_tag_step steps ≡ false
      → has_tag_step done ≡ false
      → has_tag_step (run_steps do_step steps done).1 ≡ false
  unfolding run_steps has_tag_step
  untagged_run [] done h k = k
  untagged_run (s ∷ ss) done h k = elim (Option-cases (do_step done s)) [
    | inl e ↦
        rw (run_steps, e) (untagged_run ss (s ∷ done) (ground (arith, h)) (ground (arith, h, k)))
    | inr (x, e) ↦ rw (run_steps, e) (ground (arith, h, k))
  ]

  tagged_run :
      (front done : List UpgradeStep) (c : ℤ)
      → has_tag_step front ≡ false
      → has_tag_step done ≡ false
      → Succeeded done
      → has_tag_step (run_steps do_step (front ++ tag_release c ∷ []) done).1 ≡ true
      → ((run_steps do_step (front ++ tag_release c ∷ []) done).1
          ≡ tag_release c ∷ done_all front done)
        × Succeeded (done_all front done)
  unfolding run_steps has_tag_step done_all
  tagged_run [] done c h k s t = elim (Option-cases (do_step done (tag_release c))) [
    | inl e ↦ rw (run_steps, e) (refl, s)
    | inr (x, e) ↦ rw (run_steps, e) (refl, s)
  ]
  tagged_run (x ∷ front) done c h k s t = elim (Option-cases (do_step done x)) [
    | inl e ↦
        let go : run_steps do_step (x ∷ front ++ tag_release c ∷ []) done
            ≡ run_steps do_step (front ++ tag_release c ∷ []) (x ∷ done) =
          rw (run_steps, e) refl in
        rw go (
          tagged_run front (x ∷ done) c (ground (arith, h)) (ground (arith, h, k)) (e, s)
            (ap (λ o. has_tag_step o.1) (sym go) ∙ t))
    | inr (y, e) ↦
        let go : run_steps do_step (x ∷ front ++ tag_release c ∷ []) done ≡ (some y, x ∷ done) =
          rw (run_steps, e) refl in
        let there : has_tag_step (x ∷ done) ≡ true = ap (λ o. has_tag_step o.1) (sym go) ∙ t in
        absurd (ground (arith, there, h, k))
  ]

  ended_run :
      (steps : List UpgradeStep)
      → EndsTagged steps
      → has_tag_step (run_steps do_step steps []).1 ≡ true
      → (front : List UpgradeStep) × ((c : ℤ) × ((steps ≡ front ++ tag_release c ∷ [])
            × (((run_steps do_step steps []).1 ≡ tag_release c ∷ done_all front [])
                × Succeeded (done_all front []))))
  unfolding has_tag_step
  ended_run steps (inl h) t = absurd (cc (untagged_run steps [] h refl, t))
  ended_run steps (inr (front, (c, (h, e)))) t =
      let ran =
        tagged_run front [] c h refl tt
          (ap (λ ss. has_tag_step (run_steps do_step ss []).1) (sym e) ∙ t) in
      (front, (c, (e, (ap (λ ss. (run_steps do_step ss []).1) e ∙ ran.0, ran.1))))

  -- What a plan that set the tag did.
  abbrev pub DoneBefore : Version → Bool → Found → List UpgradeStep → Type 0
  DoneBefore v force f done =
      (front : List UpgradeStep) × ((c : ℤ) × ((upgrade_steps v force f
            ≡ ok (front ++ tag_release c ∷ []))
          × ((done ≡ tag_release c ∷ done_all front []) × Succeeded (done_all front []))))

  upgrade_steps-EndsTagged :
      (v : Version) (force : Bool) (f : Found) (steps : List UpgradeStep)
      → upgrade_steps v force f ≡ ok steps
      → EndsTagged steps
  unfolding upgrade_steps
  upgrade_steps-EndsTagged v force f steps h = elim (Result-cases f.vms) [
    | inl (e, q) ↦ let ends : upgrade_steps v force f ≡ err e = rw q refl in absurd (cc (ends, h))
    | inr (vms, q) ↦ elim (Bool-cases (is_missing (find_system_vm vms gateway_tag) && not force)) [
      | inl m ↦
          let ends : upgrade_steps v force f ≡ err no_gateway = rw (q, m) refl in
          absurd (cc (ends, h))
      | inr m ↦
          let goes : upgrade_steps v force f
              ≡ with_controller v force f vms (find_system_vm vms gateway_tag)
                  (find_system_vm vms controller_tag) =
            rw (q, m) refl in
          with_controller-EndsTagged v force f vms (find_system_vm vms gateway_tag)
            (find_system_vm vms controller_tag) steps (sym goes ∙ h)
    ]
  ]

  -- A plan starts no step, or is run.
  run_plan-cases :
      (p : Permission) (r : Result Text (List UpgradeStep))
      → ((run_plan do_step p r).1 ≡ [])
        ⊎ ((ss : List UpgradeStep) × ((r ≡ ok ss)
              × (run_plan do_step p r ≡ run_steps do_step ss [])))
  unfolding run_plan
  run_plan-cases p (err e) = inl refl
  run_plan-cases p (ok []) = inl refl
  run_plan-cases p (ok (s ∷ ss)) = elim (Bool-cases p.dry_run) [
    | inl d ↦ inl (rw d refl)
    | inr d ↦ elim (Option-cases (if p.confirmed then none else p.question)) [
      | inr (e, q) ↦ inl (rw (d, q) refl)
      | inl q ↦ elim (Option-cases p.lock) [
        | inr (e, l) ↦ inl (rw (d, q, l) refl)
        | inl l ↦ inr (s ∷ ss, (refl, rw (d, q, l) refl))
      ]
    ]
  ]

  upgrade-cases :
      (v installed : Version) (force : Bool) (p : Permission) (f : Found)
      → ((upgrade do_step v installed force p f).1 ≡ [])
        ⊎ (upgrade do_step v installed force p f ≡ run_plan do_step p (upgrade_steps v force f))
  unfolding upgrade
  upgrade-cases v installed force p f =
      elim (Bool-cases (ltb_ℤ (pos 0) (compare_versions installed v))) [
        | inl n ↦ inl (rw n refl)
        | inr n ↦ elim (Option-cases p.settings) [
          | inl q ↦ inr (rw (n, q) refl)
          | inr (e, q) ↦ inl (rw (n, q) refl)
        ]
      ]

  -- For every release, installed release, choice of forcing, answers and behaviour of the steps: if
  -- a step that tags the controller VM with the release is among the steps that Upgrade started,
  -- the plan was some steps and then this one, it was started last, and each step before it
  -- was done, in the plan's order and without an error.
  pub upgrade-DoneBefore :
      (v installed : Version) (force : Bool) (p : Permission) (f : Found)
      → has_tag_step (upgrade do_step v installed force p f).1 ≡ true
      → DoneBefore v force f (upgrade do_step v installed force p f).1
  unfolding has_tag_step
  upgrade-DoneBefore v installed force p f t = elim (upgrade-cases v installed force p f) [
    | inl e ↦ absurd (cc (ap has_tag_step e, t))
    | inr e ↦ elim (run_plan-cases p (upgrade_steps v force f)) [
      | inl n ↦ absurd (cc (ap has_tag_step (ap (λ o. o.1) e ∙ n), t))
      | inr (ss, (q, r)) ↦
          let ran = ap (λ o. o.1) (e ∙ r) in
          let (front, (c, (plan, (done, good)))) =
            ended_run ss (upgrade_steps-EndsTagged v force f ss q)
              (ap has_tag_step (sym ran) ∙ t) in
          (front, (c, (q ∙ ap ok plan, (ran ∙ done, good))))
    ]
  ]
