-- ===== src/Installer/Upgrade/Plan.antt =====
-- internal/installer/update.go: a plan has the step that sets the tag last, if it has it.
use proxmox_actions_runners.Prelude.{
  ℤ, ◌==◌, text_eq, Bool, true, false, not, ◌||◌, List, [], ◌∷◌, ◌++◌, Text, Option, none, some,
  codes, ◌≡◌, refl, subst, ◌⊎◌, inl, inr, Bool-cases, arith,
}
use proxmox_actions_runners.Prelude.Results.{ok, err, Result-cases}
use proxmox_actions_runners.Proxmox.{Vm, has_tag}
use proxmox_actions_runners.Release.{Version}
use proxmox_actions_runners.Installer.{release_tag}
use proxmox_actions_runners.Installer.Upgrade.{
  UpgradeStep, tag_release, Found, finish, Needs, needs, piece_steps, step_if, plan_steps,
  with_controller, gateway_steps, no_controller, install_binary, import_template, replace_gateway,
  replace_controller_binary, push_config, tune_offloads, tune_async_pf,
}

abbrev pub is_tag : UpgradeStep → Bool
is_tag (tag_release controller) = true
is_tag _ = false

-- Whether a step that tags the controller is among them.
unfoldable pub has_tag_step : List UpgradeStep → Bool
has_tag_step [] = false
has_tag_step (s ∷ ss) = is_tag s || has_tag_step ss

-- The steps in the order in which they are done, which are logged newest first.
unfoldable pub done_all : List UpgradeStep → List UpgradeStep → List UpgradeStep
done_all [] done = done
done_all (s ∷ ss) done = done_all ss (s ∷ done)

-- Nothing, or other steps and then the tag.
abbrev pub EndsTagged : List UpgradeStep → Type 0
EndsTagged steps =
    (has_tag_step steps ≡ false)
    ⊎ ((front : List UpgradeStep) × ((c : ℤ) × ((has_tag_step front ≡ false)
            × (steps ≡ front ++ tag_release c ∷ []))))

has_tag_step-append :
    (xs ys : List UpgradeStep) → has_tag_step (xs ++ ys) ≡ (has_tag_step xs || has_tag_step ys)
unfolding has_tag_step
has_tag_step-append [] ys = refl
has_tag_step-append (x ∷ xs) ys = ground (arith, has_tag_step-append xs ys)

finish-EndsTagged :
    (v : Version) (c : Vm) (steps : List UpgradeStep)
    → has_tag_step steps ≡ false
    → EndsTagged (finish v c steps)
unfolding has_tag_step
finish-EndsTagged v c [] h = elim (Bool-cases (has_tag c (release_tag v))) [
  | inl e ↦ rw e (inl refl)
  | inr e ↦ rw e (inr ([], (c.vmid, (refl, refl))))
]
finish-EndsTagged v c (s ∷ ss) h = inr (s ∷ ss, (c.vmid, (h, refl)))

step_if-untagged :
    (b : Bool) (s : UpgradeStep) → is_tag s ≡ false → has_tag_step (step_if b s) ≡ false
unfolding has_tag_step
step_if-untagged true s h = ground (arith, h)
step_if-untagged false s h = refl

gateway_steps-untagged :
    (v : Version) (force : Bool) (g : Option Vm) (c : ℤ)
    → has_tag_step (gateway_steps v force g c) ≡ false
unfolding gateway_steps has_tag_step
gateway_steps-untagged v force none c = refl
gateway_steps-untagged v force (some g) c =
    step_if-untagged (force || not (has_tag g (release_tag v))) (replace_gateway g.vmid c) refl

untagged_if :
    (b : Bool) (s : UpgradeStep) (rest : List UpgradeStep)
    → is_tag s ≡ false
    → has_tag_step rest ≡ false
    → has_tag_step (step_if b s ++ rest) ≡ false
untagged_if b s rest h k =
    ground (arith, has_tag_step-append (step_if b s) rest, step_if-untagged b s, h, k)

piece_steps-untagged :
    (n : Needs) (gateway : List UpgradeStep) (c : ℤ)
    → has_tag_step gateway ≡ false
    → has_tag_step (piece_steps n gateway c) ≡ false
piece_steps-untagged n gateway c h =
    let last = step_if n.async_pf tune_async_pf in
    let tuning = step_if n.offloads tune_offloads ++ last in
    let config = step_if n.config (push_config c) ++ tuning in
    let binary = step_if n.controller_binary (replace_controller_binary c) ++ config in
    let later : has_tag_step binary ≡ false =
      untagged_if n.controller_binary (replace_controller_binary c) config refl (
        untagged_if n.config (push_config c) tuning refl (
          untagged_if n.offloads tune_offloads last refl
            (step_if-untagged n.async_pf tune_async_pf refl))) in
    untagged_if n.host_binary install_binary
      (step_if n.template import_template ++ (gateway ++ binary)) refl
      (untagged_if n.template import_template (gateway ++ binary) refl
        (ground (arith, has_tag_step-append gateway binary, h, later)))

plan_steps-EndsTagged :
    (v : Version) (force : Bool) (f : Found) (vms : List Vm) (gateway : Option Vm) (c : Vm)
    (version want : Text)
    → EndsTagged (plan_steps v force f vms gateway c version want)
unfolding plan_steps
plan_steps-EndsTagged v force f vms gateway c version want =
    finish-EndsTagged v c
      (piece_steps (needs v force f vms version want) (gateway_steps v force gateway c.vmid) c.vmid)
      (piece_steps-untagged (needs v force f vms version want)
        (gateway_steps v force gateway c.vmid) c.vmid
        (gateway_steps-untagged v force gateway c.vmid))

pub with_controller-EndsTagged :
    (v : Version) (force : Bool) (f : Found) (vms : List Vm) (gateway controller : Option Vm)
    (steps : List UpgradeStep)
    → with_controller v force f vms gateway controller ≡ ok steps
    → EndsTagged steps
unfolding with_controller
with_controller-EndsTagged v force f vms gateway none steps h = cc
with_controller-EndsTagged v force f vms gateway (some c) steps h =
    elim (Bool-cases (c.status == codes "running")) [
      | inl r ↦ elim (Result-cases f.controller_version) [
        | inl (e, q) ↦
            let ends : with_controller v force f vms gateway (some c) ≡ err e = rw (r, q) refl in
            absurd (cc (ends, h))
        | inr (version, q) ↦ elim (Result-cases f.want_config) [
          | inl (e, w) ↦
              let ends : with_controller v force f vms gateway (some c) ≡ err e =
                rw (r, q, w) refl in
              absurd (cc (ends, h))
          | inr (want, w) ↦
              let ends : with_controller v force f vms gateway (some c)
                  ≡ ok (plan_steps v force f vms gateway c version want) =
                rw (r, q, w) refl in
              subst EndsTagged (cc (ends, h))
                (plan_steps-EndsTagged v force f vms gateway c version want)
        ]
      ]
      | inr r ↦
          let ends : with_controller v force f vms gateway (some c) ≡ err no_controller =
            rw r refl in
          absurd (cc (ends, h))
    ]
