-- ===== src/Controller/ScaleSet/Target.antt =====
-- internal/controller/scaleset.go: the target that GitHub's messages set.
use proxmox_actions_runners.Prelude.{ℤ, pos, ◌+ℤ◌, ◌≤ℤ◌, ◌≡◌, ◌↔◌, ◌⊎◌, true, false, arith}
use proxmox_actions_runners.Prelude.Int.{Fits64, wrap64-id, +ℤ_parts, beq_ℤ_iff}
use proxmox_actions_runners.Controller.ScaleSet.{
  ScaleSetState, desired_target, desired_runners, target,
}

-- With the configured bounds in order and no overflow, the target is one worker for each assigned
-- job on top of `minRunners`, or `maxRunners` where that is less; so it lies between the two.
pub desired_runners_bounds :
    (s : ScaleSetState) (n : ℤ)
    → pos 0 ≤ℤ n
    → pos 0 ≤ℤ s.cfg.min_runners
    → s.cfg.min_runners ≤ℤ s.cfg.max_runners
    → Fits64 (s.cfg.min_runners +ℤ n)
    → let t = (desired_runners n s).1 in
      (s.cfg.min_runners ≤ℤ t)
      × (t ≤ℤ s.cfg.max_runners)
      × (t ≤ℤ s.cfg.min_runners +ℤ n)
      × ((t ≡ s.cfg.max_runners) ⊎ (t ≡ s.cfg.min_runners +ℤ n))
unfolding desired_runners desired_target
desired_runners_bounds s n h k l f =
    ground (arith, +ℤ_parts s.cfg.min_runners n, wrap64-id (s.cfg.min_runners +ℤ n) f)

-- A message is recorded as the known target, which GitHub is told, and it leaves the reconcile
-- loop asleep exactly if that was the known target before.
pub desired_runners-wake :
    (s : ScaleSetState) (n : ℤ)
    → let (s', t, wake) = desired_runners n s in
      (target s' ≡ (t, true)) × ((wake ≡ false) ↔ (target s ≡ target s'))
unfolding desired_runners target
desired_runners-wake s n = ground (arith, beq_ℤ_iff s.desired (desired_target s.cfg n))
