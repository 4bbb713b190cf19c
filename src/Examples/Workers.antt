-- ===== src/Examples/Workers.antt =====
-- A creation and retirements at concrete inputs.
use mathlib.Core.List.{Memᴰ}
use proxmox_actions_runners.Prelude.{pos, ◌≡◌, ◌↔◌, refl, true, false, [], none, some, codes, arith}
use proxmox_actions_runners.Prelude.Int.{+ℤ_parts}
use proxmox_actions_runners.Prelude.Time.{seconds}
use proxmox_actions_runners.Controller.Worker.{
  World, destroy, job_still_running, Outcome, retire, wait_for_agent,
}
use proxmox_actions_runners.Controller.Worker.Create.{create}
use proxmox_actions_runners.Controller.Worker.Creating.{Settled, plan_of, create-Settled}
use proxmox_actions_runners.Controller.Worker.Retiring.{
  Gone, Unforced, retire-Unforced, retire_force,
}
use proxmox_actions_runners.Controller.Worker.Waiting.{Clock, wait_for_agent-total}
use proxmox_actions_runners.Examples.Fleet.{world, st, linux, template_vm}

world-Clock : Clock world
world-Clock = record { ping_takes = λ h vmid. ground arith; sleep_takes = λ h d e. ground arith }

create-Settled_example :
    (r : Outcome) × (create 3 world linux template_vm (pos 101) st ≡ some r)
    × Settled world (plan_of world linux template_vm (pos 101) st) r
create-Settled_example =
    create-Settled 2 world linux template_vm (pos 101) st world-Clock refl (omega arith) refl

abbrev busy_world : World
busy_world = record world { remove_runner_answer = λ h id. job_still_running }

retire-Unforced_example :
    Unforced busy_world
      (pos 100)
      true
      (codes "a")
      st
      (retire busy_world (pos 100) true (codes "a") false st)
retire-Unforced_example =
    retire-Unforced busy_world (pos 100) true (codes "a") st (λ e. ground arith)

retire_force_example :
    let r = retire busy_world (pos 100) false (codes "a") true st in
    Memᴰ (destroy (pos 100)) r.1.calls × ((r.0 ≡ none) ↔ Gone busy_world [] (pos 100))
retire_force_example = retire_force busy_world (pos 100) false (codes "a") st

wait_for_agent-total_example :
    (r : Outcome) × (wait_for_agent 3 world (pos 101) (seconds 4) st ≡ some r)
wait_for_agent-total_example =
    wait_for_agent-total 2 world (pos 101) (seconds 4) st world-Clock refl
      (ground (arith, +ℤ_parts (pos 0) (seconds 4)))
