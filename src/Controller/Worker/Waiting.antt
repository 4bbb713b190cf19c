-- ===== src/Controller/Worker/Waiting.antt =====
-- internal/controller/worker.go: the wait for a booting worker's guest agent ends.
use proxmox_actions_runners.Prelude.{
  ℕ, zero, suc, ◌*◌, ℤ, ◌+ℤ◌, ◌≤ℤ◌, pos_part, neg_part, ◌≡◌, true, is_some, is_some-value, ap, List,
  ◌∷◌, some, arith,
}
use proxmox_actions_runners.Prelude.Int.{+ℤ_parts}
use proxmox_actions_runners.Prelude.Time.{Time, Duration, seconds, before}
use proxmox_actions_runners.Controller.Worker.{
  World, St, Call, agent_ping, sleep, Outcome, called, wait_for_agent,
}

-- A clock as package time documents it: a wait that lasts takes at least its duration, and a call of
-- the guest agent takes no negative time.
pub record Clock (w : World) : Type 0 where
  pub ping_takes : (h : List Call) (vmid : ℤ) → w.now h ≤ℤ w.now (agent_ping vmid ∷ h)
  pub sleep_takes :
      (h : List Call) (d : Duration) → w.sleep_answer h ≡ true → w.now h +ℤ d ≤ℤ w.now (sleep d ∷ h)

-- One round ends the wait, or is followed by another while the deadline has not passed.
wait_round :
    (fuel : ℕ) (w : World) (vmid : ℤ) (deadline : Time) (st : St)
    → let pinged = called (agent_ping vmid) st in
      let slept = called (sleep st.ctrl.agent_poll) pinged in
      (before (w.now pinged.calls) deadline ≡ true
        → w.sleep_answer pinged.calls ≡ true
        → is_some (wait_for_agent fuel w vmid deadline slept) ≡ true)
      → is_some (wait_for_agent (suc fuel) w vmid deadline st) ≡ true
unfolding wait_for_agent
wait_round fuel w vmid deadline st again = ground arith

wait_ends :
    (fuel : ℕ) (w : World) (vmid : ℤ) (deadline : Time) (st : St)
    → Clock w
    → st.ctrl.agent_poll ≡ seconds 2
    → deadline ≤ℤ w.now st.calls +ℤ seconds (2 * fuel)
    → is_some (wait_for_agent (suc fuel) w vmid deadline st) ≡ true
wait_ends zero w vmid deadline st k poll late = wait_round zero w vmid deadline st λ b s.
    absurd (ground (arith, k.ping_takes st.calls vmid, +ℤ_parts (w.now st.calls) (seconds 0)))
wait_ends (suc fuel) w vmid deadline st k poll late =
    wait_round (suc fuel) w vmid deadline st
      λ b s. wait_ends fuel w vmid deadline _ k poll (later (k.sleep_takes _ st.ctrl.agent_poll s))
  where
    h : List Call
    h = agent_ping vmid ∷ st.calls

    later :
        w.now h +ℤ st.ctrl.agent_poll ≤ℤ w.now (sleep st.ctrl.agent_poll ∷ h)
        → deadline ≤ℤ w.now (sleep st.ctrl.agent_poll ∷ h) +ℤ seconds (2 * fuel)
    later q =
        let next = w.now (sleep st.ctrl.agent_poll ∷ h) in
        omega (
          arith,
          q,
          k.ping_takes st.calls vmid,
          +ℤ_parts (w.now st.calls) (seconds (2 * suc fuel)),
          +ℤ_parts (w.now h) st.ctrl.agent_poll,
          +ℤ_parts next (seconds (2 * fuel)),
          ap pos_part poll,
          ap neg_part poll,
        )

-- Where the agent is pinged every two seconds, the wait ends after at most one round more than the
-- two-second intervals that are left to the deadline.
pub wait_for_agent-total :
    (fuel : ℕ) (w : World) (vmid : ℤ) (deadline : Time) (st : St)
    → Clock w
    → st.ctrl.agent_poll ≡ seconds 2
    → deadline ≤ℤ w.now st.calls +ℤ seconds (2 * fuel)
    → (r : Outcome) × (wait_for_agent (suc fuel) w vmid deadline st ≡ some r)
wait_for_agent-total fuel w vmid deadline st k poll late =
    is_some-value _ (wait_ends fuel w vmid deadline st k poll late)
