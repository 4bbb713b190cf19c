-- ===== src/Installer/Network/Up.antt =====
-- internal/installer/steps.go: `createNetwork` ends, and with the VNet up.
use proxmox_actions_runners.Prelude.{
  ℕ, zero, suc, ◌*◌, pos, ◌+ℤ◌, ◌≤ℤ◌, ◌<ℤ◌, ltb_ℤ, true, false, List, Text, Option, none, some, ◌≡◌,
  inl, inr, refl, Bool-cases, Option-cases, arith,
}
use proxmox_actions_runners.Prelude.Int.{+ℤ_parts}
use proxmox_actions_runners.Prelude.Time.{Time, seconds, minutes, second}
use proxmox_actions_runners.Installer.{Command, Host, Outcome}
use proxmox_actions_runners.Installer.Network.{
  Network, wait_for_vnet, create_objects, create_network, wait_if_real, deadline, not_up,
}

-- Each wait takes at least a second.
abbrev pub Ticks : Network → Type 0
Ticks net = (k : ℕ) → net.now k +ℤ seconds 1 ≤ℤ net.now (suc k)

-- No error only with the VNet up.
abbrev pub UpUnless : Network → Option Text → Type 0
UpUnless net none = (k : ℕ) × (net.is_up k ≡ true)
UpUnless net (some e) = Unit

wait_for_vnet-ends :
    (net : Network) (limit : Time)
    → Ticks net
    → (fuel k : ℕ) → limit <ℤ net.now k +ℤ pos (fuel * second)
    → (e : Option Text) × ((wait_for_vnet (suc fuel) net limit k ≡ some e) × UpUnless net e)
unfolding wait_for_vnet
wait_for_vnet-ends net limit ticks zero k h = elim (Bool-cases (net.is_up k)) [
  | inl u ↦ (none, (rw (wait_for_vnet, u) refl, (k, u)))
  | inr u ↦
      let late : ltb_ℤ limit (net.now k) ≡ true = ground (arith, h, +ℤ_parts (net.now k) (pos 0)) in
      (some not_up, (rw (wait_for_vnet, u, late) refl, tt))
]
wait_for_vnet-ends net limit ticks (suc fuel) k h = elim (Bool-cases (net.is_up k)) [
  | inl u ↦ (none, (rw (wait_for_vnet, u) refl, (k, u)))
  | inr u ↦ elim (Bool-cases (ltb_ℤ limit (net.now k))) [
    | inl late ↦ (some not_up, (rw (wait_for_vnet, u, late) refl, tt))
    | inr late ↦ elim (Option-cases (net.sleep k (seconds 1))) [
      | inr (e, s) ↦ (some e, (rw (wait_for_vnet, u, late, s) refl, tt))
      | inl s ↦
          let later : limit <ℤ net.now (suc k) +ℤ pos (fuel * second) = omega (
            arith,
            h,
            ticks k,
            +ℤ_parts (net.now k) (seconds 1),
            +ℤ_parts (net.now k) (pos (suc fuel * second)),
            +ℤ_parts (net.now (suc k)) (pos (fuel * second)),
          ) in
          let (e, (q, up)) = wait_for_vnet-ends net limit ticks fuel (suc k) later in
          (e, (rw (wait_for_vnet, u, late, s) q, up))
    ]
  ]
]

wait_if_real-ends :
    (host : Host) (net : Network) (o : Outcome)
    → Ticks net
    → (host.dry_run ≡ false)
    → (e : Option Text) × ((done : List Command) × ((wait_if_real 63 host net o ≡ some (e, done))
          × UpUnless net e))
wait_if_real-ends host net (some x, log) ticks real = (some x, (log, (refl, tt)))
wait_if_real-ends host net (none, log) ticks real =
    let (e, (q, up)) = wait_for_vnet-ends net (deadline net) ticks 62 zero (
      omega (
        arith,
        +ℤ_parts (net.now zero) (minutes 1),
        +ℤ_parts (net.now zero) (pos (62 * second)),
      )) in
    (e, (log, (rw (real, q) refl, up)))

-- For every host, network and log so far, if it is no dry run and each wait takes at least a second:
-- createNetwork ends within 63 rounds of its loop, and if it then reports no error, the VNet was up.
pub create_network-UpUnless :
    (host : Host) (net : Network) (log : List Command)
    → Ticks net
    → (host.dry_run ≡ false)
    → (e : Option Text) × ((done : List Command) × ((create_network 63 host net log
            ≡ some (e, done))
          × UpUnless net e))
unfolding create_network
create_network-UpUnless host net log ticks real =
    wait_if_real-ends host net (create_objects host net log) ticks real
