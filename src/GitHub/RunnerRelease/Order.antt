-- ===== src/GitHub/RunnerRelease/Order.antt =====
-- internal/github/rest.go: what the staleness of a runner says.
use proxmox_actions_runners.Prelude.{
  ℕ, ◌≡◌, ◌≤◌, ◌≤ℤ◌, ◌<ℤ◌, ◌⊎◌, ◌↔◌, true, false, not, if◌then◌else◌, Text, arith,
}
use proxmox_actions_runners.Prelude.Int.{beq_ℤ_iff, -ℤ_parts}
use proxmox_actions_runners.Prelude.Time.{Time, sub}
use proxmox_actions_runners.GitHub.RunnerRelease.{
  RunnerRelease, Parsed, parse_version, newer_than, later, Staleness, current, behind, behind_warn,
  behind_error, staleness,
}

abbrev pub rank : Staleness → ℕ
rank current = 0
rank behind = 1
rank behind_warn = 2
rank behind_error = 3

sub_mono : (t u p : Time) → t ≤ℤ u → sub t p ≤ℤ sub u p
unfolding sub
sub_mono t u p h = ground (arith, -ℤ_parts t p, -ℤ_parts u p)

-- A runner's staleness never goes down as time passes, and whether it is current does not depend on
-- the time.
pub staleness_mono :
    (r : RunnerRelease) (have : Text) (t u : Time)
    → t ≤ℤ u
    → (rank (staleness r have t) ≤ rank (staleness r have u))
      × ((staleness r have t ≡ current) ↔ (staleness r have u ≡ current))
unfolding staleness
staleness_mono r have t u h = ground (arith, sub_mono t u r.published_at h)

ordered :
    (l h : Parsed)
    → ((if not h.valid then true else later l h) ≡ true) ↔ (
        (h.valid ≡ false)
        ⊎ (h.major <ℤ l.major)
        ⊎ ((h.major ≡ l.major) × (h.minor <ℤ l.minor))
        ⊎ ((h.major ≡ l.major) × (h.minor ≡ l.minor) × (h.patch <ℤ l.patch)))
ordered l h =
    ground (arith, beq_ℤ_iff l.major h.major, beq_ℤ_iff l.minor h.minor, beq_ℤ_iff l.patch h.patch)

-- Where both versions can be read, the release is newer exactly if its numbers are later in
-- lexicographic order; a version that cannot be read counts as older.
pub newer_than_iff :
    (r : RunnerRelease) (version : Text)
    → let l = parse_version r.version in
      let h = parse_version version in
      (newer_than r version ≡ true) ↔ (
        (h.valid ≡ false)
        ⊎ (h.major <ℤ l.major)
        ⊎ ((h.major ≡ l.major) × (h.minor <ℤ l.minor))
        ⊎ ((h.major ≡ l.major) × (h.minor ≡ l.minor) × (h.patch <ℤ l.patch)))
unfolding newer_than
newer_than_iff r version = ordered (parse_version r.version) (parse_version version)
