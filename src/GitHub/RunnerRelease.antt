-- ===== src/GitHub/RunnerRelease.antt =====
-- internal/github/rest.go: how far a template's runner is behind the latest release.
pub mod Order
use proxmox_actions_runners.Prelude.{
  ℤ, pos, ltb_ℤ, leb_ℤ, ◌==◌, int_eq, Bool, true, false, not, ◌||◌, List, [], ◌∷◌, Text, Option,
  none, some, if◌then◌else◌, beq_ℤ,
}
use proxmox_actions_runners.Prelude.Strings.{split}
use proxmox_actions_runners.Prelude.Number.{parse_int}
use proxmox_actions_runners.Prelude.Time.{Time, Duration, sub, hours}

abbrev pub runner_update_warn_after : Duration
runner_update_warn_after = hours 168

abbrev pub runner_update_error_after : Duration
runner_update_error_after = hours 504

pub record RunnerRelease : Type 0 where
  pub version : Text
  pub published_at : Time

-- The three numbers, as far as they were read, and whether all of them were.
pub record Parsed : Type 0 where
  pub major : ℤ
  pub minor : ℤ
  pub patch : ℤ
  pub valid : Bool

abbrev pub part : Text → Option ℤ
part p = elim (parse_int p) [ none ↦ none | some n ↦ if ltb_ℤ n (pos 0) then none else some n ]

abbrev pub parse_parts : Option ℤ → Option ℤ → Option ℤ → Parsed
parse_parts none b c = record { major = pos 0; minor = pos 0; patch = pos 0; valid = false }
parse_parts (some a) none c = record { major = a; minor = pos 0; patch = pos 0; valid = false }
parse_parts (some a) (some b) none = record { major = a; minor = b; patch = pos 0; valid = false }
parse_parts (some a) (some b) (some c) = record { major = a; minor = b; patch = c; valid = true }

abbrev pub parse_three : List Text → Parsed
parse_three (a ∷ b ∷ c ∷ []) = parse_parts (part a) (part b) (part c)
parse_three _ = record { major = pos 0; minor = pos 0; patch = pos 0; valid = false }

unfoldable pub parse_version : Text → Parsed
parse_version v = parse_three (split b'.' v)

-- The loop over the three numbers.
abbrev pub later : Parsed → Parsed → Bool
later latest have =
    if not (latest.major == have.major)
    then ltb_ℤ have.major latest.major
    else if not (latest.minor == have.minor)
    then ltb_ℤ have.minor latest.minor
    else if not (latest.patch == have.patch)
    then ltb_ℤ have.patch latest.patch
    else false

unfoldable pub newer_than : RunnerRelease → Text → Bool
newer_than r version =
    let have = parse_version version in
    if not have.valid then true else later (parse_version r.version) have

pub data Staleness : Type 0 where
  current behind behind_warn behind_error : Staleness

unfoldable pub staleness : RunnerRelease → Text → Time → Staleness
staleness r have now =
    let age = sub now r.published_at in
    if not (newer_than r have)
    then current
    else if leb_ℤ runner_update_error_after age
    then behind_error
    else if leb_ℤ runner_update_warn_after age
    then behind_warn
    else behind
