-- ===== src/Release/Parse.antt =====
-- internal/release/version.go: reading a version. The regular expression is matched by hand: each
-- part of it can match in one way only.
pub mod RoundTrip
use proxmox_actions_runners.Prelude.{
  ℕ, ℤ, nat_beq, Bool, true, false, not, ◌||◌, ◌&&◌, List, [], ◌∷◌, Text, Option, none, some,
  is_empty, codes, cut_prefix, trim_prefix, if◌then◌else◌,
}
use proxmox_actions_runners.Prelude.Tests.{leb}
use proxmox_actions_runners.Prelude.Number.{is_digit, parse_int}
use proxmox_actions_runners.Prelude.Results.{Result, ok, err, ◌>>=◌}
use proxmox_actions_runners.Release.{Version}

-- The digits in front, and what is left.
unfoldable pub leading_digits : Text → Text
leading_digits [] = []
leading_digits (c ∷ s) = let rest = leading_digits s in if is_digit c then c ∷ rest else []

unfoldable pub after_digits : Text → Text
after_digits [] = []
after_digits (c ∷ s) = let rest = after_digits s in if is_digit c then rest else c ∷ s

-- `0|[1-9][0-9]*`, of digits.
abbrev pub is_numeral : Text → Bool
is_numeral [] = false
is_numeral (c ∷ []) = true
is_numeral (c ∷ d ∷ s) = not (nat_beq c b'0')

unfoldable pub numeral : Text → Option (Text × Text)
numeral s = if is_numeral (leading_digits s) then some (leading_digits s, after_digits s) else none

-- A numeral and a dot.
unfoldable pub dotted : Text → Option (Text × Text)
dotted s = elim (numeral s) [
  | none ↦ none
  | some (n, r) ↦ elim (cut_prefix (codes ".") r) [ none ↦ none | some t ↦ some (n, t) ]
]

abbrev pub is_pre_char : ℕ → Bool
is_pre_char c = is_digit c || ((leb b'a' c && leb c b'z') || nat_beq c b'.')

unfoldable pub all_pre : Text → Bool
all_pre [] = true
all_pre (c ∷ s) = is_pre_char c && all_pre s

-- `(?:-([0-9a-z.]+))?$`
unfoldable pub suffix : Text → Option Text
suffix s = if is_empty s then some [] else elim (cut_prefix (codes "-") s) [
  | none ↦ none
  | some t ↦ if not (is_empty t) && all_pre t then some t else none
]

pub record Match : Type 0 where
  pub major : Text
  pub minor : Text
  pub patch : Text
  pub pre : Text

unfoldable pub last_parts : Text → Text → Text → Option Match
last_parts a b s = elim (numeral s) [
  | none ↦ none
  | some (c, r) ↦ elim (suffix r) [
    | none ↦ none
    | some pre ↦ some (record { major = a; minor = b; patch = c; pre = pre })
  ]
]

-- What follows the `v`.
unfoldable pub find_parts : Text → Option Match
find_parts s = elim (dotted s) [
  | none ↦ none
  | some (a, r) ↦ elim (dotted r) [ none ↦ none | some (b, t) ↦ last_parts a b t ]
]

-- `versionPattern.FindStringSubmatch`
unfoldable pub find_version : Text → Option Match
find_version s = find_parts (trim_prefix s (codes "v"))

pub data VersionError : Type 0 where
  not_a_version out_of_range : VersionError

unfoldable pub number : Text → Result VersionError ℤ
number s = elim (parse_int s) [ none ↦ err out_of_range | some n ↦ ok n ]

-- `ParseVersion`
unfoldable pub parse_version : Text → Result VersionError Version
parse_version s = elim (find_version s) [
  | none ↦ err not_a_version
  | some m ↦ do
    major ← number m.major
    minor ← number m.minor
    patch ← number m.patch
    ok (record { major = major; minor = minor; patch = patch; pre = m.pre })
]
