-- ===== src/Release/Verify.antt =====
-- internal/release/verify.go: the signature of a release's checksums, and the checksums. Bytes are
-- numbers; the check of one signature, package ed25519's, is a parameter.
use proxmox_actions_runners.Prelude.{
  ℕ, ◌+◌, ◌*◌, ◌/◌, ◌%◌, ◌-◌, nat_beq, Bool, true, false, not, ◌||◌, ◌&&◌, List, [], ◌∷◌, ◌++◌,
  Text, text_eq, Option, none, some, is_empty, if◌then◌else◌, lookup, insert, codes,
}
use proxmox_actions_runners.Prelude.Tests.{leb}
use proxmox_actions_runners.Prelude.Lists.{length, take, drop}
use proxmox_actions_runners.Prelude.Number.{is_digit, digit_char}
use proxmox_actions_runners.Prelude.Results.{Result, ok, err}

pub data SignatureError : Type 0 where
  no_trusted_keys not_verified : SignatureError

-- A directory's key files, with what reading and parsing them gives.
pub record KeyFile (Key : Type 0) : Type 0 where
  pub name : Text
  pub data_of : Result Text Text
  pub parse : Text → Result Text Key

abbrev pub has_suffix : Text → Text → Bool
has_suffix s suffix =
    leb (length suffix) (length s) && text_eq.beq (drop (length s - length suffix) s) suffix

module _ {Key : Type 0} where
  abbrev pub parsed_key : KeyFile Key → Result Text Key
  parsed_key f = elim f.data_of [ err e ↦ err e | ok text ↦ f.parse text ]

  -- `loadKeys` of a directory's files.
  unfoldable pub load_keys : List (KeyFile Key) → List Key → Result Text (List Key)
  load_keys [] out = ok out
  load_keys (f ∷ fs) out =
      if not (has_suffix f.name (codes ".pem"))
      then load_keys fs out
      else elim (parsed_key f) [ err e ↦ err e | ok k ↦ load_keys fs (out ++ k ∷ []) ]

  unfoldable pub any_verifies : (Key → Text → Text → Bool) → Text → Text → List Key → Bool
  any_verifies verify sums sig [] = false
  any_verifies verify sums sig (k ∷ keys) =
      if verify k sums sig then true else any_verifies verify sums sig keys

  -- `VerifySignature`; `none` is success.
  unfoldable pub verify_signature :
      (Key → Text → Text → Bool) → Text → Text → List Key → Option SignatureError
  verify_signature verify sums sig keys =
      if nat_beq (length keys) 0
      then some no_trusted_keys
      else if any_verifies verify sums sig keys
      then none
      else some not_verified

-- Each asset's SHA-256, by file name.
abbrev pub Sums : Type 0
Sums = List (Text × Text)

pub data SumsError : Type 0 where
  not_a_checksum_line : Text → SumsError
  bad_hex line_too_long no_sums : SumsError

-- What `bufio.Scanner` holds at most of a line.
abbrev pub max_line : ℕ
max_line = 65536

-- The lines of a text; an end of line at its end begins no other.
unfoldable pub scan_lines : Text → List Text
scan_lines [] = []
scan_lines (c ∷ s) =
    let rest = scan_lines s in
    if nat_beq c 10 then [] ∷ rest else elim rest [ [] ↦ (c ∷ []) ∷ [] | t ∷ ts ↦ (c ∷ t) ∷ ts ]

-- A carriage return at the end is no part of a line.
unfoldable pub drop_cr : Text → Text
drop_cr [] = []
drop_cr (c ∷ []) = if nat_beq c 13 then [] else c ∷ []
drop_cr (c ∷ d ∷ s) = c ∷ drop_cr (d ∷ s)

abbrev pub is_hex : ℕ → Bool
is_hex c = is_digit c || (leb b'a' c && leb c b'f')

abbrev pub is_name_char : ℕ → Bool
is_name_char c =
    is_digit c
    || ((leb b'a' c && leb c b'z')
        || ((leb b'A' c && leb c b'Z') || (nat_beq c b'.' || (nat_beq c b'_' || nat_beq c b'-'))))

unfoldable pub all_chars : (ℕ → Bool) → Text → Bool
all_chars p [] = true
all_chars p (c ∷ s) = p c && all_chars p s

-- What comes after the checksum: a space, a space or a star, and a name.
abbrev pub name_after : Text → Option Text
name_after [] = none
name_after (c ∷ []) = none
name_after (c ∷ d ∷ name) =
    if nat_beq c 32
      && ((nat_beq d 32 || nat_beq d b'*') && (not (is_empty name) && all_chars is_name_char name))
    then some name
    else none

-- `sumLine.FindStringSubmatch`
unfoldable pub find_sum : Text → Option (Text × Text)
find_sum line =
    let hex = take 64 line in
    if nat_beq (length hex) 64 && all_chars is_hex hex
    then elim (name_after (drop 64 line)) [ none ↦ none | some name ↦ some (hex, name) ]
    else none

abbrev pub hex_value : ℕ → ℕ
hex_value c = if is_digit c then c - b'0' else c - b'a' + 10

-- `hex.Decode`
unfoldable pub decode_hex : Text → Option Text
decode_hex [] = some []
decode_hex (c ∷ []) = none
decode_hex (c ∷ d ∷ s) =
    let rest = decode_hex s in
    if is_hex c && is_hex d
    then elim rest [ none ↦ none | some bytes ↦ some ((hex_value c * 16 + hex_value d) ∷ bytes) ]
    else none

-- `hex.EncodeToString`
unfoldable pub encode_hex : Text → Text
encode_hex [] = []
encode_hex (b ∷ bytes) = digit_char (b / 16) ∷ digit_char (b % 16) ∷ encode_hex bytes

abbrev pub read_line : Text → Sums → Result SumsError Sums
read_line line sums = if is_empty line then ok sums else elim (find_sum line) [
  | none ↦ err (not_a_checksum_line line)
  | some (hex, name) ↦ elim (decode_hex hex) [
    | none ↦ err bad_hex
    | some sum ↦ ok (insert name sum sums)
  ]
]

unfoldable pub read_lines : List Text → Sums → Result SumsError Sums
read_lines [] sums = ok sums
read_lines (t ∷ ts) sums =
    if leb max_line (length t)
    then err line_too_long
    else elim (read_line (drop_cr t) sums) [ err e ↦ err e | ok more ↦ read_lines ts more ]

-- `ParseSums`
unfoldable pub parse_sums : Text → Result SumsError Sums
parse_sums text = elim (read_lines (scan_lines text) []) [
  | err e ↦ err e
  | ok sums ↦ if nat_beq (length sums) 0 then err no_sums else ok sums
]

-- `Sums.Hex`
unfoldable pub hex : Sums → Text → Option Text
hex sums name = elim (lookup name sums) [ none ↦ none | some sum ↦ some (encode_hex sum) ]
