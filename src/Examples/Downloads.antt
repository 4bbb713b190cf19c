-- ===== src/Examples/Downloads.antt =====
-- A release that is verified and downloaded.
use mathlib.Core.List.{Memᴰ}
use proxmox_actions_runners.Prelude.{
  pos, ◌⊎◌, List, false, ◌≡◌, refl, zero, suc, ℕ, arith, true, ◌==◌, text_eq, text_beq,
  if◌then◌else◌, [], ◌∷◌, ◌++◌, Text, none, codes, insert,
}
use proxmox_actions_runners.Prelude.Results.{ok, err}
use proxmox_actions_runners.Release.{Version, is_pre, print, tag}
use proxmox_actions_runners.Release.Parse.{parse_version, all_pre}
use proxmox_actions_runners.Release.Parse.RoundTrip.{version_of, parse_version-print}
use proxmox_actions_runners.Release.Verify.{
  parse_sums, read_lines, scan_lines, drop_cr, find_sum, all_chars, decode_hex, verify_signature,
  any_verifies,
}
use proxmox_actions_runners.Release.Download.{
  Surroundings, Assets, Info, latest, none_published, sums_name, read_all, checked, fetch, get,
}
use proxmox_actions_runners.Release.Download.Newest.{NewestOf, latest-newest}
use proxmox_actions_runners.Release.Download.Safe.{Signed, Got, fetch-get_verified}

parse_version-print_example :
    (parse_version (print (version_of 0 12 0 (codes "rc.1")))
      ≡ ok (version_of 0 12 0 (codes "rc.1")))
    × (parse_version (tag (version_of 0 12 0 (codes "rc.1")))
        ≡ ok (version_of 0 12 0 (codes "rc.1")))
unfolding all_pre
parse_version-print_example =
    parse_version-print 0 12 0 (codes "rc.1") (omega arith) (omega arith) (omega arith) refl

abbrev zeros : Text
zeros = codes "0000000000000000000000000000000000000000000000000000000000000000"

abbrev sums_text : Text
sums_text = zeros ++ codes "  parcon" ++ 10 ∷ []

unfoldable zero_bytes : ℕ → Text
zero_bytes zero = []
zero_bytes (suc n) = 0 ∷ zero_bytes n

-- A key is the signature that it verifies, and every file has the same checksum.
abbrev mirror : Surroundings Text
mirror = record {
  verify = λ k sums sig. k == sig;
  sha256 = λ bytes. zero_bytes 32;
  join = λ dir name. dir ++ (codes "/" ++ name);
  open_asset = λ v asset.
      if asset == sums_name
      then ok (record { bytes = sums_text; failure = none })
      else ok (record { bytes = codes "signed"; failure = none });
  read_failure = λ path. none;
  create_failure = λ path. none;
  close_failure = λ path. none;
  rename_failure = λ part path. none;
}

abbrev assets : Assets
assets = record {
  version = version_of 1 0 0 [];
  sums = (codes "parcon", zero_bytes 32) ∷ [];
  dir = codes "/tmp";
  hosted = true;
}

fetched : fetch mirror (version_of 1 0 0 []) (codes "/tmp") (codes "signed" ∷ []) ≡ ok assets
unfolding fetch read_all checked verify_signature any_verifies text_beq parse_sums read_lines
    scan_lines drop_cr find_sum all_chars decode_hex zero_bytes insert
fetched = refl

fetch-get_verified_example :
    Signed mirror (version_of 1 0 0 []) (codes "signed" ∷ []) assets
    × Got mirror assets (codes "parcon") [] (get mirror assets (codes "parcon") [])
fetch-get_verified_example =
    fetch-get_verified mirror (version_of 1 0 0 []) (codes "/tmp") (codes "signed" ∷ []) assets
      (codes "parcon") [] fetched

abbrev published : Version → Info
published v = record { version = v; published_at = pos 0 }

abbrev three : List Info
three =
    published (version_of 1 0 0 [])
    ∷ published (version_of 2 0 0 (codes "rc.1"))
    ∷ published (version_of 1 2 0 [])
    ∷ []

latest-newest_example :
    ((c : Info) × (latest (ok three) false ≡ ok c) × NewestOf three c)
    ⊎ ((latest (ok three) false ≡ err none_published)
        × ((r : Info) → Memᴰ r three → is_pre r.version ≡ true))
latest-newest_example = latest-newest three
