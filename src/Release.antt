-- ===== src/Release.antt =====
-- internal/release/version.go: the versions of the project's releases, printed and compared.
pub mod Order
pub mod Parse
pub mod Verify
pub mod Download
use proxmox_actions_runners.Prelude.{
  ℕ, suc, ℤ, pos, negsuc, ltb_ℤ, ltb, ◌==◌, int_eq, text_eq, Bool, true, false, not, List, [], ◌∷◌,
  ◌++◌, Text, Option, none, some, is_empty, if◌then◌else◌, codes,
}
use proxmox_actions_runners.Prelude.Lists.{length}
use proxmox_actions_runners.Prelude.Number.{itoa, parse_int}
use proxmox_actions_runners.Prelude.Strings.{split}

pub record Version : Type 0 where
  pub major : ℤ
  pub minor : ℤ
  pub patch : ℤ
  pub pre : Text

-- `String`
unfoldable pub print : Version → Text
print v =
    let s = itoa v.major ++ codes "." ++ itoa v.minor ++ codes "." ++ itoa v.patch in
    if not (is_empty v.pre) then s ++ codes "-" ++ v.pre else s

abbrev pub tag : Version → Text
tag v = codes "v" ++ print v

abbrev pub is_pre : Version → Bool
is_pre v = not (is_empty v.pre)

unfoldable pub cmp : ℤ → ℤ → ℤ
cmp a b = if ltb_ℤ a b then negsuc 0 else if ltb_ℤ b a then pos 1 else pos 0

-- `strings.Compare`
unfoldable pub compare_texts : Text → Text → ℤ
compare_texts [] [] = pos 0
compare_texts [] (d ∷ t) = negsuc 0
compare_texts (c ∷ s) [] = pos 1
compare_texts (c ∷ s) (d ∷ t) =
    let rest = compare_texts s t in if ltb c d then negsuc 0 else if ltb d c then pos 1 else rest

-- Two identifiers that differ, with the numbers that they are, if they are.
unfoldable pub compare_ids : Option ℤ → Option ℤ → Text → Text → ℤ
compare_ids (some m) (some n) a b = cmp m n
compare_ids (some m) none a b = negsuc 0
compare_ids none (some n) a b = pos 1
compare_ids none none a b = compare_texts a b

-- The loop over the identifiers. Where one list ends the lengths of what is left decide, since
-- both lists have lost as many.
unfoldable pub compare_pre : List Text → List Text → ℤ
compare_pre [] ys = cmp (pos 0) (pos (length ys))
compare_pre (a ∷ xs) [] = cmp (pos (length (a ∷ xs))) (pos 0)
compare_pre (a ∷ xs) (b ∷ ys) =
    let rest = compare_pre xs ys in
    if a == b then rest else compare_ids (parse_int a) (parse_int b) a b

-- `Compare`
unfoldable pub compare_versions : Version → Version → ℤ
compare_versions v w =
    if not (v.major == w.major)
    then cmp v.major w.major
    else if not (v.minor == w.minor)
    then cmp v.minor w.minor
    else if not (v.patch == w.patch)
    then cmp v.patch w.patch
    else if v.pre == w.pre
    then pos 0
    else if is_empty v.pre
    then pos 1
    else if is_empty w.pre
    then negsuc 0
    else compare_pre (split b'.' v.pre) (split b'.' w.pre)
