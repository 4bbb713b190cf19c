-- ===== src/Release/Order.antt =====
-- internal/release/version.go: swapping the two versions turns the comparison around.
use proxmox_actions_runners.Prelude.{
  zero, suc, ℤ, pos, negsuc, ◌≡◌, refl, List, [], ◌∷◌, Text, Option, none, some, text_beq_iff,
  arith,
}
use proxmox_actions_runners.Prelude.Int.{beq_ℤ_iff}
use proxmox_actions_runners.Prelude.Lists.{length}
use proxmox_actions_runners.Prelude.Number.{parse_int}
use proxmox_actions_runners.Prelude.Strings.{split}
use proxmox_actions_runners.Release.{
  Version, cmp, compare_texts, compare_ids, compare_pre, compare_versions,
}

-- `-z`
abbrev pub opposite : ℤ → ℤ
opposite (pos zero) = pos 0
opposite (pos (suc n)) = negsuc n
opposite (negsuc n) = pos (suc n)

cmp-swap : (a b : ℤ) → cmp b a ≡ opposite (cmp a b)
unfolding cmp
cmp-swap a b = ground arith

compare_texts-swap : (s t : Text) → compare_texts t s ≡ opposite (compare_texts s t)
unfolding compare_texts
compare_texts-swap [] [] = refl
compare_texts-swap [] (d ∷ t) = refl
compare_texts-swap (c ∷ s) [] = refl
compare_texts-swap (c ∷ s) (d ∷ t) = ground (arith, compare_texts-swap s t)

compare_ids-swap :
    (m n : Option ℤ) (a b : Text) → compare_ids n m b a ≡ opposite (compare_ids m n a b)
unfolding compare_ids
compare_ids-swap (some m) (some n) a b = cmp-swap m n
compare_ids-swap (some m) none a b = refl
compare_ids-swap none (some n) a b = refl
compare_ids-swap none none a b = compare_texts-swap a b

compare_pre-swap : (xs ys : List Text) → compare_pre ys xs ≡ opposite (compare_pre xs ys)
unfolding compare_pre
compare_pre-swap [] [] = cmp-swap (pos 0) (pos 0)
compare_pre-swap [] (b ∷ ys) = cmp-swap (pos 0) (pos (length (b ∷ ys)))
compare_pre-swap (a ∷ xs) [] = cmp-swap (pos (length (a ∷ xs))) (pos 0)
compare_pre-swap (a ∷ xs) (b ∷ ys) = ground (
  arith,
  text_beq_iff a b,
  text_beq_iff b a,
  compare_pre-swap xs ys,
  compare_ids-swap (parse_int a) (parse_int b) a b,
)

-- Comparing two versions the other way round gives the opposite result.
pub compare_versions-swap : (v w : Version) → compare_versions w v ≡ opposite (compare_versions v w)
unfolding compare_versions
compare_versions-swap v w = ground (
  arith,
  beq_ℤ_iff v.major w.major,
  beq_ℤ_iff w.major v.major,
  beq_ℤ_iff v.minor w.minor,
  beq_ℤ_iff w.minor v.minor,
  beq_ℤ_iff v.patch w.patch,
  beq_ℤ_iff w.patch v.patch,
  text_beq_iff v.pre w.pre,
  text_beq_iff w.pre v.pre,
  cmp-swap v.major w.major,
  cmp-swap v.minor w.minor,
  cmp-swap v.patch w.patch,
  compare_pre-swap (split b'.' v.pre) (split b'.' w.pre),
)
