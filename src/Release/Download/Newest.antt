-- ===== src/Release/Download/Newest.antt =====
-- internal/release/download.go: `Latest` without pre-releases.
use mathlib.Core.List.{Memᴰ}
use proxmox_actions_runners.Prelude.{
  pos, ◌≡◌, refl, sym, ◌∙◌, subst, ◌⊎◌, inl, inr, ltb_ℤ, Bool, true, false, List, [], ◌∷◌, none,
  some, if◌then◌else◌, arith, Bool-cases, text_beq_iff,
}
use proxmox_actions_runners.Prelude.Int.{beq_ℤ_iff}
use proxmox_actions_runners.Prelude.Results.{ok, err}
use proxmox_actions_runners.Release.{Version, is_pre, cmp, compare_versions}
use proxmox_actions_runners.Release.Download.{Info, is_better, latest_of, latest, none_published}

-- One release is not newer than another.
abbrev pub NotNewer : Info → Info → Type 0
NotNewer r best = ltb_ℤ (pos 0) (compare_versions r.version best.version) ≡ false

-- The first difference of the three numbers.
plain_newer : Version → Version → Bool
plain_newer v w =
    if ltb_ℤ w.major v.major
    then true
    else if ltb_ℤ v.major w.major
    then false
    else if ltb_ℤ w.minor v.minor
    then true
    else if ltb_ℤ v.minor w.minor
    then false
    else ltb_ℤ w.patch v.patch

compare-plain :
    (v w : Version)
    → is_pre v ≡ false
    → is_pre w ≡ false
    → ltb_ℤ (pos 0) (compare_versions v w) ≡ plain_newer v w
unfolding compare_versions cmp plain_newer
compare-plain v w p q = ground (
  arith,
  p,
  q,
  beq_ℤ_iff v.major w.major,
  beq_ℤ_iff v.minor w.minor,
  beq_ℤ_iff v.patch w.patch,
  text_beq_iff v.pre w.pre,
)

plain_newer_trans :
    (u v w : Version) → plain_newer u v ≡ false → plain_newer v w ≡ false → plain_newer u w ≡ false
unfolding plain_newer
plain_newer_trans u v w h k = ground (arith, h, k)

plain_newer_asym : (v w : Version) → plain_newer v w ≡ true → plain_newer w v ≡ false
unfolding plain_newer
plain_newer_asym v w h = ground (arith, h)

clash : {A : Type 0} → {b : Bool} → b ≡ true → b ≡ false → A
clash y n = cc

-- A release that is none of the newer ones: a pre-release, or not newer than `best`.
Settled : Info → Info → Type 0
Settled best r = is_pre r.version ≡ false → plain_newer r.version best.version ≡ false

-- What the loop makes of the best so far.
LoopBest : List Info → Info → Info → Type 0
LoopBest rs b c =
    (is_pre c.version ≡ false)
    × ((c ≡ b) ⊎ Memᴰ c rs)
    × (plain_newer b.version c.version ≡ false)
    × ((r : Info) → Memᴰ r rs → Settled c r)

at_head :
    (r c : Info) (rs : List Info)
    → Settled c r
    → ((x : Info) → Memᴰ x rs → Settled c x)
    → (x : Info) → Memᴰ x (r ∷ rs)
    → Settled c x
at_head r c rs h k x (Memᴰ.head e) = subst (Settled c) (sym e) h
at_head r c rs h k x (Memᴰ.tail m) = k x m

better-plain :
    (r b : Info)
    → is_pre r.version ≡ false
    → is_pre b.version ≡ false
    → is_better r (some b) ≡ plain_newer r.version b.version
better-plain r b p q = compare-plain r.version b.version p q

in_tail : (r b c : Info) (rs : List Info) → (c ≡ b) ⊎ Memᴰ c rs → (c ≡ b) ⊎ Memᴰ c (r ∷ rs)
in_tail r b c rs (inl e) = inl e
in_tail r b c rs (inr m) = inr (Memᴰ.tail m)

from_head : (r b c : Info) (rs : List Info) → (c ≡ r) ⊎ Memᴰ c rs → (c ≡ b) ⊎ Memᴰ c (r ∷ rs)
from_head r b c rs (inl e) = inr (Memᴰ.head e)
from_head r b c rs (inr m) = inr (Memᴰ.tail m)

skips :
    (r b : Info) (rs : List Info)
    → is_pre r.version ≡ true
    → latest_of (r ∷ rs) false (some b) ≡ latest_of rs false (some b)
unfolding latest_of
skips r b rs y = rw y refl

takes :
    (r b : Info) (rs : List Info)
    → is_pre r.version ≡ false
    → is_pre b.version ≡ false
    → plain_newer r.version b.version ≡ true
    → latest_of (r ∷ rs) false (some b) ≡ latest_of rs false (some r)
unfolding latest_of
takes r b rs n q y = rw (n, better-plain r b n q, y) refl

keeps :
    (r b : Info) (rs : List Info)
    → is_pre r.version ≡ false
    → is_pre b.version ≡ false
    → plain_newer r.version b.version ≡ false
    → latest_of (r ∷ rs) false (some b) ≡ latest_of rs false (some b)
unfolding latest_of
keeps r b rs n q o = rw (n, better-plain r b n q, o) refl

plain_newer_refl : (v : Version) → plain_newer v v ≡ false
unfolding plain_newer
plain_newer_refl v = ground arith

ended : (b : Info) → latest_of [] false (some b) ≡ some b
unfolding latest_of
ended b = refl

loop-LoopBest :
    (rs : List Info) (b : Info)
    → is_pre b.version ≡ false
    → (c : Info) × (latest_of rs false (some b) ≡ some c) × LoopBest rs b c
unfolding LoopBest Settled
loop-LoopBest [] b p = (b, ended b, (p, inl refl, plain_newer_refl b.version, λ r m. elim m [ ]))
loop-LoopBest (r ∷ rs) b p = elim (Bool-cases (is_pre r.version)) [
  | inl y ↦
      let (c, e, (q, from, least, rest)) = loop-LoopBest rs b p in
      (
        c,
        skips r b rs y ∙ e,
        (q, in_tail r b c rs from, least, at_head r c rs (λ n. clash y n) rest),
      )
  | inr n ↦ elim (Bool-cases (plain_newer r.version b.version)) [
    | inl y ↦
        let (c, e, (q, from, least, rest)) = loop-LoopBest rs r n in
        (
          c,
          takes r b rs n p y ∙ e,
          (
            q,
            from_head r b c rs from,
            plain_newer_trans b.version r.version c.version (plain_newer_asym r.version b.version y)
                least,
            at_head r c rs (λ _. least) rest,
          ),
        )
    | inr o ↦
        let (c, e, (q, from, least, rest)) = loop-LoopBest rs b p in
        (
          c,
          keeps r b rs n p o ∙ e,
          (
            q,
            in_tail r b c rs from,
            least,
            at_head r c rs (λ _. plain_newer_trans r.version b.version c.version o least) rest,
          ),
        )
  ]
]

-- A published release that no published release is newer than.
abbrev pub NewestOf : List Info → Info → Type 0
NewestOf rels c =
    (is_pre c.version ≡ false)
    × Memᴰ c rels
    × ((r : Info) → Memᴰ r rels → is_pre r.version ≡ false → NotNewer r c)

start-pre :
    (r : Info) (rs : List Info)
    → is_pre r.version ≡ true
    → latest_of (r ∷ rs) false none ≡ latest_of rs false none
unfolding latest_of
start-pre r rs y = rw y refl

start-plain :
    (r : Info) (rs : List Info)
    → is_pre r.version ≡ false
    → latest_of (r ∷ rs) false none ≡ latest_of rs false (some r)
unfolding latest_of
start-plain r rs n = rw n refl

Found : List Info → Type 0
Found rels =
    ((c : Info) × (latest_of rels false none ≡ some c) × NewestOf rels c)
    ⊎ ((latest_of rels false none ≡ none) × ((r : Info) → Memᴰ r rels → is_pre r.version ≡ true))

member_of : (r c : Info) (rs : List Info) → (c ≡ r) ⊎ Memᴰ c rs → Memᴰ c (r ∷ rs)
member_of r c rs (inl e) = Memᴰ.head e
member_of r c rs (inr m) = Memᴰ.tail m

unsettled :
    (r c : Info) → Settled c r → is_pre c.version ≡ false → is_pre r.version ≡ false → NotNewer r c
unfolding Settled
unsettled r c h q n = compare-plain r.version c.version n q ∙ h n

not_newer-Settled : (r c : Info) → plain_newer r.version c.version ≡ false → Settled c r
unfolding Settled
not_newer-Settled r c l _ = l

no_release : latest_of [] false none ≡ none
unfolding latest_of
no_release = refl

pre_at_head :
    (r : Info) (rs : List Info)
    → is_pre r.version ≡ true
    → ((x : Info) → Memᴰ x rs → is_pre x.version ≡ true)
    → (x : Info) → Memᴰ x (r ∷ rs)
    → is_pre x.version ≡ true
pre_at_head r rs y k x (Memᴰ.head e) = subst (λ z. is_pre z.version ≡ true) (sym e) y
pre_at_head r rs y k x (Memᴰ.tail m) = k x m

from_plain-NewestOf :
    (r c : Info) (rs : List Info) → is_pre r.version ≡ false → LoopBest rs r c → NewestOf (r ∷ rs) c
unfolding LoopBest
from_plain-NewestOf r c rs n (q, from, least, rest) = (
  q,
  member_of r c rs from,
  λ x m. unsettled x c (at_head r c rs (not_newer-Settled r c least) rest x m) q,
)

latest_of-Found : (rels : List Info) → Found rels
unfolding Found
latest_of-Found [] = inr (no_release, λ r m. elim m [ ])
latest_of-Found (r ∷ rs) = elim (Bool-cases (is_pre r.version)) [
  | inl y ↦ elim (latest_of-Found rs) [
    | inl (c, e, (q, m, least)) ↦
        inl (c, start-pre r rs y ∙ e, (q, Memᴰ.tail m, at_head_newer r c rs y least))
    | inr (e, all) ↦ inr (start-pre r rs y ∙ e, pre_at_head r rs y all)
  ]
  | inr n ↦
      let (c, e, b) = loop-LoopBest rs r n in
      inl (c, start-plain r rs n ∙ e, from_plain-NewestOf r c rs n b)
]
  where
    at_head_newer :
        (r c : Info) (rs : List Info)
        → is_pre r.version ≡ true
        → ((x : Info) → Memᴰ x rs → is_pre x.version ≡ false → NotNewer x c)
        → (x : Info) → Memᴰ x (r ∷ rs)
        → is_pre x.version ≡ false
        → NotNewer x c
    at_head_newer r c rs y k x (Memᴰ.head e) n =
        clash (subst (λ z. is_pre z.version ≡ true) (sym e) y) n
    at_head_newer r c rs y k x (Memᴰ.tail m) n = k x m n

-- Among the releases that GitHub lists, `Latest` without pre-releases returns one that is listed, is no
-- pre-release, and that no other release but pre-releases is newer than; only where every release
-- listed is a pre-release, it reports that none has been published.
pub latest-newest :
    (rels : List Info)
    → ((c : Info) × (latest (ok rels) false ≡ ok c) × NewestOf rels c)
      ⊎ ((latest (ok rels) false ≡ err none_published)
          × ((r : Info) → Memᴰ r rels → is_pre r.version ≡ true))
unfolding latest Found
latest-newest rels = elim (latest_of-Found rels) [
  | inl (c, e, b) ↦ inl (c, rw (latest, e) refl, b)
  | inr (e, all) ↦ inr (rw (latest, e) refl, all)
]
