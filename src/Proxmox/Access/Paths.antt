-- ===== src/Proxmox/Access/Paths.antt =====
-- internal/proxmox/access.go: from which paths a privilege comes.
use proxmox_actions_runners.Prelude.{
  ℕ, zero, suc, ◌≤◌, ◌<◌, ◌≡◌, ◌≢◌, ◌↔◌, ◌⊎◌, refl, true, false, ◌==◌, text_eq, List, [], ◌∷◌, Text,
  Option, none, some, is_some, get_or, is_empty, if◌then◌else◌, arith, Bool-cases, Option-cases,
  inl, inr, text_beq,
}
use proxmox_actions_runners.Prelude.Lists.{length, take}
use proxmox_actions_runners.Proxmox.Access.{
  Permissions, granted, last_index, slash, up_to, parent_path, has_above, has,
}

-- One path is another or above it.
pub data Up : Text → Text → Type 0 where
  here : {q : Text} → q ≢ [] → Up q q
  above : {q a : Text} → q ≢ [] → Up (parent_path q) a → Up q a

-- How often the loop goes round at most.
abbrev pub rank : Text → ℕ
rank q = if is_empty q then 0 else if q == slash then 1 else suc (length q)

last_index-less : (x : ℕ) (s : Text) (i : ℕ) → last_index x s ≡ some i → i < length s
unfolding last_index
last_index-less x [] i h = cc
last_index-less x (c ∷ s) i h = elim (Option-cases (last_index x s)) [
  | inl e ↦ ground (arith, e)
  | inr (j, e) ↦ ground (arith, e, last_index-less x s j e)
]

length-take_le : {A : Type 0} (n : ℕ) (xs : List A) → length (take n xs) ≤ n
length-take_le zero xs = omega arith
length-take_le (suc n) [] = omega arith
length-take_le (suc n) (x ∷ xs) = omega (arith, length-take_le n xs)

rank-le : (q : Text) → rank q ≤ suc (length q)
rank-le [] = omega arith
rank-le (c ∷ q) = ground arith

up_to-rank :
    (q : Text) (o : Option ℕ)
    → last_index b'/' q ≡ o
    → 0 < length q
    → (q == slash) ≡ false
    → rank (up_to q o) < suc (length q)
unfolding text_beq
up_to-rank q none e l n = omega (arith, l)
up_to-rank q (some zero) e l n = omega (arith, l)
up_to-rank q (some (suc i)) e l n =
    omega
      (arith, rank-le (take (suc i) q), length-take_le (suc i) q, last_index-less b'/' q (suc i) e)

pub parent_path-rank : (q : Text) → q ≢ [] → rank (parent_path q) < rank q
unfolding parent_path
parent_path-rank [] h = absurd (h refl)
parent_path-rank (c ∷ q) h = elim (Bool-cases ((c ∷ q) == slash)) [
  | inl y ↦ rw y (omega arith)
  | inr n ↦ rw n (up_to-rank (c ∷ q) _ refl (omega arith) n)
]

-- A path that is one or above it, at which the privilege is granted and propagates.
abbrev pub Source : Permissions → Text → Text → Type 0
Source p priv q = (a : Text) × Up q a × (get_or (granted p a priv) false ≡ true)

has_above-Source :
    (fuel : ℕ) (p : Permissions) (q priv : Text) → has_above fuel p q priv ≡ true → Source p priv q
unfolding has_above
has_above-Source zero p q priv h = cc
has_above-Source (suc fuel) p [] priv h = cc
has_above-Source (suc fuel) p (c ∷ q) priv h =
    elim (Bool-cases (get_or (granted p (c ∷ q) priv) false)) [
      | inl y ↦ (c ∷ q, here (λ e. cc), y)
      | inr n ↦
          let (a, up, g) =
            has_above-Source fuel p (parent_path (c ∷ q)) priv (rw (has_above, n) at h) in
          (a, above (λ e. cc) up, g)
    ]

Source-has_above :
    (fuel : ℕ) (p : Permissions) (q a priv : Text)
    → rank q ≤ fuel
    → Up q a
    → get_or (granted p a priv) false ≡ true
    → has_above fuel p q priv ≡ true
unfolding has_above
Source-has_above fuel p [] a priv k (here n) g = absurd (n refl)
Source-has_above fuel p [] a priv k (above n up) g = absurd (n refl)
Source-has_above zero p (c ∷ q) a priv k up g = absurd (ground arith)
Source-has_above (suc fuel) p (c ∷ q) a priv k (here n) g = rw (has_above, g) refl
Source-has_above (suc fuel) p (c ∷ q) a priv k (above n up) g =
    let rest =
      Source-has_above fuel p (parent_path (c ∷ q)) a priv
        (omega (arith, parent_path-rank (c ∷ q) n)) up g in
    elim (Bool-cases (get_or (granted p (c ∷ q) priv) false)) [
      | inl y ↦ rw (has_above, y) refl
      | inr m ↦ rw (has_above, m, rest) refl
    ]

-- `parentPath` never gives a path that the loop could not get through with its fuel.
parent_path-fits : (q : Text) → rank (parent_path q) ≤ suc (length q)
unfolding parent_path
parent_path-fits [] = ground arith
parent_path-fits (c ∷ q) = omega (arith, parent_path-rank (c ∷ q) (λ e. cc), rank-le (c ∷ q))

-- A privilege is there on a path exactly if it is granted on the path itself, or granted and
-- propagated on one of the paths above it.
pub has-Source :
    (p : Permissions) (path priv : Text)
    → (has p path priv ≡ true)
      ↔ ((is_some (granted p path priv) ≡ true) ⊎ Source p priv (parent_path path))
unfolding has
has-Source p path priv = (to, from)
  where
    to :
        has p path priv ≡ true
        → (is_some (granted p path priv) ≡ true) ⊎ Source p priv (parent_path path)
    to h = elim (Bool-cases (is_some (granted p path priv))) [
      | inl y ↦ inl y
      | inr n ↦ inr (has_above-Source _ p _ priv (rw n at h))
    ]

    from :
        (is_some (granted p path priv) ≡ true) ⊎ Source p priv (parent_path path)
        → has p path priv ≡ true
    from (inl y) = rw y refl
    from (inr (a, up, g)) =
        let found = Source-has_above _ p _ a priv (parent_path-fits path) up g in ground arith
