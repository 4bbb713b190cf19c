-- ===== src/Proxmox/Access/Above.antt =====
-- internal/proxmox/access.go: the paths above a path, told by their text.
use mathlib.Core.List.{append_assoc}
use proxmox_actions_runners.Prelude.{
  ℕ, zero, suc, ◌≤◌, ◌≡◌, ◌≢◌, ◌↔◌, ◌⊎◌, refl, sym, ◌∙◌, ap, subst, true, false, ◌==◌, text_eq, [],
  ◌∷◌, ◌++◌, Text, Option, none, some, is_some, get_or, arith, Bool-cases, Option-cases, inl, inr,
  text_beq, text_beq_iff,
}
use proxmox_actions_runners.Prelude.Lists.{length, take, drop}
use proxmox_actions_runners.Proxmox.Access.{
  Permissions, granted, last_index, slash, up_to, parent_path, has,
}
use proxmox_actions_runners.Proxmox.Access.Paths.{Up, rank, parent_path-rank, has-Source}

-- The root is above every path but itself, and so is what stands before any of a path's slashes,
-- unless it is empty.
abbrev pub Above : Text → Text → Type 0
Above path a =
    (path ≢ [])
    × (path ≢ slash)
    × ((a ≡ slash) ⊎ ((a ≢ []) × ((rest : Text) × (path ≡ a ++ b'/' ∷ rest))))

-- The last slash is the one after `s`, or a later one.
cut-at :
    (x : ℕ) (s rest : Text)
    → (i : ℕ) × (last_index x (s ++ x ∷ rest) ≡ some i)
      × (length s ≤ i)
      × ((take i (s ++ x ∷ rest) ≡ s) ⊎ ((more : Text) × (take i (s ++ x ∷ rest) ≡ s ++ x ∷ more)))
unfolding last_index
cut-at x [] rest = elim (Option-cases (last_index x rest)) [
  | inl e ↦ (0, ground (arith, e), omega arith, inl refl)
  | inr (j, e) ↦ (suc j, ground (arith, e), omega arith, inr (take j rest, refl))
]
cut-at x (c ∷ s) rest =
    let (i, e, le, d) = cut-at x s rest in
    (
      suc i,
      ground (arith, e),
      omega (arith, le),
      elim d [ inl t ↦ inl (ap (λ z. c ∷ z) t) | inr (more, t) ↦ inr (more, ap (λ z. c ∷ z) t) ],
    )

not_slash : (c : ℕ) (s rest : Text) → ((c ∷ s ++ b'/' ∷ rest) == slash) ≡ false
unfolding text_beq
not_slash c [] rest = ground arith
not_slash c (d ∷ s) rest = ground arith

-- The parent of a path that goes on after `a` is `a`, or goes on after it too.
parent_path-prefix :
    (a rest : Text)
    → a ≢ []
    → (parent_path (a ++ b'/' ∷ rest) ≡ a)
      ⊎ ((more : Text) × (parent_path (a ++ b'/' ∷ rest) ≡ a ++ b'/' ∷ more))
unfolding parent_path
parent_path-prefix [] rest n = absurd (n refl)
parent_path-prefix (c ∷ s) rest n =
    let (i, e, le, d) = cut-at b'/' (c ∷ s) rest in rw (not_slash c s rest, e) (at_least_one i le d)
  where
    at_least_one :
        (i : ℕ)
        → length (c ∷ s) ≤ i
        → (take i (c ∷ s ++ b'/' ∷ rest) ≡ c ∷ s)
          ⊎ ((more : Text) × (take i (c ∷ s ++ b'/' ∷ rest) ≡ c ∷ s ++ b'/' ∷ more))
        → (up_to (c ∷ s ++ b'/' ∷ rest) (some i) ≡ c ∷ s)
          ⊎ ((more : Text) × (up_to (c ∷ s ++ b'/' ∷ rest) (some i) ≡ c ∷ s ++ b'/' ∷ more))
    at_least_one zero le d = absurd (omega (arith, le))
    at_least_one (suc i) le d = d

last_index-cut :
    (x : ℕ) (s : Text) (i : ℕ) → last_index x s ≡ some i → s ≡ take i s ++ x ∷ drop (suc i) s
unfolding last_index
last_index-cut x [] i h = cc
last_index-cut x (c ∷ s) zero h = elim (Option-cases (last_index x s)) [
  | inl e ↦ let same : c ≡ x = ground (arith, h, e) in ap (λ z. z ∷ s) same
  | inr (j, e) ↦ absurd (ground (arith, h, e))
]
last_index-cut x (c ∷ s) (suc i) h = elim (Option-cases (last_index x s)) [
  | inl e ↦ absurd (ground (arith, h, e))
  | inr (j, e) ↦
      let same : j ≡ i = ground (arith, h, e) in
      ap (λ z. c ∷ z) (last_index-cut x s i (e ∙ ap some same))
]

up_to-Above :
    (q : Text) (o : Option ℕ) → last_index b'/' q ≡ o → q ≢ [] → q ≢ slash → Above q (up_to q o)
up_to-Above q none e n r = (n, r, inl refl)
up_to-Above q (some zero) e n r = (n, r, inl refl)
up_to-Above [] (some (suc i)) e n r = absurd (n refl)
up_to-Above (c ∷ q) (some (suc i)) e n r =
    (n, r, inr ((λ z. cc z), (drop (suc i) q, last_index-cut b'/' (c ∷ q) (suc i) e)))

-- The parent of a path is the root, or stands before one of the path's slashes.
parent_path-Above : (q : Text) → q ≢ [] → q ≢ slash → Above q (parent_path q)
unfolding parent_path
parent_path-Above [] n r = absurd (n refl)
parent_path-Above (c ∷ q) n r = elim (Bool-cases ((c ∷ q) == slash)) [
  | inl y ↦ absurd (r ((text_beq_iff (c ∷ q) slash).0 y))
  | inr m ↦ rw m (up_to-Above (c ∷ q) _ refl n r)
]

parent_path-of_root : (q : Text) → (q ≡ []) ⊎ (q ≡ slash) → parent_path q ≡ []
unfolding parent_path text_beq
parent_path-of_root q (inl e) = rw e refl
parent_path-of_root q (inr e) = rw e refl

parent_path-Above_some : (q : Text) → parent_path q ≢ [] → Above q (parent_path q)
parent_path-Above_some q n =
    parent_path-Above q (λ e. n (parent_path-of_root q (inl e)))
      (λ e. n (parent_path-of_root q (inr e)))

Above-not_empty : (q a : Text) → Above q a → a ≢ []
Above-not_empty q a (n, r, inl e) z = cc (e, z)
Above-not_empty q a (n, r, inr (l, more)) z = l z

prefixed_proper :
    (a rest : Text) → a ≢ [] → ((a ++ b'/' ∷ rest) ≢ []) × ((a ++ b'/' ∷ rest) ≢ slash)
prefixed_proper [] rest n = absurd (n refl)
prefixed_proper (c ∷ s) rest n =
    ((λ e. cc e), λ e. cc ((text_beq_iff (c ∷ s ++ b'/' ∷ rest) slash).1 e, not_slash c s rest))

Above-trans : (q b a : Text) → Above q b → Above b a → Above q a
Above-trans q b a (n, r, inl e) (m, k, d) = absurd (k e)
Above-trans q b a (n, r, inr (m', (s, e))) (m, k, inl f) = (n, r, inl f)
Above-trans q b a (n, r, inr (m', (s, e))) (m, k, inr (l, (t, f))) =
    (n, r, inr (l, (t ++ b'/' ∷ s, rw (e, f) (append_assoc a (b'/' ∷ t) (b'/' ∷ s)))))

Up-Above : (r a : Text) → Up r a → (q : Text) → r ≡ parent_path q → Above q a
Up-Above r a (Up.here n) q e = subst (Above q) (sym e) (parent_path-Above_some q (λ z. n (e ∙ z)))
Up-Above r a (Up.above n up) q e =
    Above-trans q r a (subst (Above q) (sym e) (parent_path-Above_some q (λ z. n (e ∙ z))))
      (Up-Above (parent_path r) a up r refl)

Above-Up : (fuel : ℕ) (q a : Text) → rank q ≤ fuel → Above q a → Up (parent_path q) a
Above-Up zero [] a le (n, r, d) = absurd (n refl)
Above-Up zero (c ∷ q) a le h = absurd (ground arith)
Above-Up (suc fuel) q a le (n, r, inl e) =
    let up = parent_path-Above q n r in
    let some_parent = Above-not_empty q (parent_path q) up in
    elim (Bool-cases (parent_path q == slash)) [
      | inl y ↦
          let same : parent_path q ≡ a = (text_beq_iff (parent_path q) slash).0 y ∙ sym e in
          subst (Up (parent_path q)) same (Up.here some_parent)
      | inr m ↦ Up.above some_parent (
          Above-Up fuel (parent_path q) a (omega (arith, le, parent_path-rank q n))
            (some_parent, (λ z. cc ((text_beq_iff (parent_path q) slash).1 z, m)), inl e))
    ]
Above-Up (suc fuel) q a le (n, r, inr (l, (rest, e))) = elim (parent_path-prefix a rest l) [
  | inl t ↦
      let same : parent_path q ≡ a = ap parent_path e ∙ t in
      subst (Up (parent_path q)) same (Up.here (λ z. l (sym same ∙ z)))
  | inr (more, t) ↦
      let same : parent_path q ≡ a ++ b'/' ∷ more = ap parent_path e ∙ t in
      let (ne, ns) = prefixed_proper a more l in
      let some_parent : parent_path q ≢ [] = λ z. ne (sym same ∙ z) in
      Up.above some_parent (
        Above-Up fuel (parent_path q) a (omega (arith, le, parent_path-rank q n))
          (some_parent, (λ z. ns (sym same ∙ z)), inr (l, (more, same))))
]

-- A privilege is there on a path exactly if it is granted on the path itself, or granted and
-- propagated on a path above it, which is the root or what stands before one of its slashes.
pub has_iff :
    (p : Permissions) (path priv : Text)
    → (has p path priv ≡ true) ↔ (
        (is_some (granted p path priv) ≡ true)
        ⊎ ((a : Text) × Above path a × (get_or (granted p a priv) false ≡ true)))
has_iff p path priv =
    let (to, from) = has-Source p path priv in
    (
      (λ h. elim (to h) [
        | inl y ↦ inl y
        | inr (a, up, g) ↦ inr (a, Up-Above (parent_path path) a up path refl, g)
      ]),
      (λ h. elim h [
        | inl y ↦ from (inl y)
        | inr (a, up, g) ↦ from (inr (a, Above-Up (rank path) path a (omega arith) up, g))
      ]),
    )
