-- ===== src/GitHub/Listen/Paced.antt =====
-- internal/github/listen.go: how long `Listen` waits between sessions.
use proxmox_actions_runners.Prelude.{
  ℕ, zero, suc, ◌+◌, ◌*◌, ◌^◌, ◌≤◌, ◌<◌, ◌≡◌, ◌⊎◌, refl, sym, ap, ◌∙◌, ℤ, pos, negsuc, pos_part,
  ◌+ℤ◌, ◌≤ℤ◌, ◌<ℤ◌, leb_ℤ, min_ℤ, true, false, get_or, codes, List, [], ◌∷◌, Text, Option, some,
  if◌then◌else◌, arith, Bool-cases, Option-cases, ltb, inl, inr,
}
use native.Mathlib.Numerals.{unary_clauses}
use proxmox_actions_runners.Prelude.Int.{eq_of_parts, ◌+ℤ◌, +ℤ_parts, wrap64, wrap64-id}
use proxmox_actions_runners.Prelude.Time.{Duration}
use proxmox_actions_runners.GitHub.Listen.{
  ListenOptions, Event, asked, observed_open, observed_end, waited, Surroundings, healthy_session,
  min_backoff_of, max_backoff_of, listen_open, listen_once, wait_after, next_backoff, time_of,
  ended_event, listen_loop, listen,
}

-- How many waits there were since a session last ended healthy.
unfoldable pub waits_since_healthy : List Event → ℕ
waits_since_healthy [] = 0
waits_since_healthy (waited d ∷ es) = suc (waits_since_healthy es)
waits_since_healthy (observed_end lasted e ∷ es) =
    let n = waits_since_healthy es in if leb_ℤ healthy_session lasted then 0 else n
waits_since_healthy (_ ∷ es) = waits_since_healthy es

-- The wait that doubles from the least one, up to the longest.
abbrev pub doubled : ListenOptions → ℕ → Duration
doubled opts n = min_ℤ (pos (pos_part (min_backoff_of opts) * 2 ^ n)) (max_backoff_of opts)

-- Each wait is the least one, doubled for every wait before it since a session ended healthy.
abbrev pub Paced : ListenOptions → List Event → Type 0
Paced opts [] = Unit
Paced opts (waited d ∷ es) = (d ≡ doubled opts (waits_since_healthy es)) × Paced opts es
Paced opts (_ ∷ es) = Paced opts es

-- How many sessions there were.
unfoldable pub sessions : List Event → ℕ
sessions [] = 0
sessions (asked i o ∷ es) = suc (sessions es)
sessions (_ ∷ es) = sessions es

double-pos : (a : ℕ) → a < 2 ^ 62 → wrap64 (pos a +ℤ pos a) ≡ pos (a + a)
double-pos a h =
    let sum : pos a +ℤ pos a ≡ pos (a + a) =
      eq_of_parts _ _ (omega (arith, +ℤ_parts (pos a) (pos a))) in
    rw sum (wrap64-id (pos (a + a)) (ground arith))

double-capped :
    (a top : ℕ)
    → top < 2 ^ 62
    → let b = min_ℤ (pos a) (pos top) in
      min_ℤ (wrap64 (b +ℤ b)) (pos top) ≡ min_ℤ (pos (a + a)) (pos top)
double-capped a top h = elim (Bool-cases (ltb a top)) [
  | inl y ↦
      let least : min_ℤ (pos a) (pos top) ≡ pos a = ground arith in
      rw (least, double-pos a (ground arith)) refl
  | inr y ↦
      let least : min_ℤ (pos a) (pos top) ≡ pos top = ground arith in
      rw (least, double-pos top h) (ground arith)
]

times_power : (m n : ℕ) → m * 2 ^ n + m * 2 ^ n ≡ m * 2 ^ suc n
times_power m n = simp unary_clauses (omega arith)

doubled-step :
    (lo top : ℤ) (n : ℕ)
    → pos 0 ≤ℤ top
    → top <ℤ pos (2 ^ 62)
    → let b = min_ℤ (pos (pos_part lo * 2 ^ n)) top in
      min_ℤ (wrap64 (b +ℤ b)) top ≡ min_ℤ (pos (pos_part lo * 2 ^ suc n)) top
doubled-step lo (pos top) n l h =
    rw (← times_power (pos_part lo) n) (double-capped (pos_part lo * 2 ^ n) top (ground arith))
doubled-step lo (negsuc top) n l h = absurd (ground arith)

min_backoff-le_max : (opts : ListenOptions) → min_backoff_of opts ≤ℤ max_backoff_of opts
unfolding max_backoff_of
min_backoff-le_max opts = ground arith

-- The least wait is no less than nothing, and the longest can be doubled in an `int64`.
abbrev pub Usable : ListenOptions → Type 0
Usable opts = (pos 0 ≤ℤ min_backoff_of opts) × (max_backoff_of opts <ℤ pos (2 ^ 62))

next-doubled :
    (opts : ListenOptions) (n : ℕ)
    → Usable opts
    → next_backoff opts (doubled opts n) ≡ doubled opts (suc n)
next-doubled opts n (l, h) =
    doubled-step (min_backoff_of opts) (max_backoff_of opts) n
      (omega (arith, l, min_backoff-le_max opts)) h

doubled-zero : (opts : ListenOptions) → Usable opts → doubled opts 0 ≡ min_backoff_of opts
doubled-zero opts (l, h) =
    least (min_backoff_of opts) (max_backoff_of opts) l (min_backoff-le_max opts)
  where
    least : (lo top : ℤ) → pos 0 ≤ℤ lo → lo ≤ℤ top → min_ℤ (pos (pos_part lo * 1)) top ≡ lo
    least lo top k m = eq_of_parts _ _ (ground arith)

module _ (env : Surroundings) (opts : ListenOptions) where
  -- A session adds no wait.
  abbrev Quiet : List Event → List Event → Type 0
  Quiet es fs =
      (Paced opts es → Paced opts fs)
      × (waits_since_healthy fs ≡ waits_since_healthy es)
      × (sessions fs ≡ suc (sessions es))

  listen_open-quiet :
      (es : List Event)
      → let fs = (listen_open env opts es).1 in
        (Paced opts es → Paced opts fs)
        × (waits_since_healthy fs ≡ waits_since_healthy es)
        × (sessions fs ≡ sessions es)
  unfolding listen_open waits_since_healthy sessions
  listen_open-quiet es = elim (Option-cases (env.new_answer es)) [
    | inr (x, f) ↦ rw (listen_open, f) ((λ h. h), refl, refl)
    | inl f ↦ rw (listen_open, f) ((λ h. h), refl, refl)
  ]

  listen_once-Quiet : (es : List Event) → Quiet es (listen_once env opts es).1
  unfolding listen_once waits_since_healthy sessions
  listen_once-Quiet es = elim (Option-cases (env.open_answer es)) [
    | inr (x, e) ↦ rw (listen_once, e) ((λ h. h), refl, refl)
    | inl e ↦
        let (p, w, n) =
          listen_open-quiet (observed_open ∷ asked opts.scale_set_id opts.owner ∷ es) in
        rw (listen_once, e) (p, w, n)
  ]

  wait-doubled :
      (lasted backoff : Duration) (error : Text) (es : List Event)
      → Usable opts
      → backoff ≡ doubled opts (waits_since_healthy es)
      → wait_after opts lasted backoff
        ≡ doubled opts (waits_since_healthy (observed_end lasted error ∷ es))
  unfolding waits_since_healthy
  wait-doubled lasted backoff error es u e = elim (Bool-cases (leb_ℤ healthy_session lasted)) [
    | inl y ↦ rw y (sym (doubled-zero opts u))
    | inr y ↦ rw y e
  ]

  -- The context has ended, or it ended during the wait that was last.
  abbrev pub Over : List Event → Type 0
  Over out =
      (env.over out ≡ true)
      ⊎ ((d : Duration) × (es : List Event) × (out ≡ waited d ∷ es) × (env.wait_ends es d ≡ false))

  -- The context has ended once there were so many sessions.
  abbrev pub EndsBy : ℕ → Type 0
  EndsBy n = (es : List Event) → n ≤ sessions es → env.over es ≡ true

  -- It returns, for its reason, and its waits were paced.
  abbrev Returns : Option (List Event) → Type 0
  Returns o = (out : List Event) × (o ≡ some out) × Over out × Paced opts out

  over-Returns :
      (fuel : ℕ) (backoff : Duration) (es : List Event)
      → env.over (listen_once env opts es).1 ≡ true
      → Paced opts es
      → Returns (listen_loop env (suc fuel) opts backoff es)
  unfolding listen_loop
  over-Returns fuel backoff es o p =
      ((listen_once env opts es).1, rw (listen_loop, o) refl, inl o, (listen_once-Quiet es).0 p)

  loop-Returns :
      (n : ℕ)
      → EndsBy n
      → Usable opts
      → (fuel : ℕ) (backoff : Duration) (es : List Event) → n ≤ sessions es + fuel
      → backoff ≡ doubled opts (waits_since_healthy es)
      → Paced opts es
      → Returns (listen_loop env (suc fuel) opts backoff es)
  unfolding waits_since_healthy listen_loop sessions
  loop-Returns n ends u zero backoff es k e p =
      let (q, w, s) = listen_once-Quiet es in over-Returns zero backoff es (ends _ (omega arith)) p
  loop-Returns n ends u (suc fuel) backoff es k e p =
      let (q, w, s) = listen_once-Quiet es in
      let once = listen_once env opts es in
      let told = ended_event env es once ∷ once.1 in
      let wait = wait_after opts (time_of env es once.1) backoff in
      let due : wait ≡ doubled opts (waits_since_healthy told) =
        wait-doubled (time_of env es once.1) backoff
          (get_or once.0 (codes "session ended without an error")) once.1 u
          (e ∙ ap (doubled opts) (sym w)) in
      elim (Bool-cases (env.over once.1)) [
        | inl o ↦ over-Returns (suc fuel) backoff es o p
        | inr o ↦ elim (Bool-cases (env.wait_ends told wait)) [
          | inl y ↦
              let (out, r, why, paced) =
                loop-Returns n ends u fuel (next_backoff opts wait) (waited wait ∷ told)
                  (omega arith) (ap (next_backoff opts) due ∙ next-doubled opts _ u) (due, q p) in
              (out, rw (listen_loop, o, y) r, why, paced)
          | inr y ↦ (
            waited wait ∷ told,
            rw (listen_loop, o, y) refl,
            inr (wait, told, refl, y),
            (due, q p),
          )
        ]
      ]

  -- If the options' backoffs are not negative and can be doubled, and the context has ended once there
  -- were n sessions, then Listen returns with n + 1 of fuel, because the context ended; and each of its
  -- waits is the least backoff doubled once for every wait since a session last ran for a minute or
  -- more, up to the longest backoff.
  pub listen-Paced :
      (n : ℕ)
      → Usable opts
      → EndsBy n
      → (out : List Event) × (listen env (suc n) opts ≡ some out) × Over out × Paced opts out
  unfolding listen waits_since_healthy sessions
  listen-Paced n u ends =
      loop-Returns n ends u n (min_backoff_of opts) [] (omega arith) (sym (doubled-zero opts u)) tt
