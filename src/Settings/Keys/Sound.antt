-- ===== src/Settings/Keys/Sound.antt =====
-- internal/settings/keys.go: what a change of a setting may do.
use proxmox_actions_runners.Prelude.{
  ℤ, pos, ◌≤ℤ◌, ◌≡◌, ◌⊎◌, refl, List, [], ◌∷◌, Text, Option, none, some, arith, text_beq_iff,
  text_eq,
}
use proxmox_actions_runners.Prelude.Results.{Result, ok, err}
use proxmox_actions_runners.Prelude.Time.{Duration}
use proxmox_actions_runners.Config.Validate.{min_max_lifetime, max_max_lifetime}
use proxmox_actions_runners.Settings.{Settings}
use proxmox_actions_runners.Settings.Validate.{
  Packages, Problem, validate, min_cores, min_memory_mib,
}
use proxmox_actions_runners.Settings.Validate.Sound.{IsValid, validate-IsValid}
use proxmox_actions_runners.Settings.Keys.{
  Limits, Key, runners_max, worker_cores, worker_memory, worker_max_lifetime, key_name, keys,
  find_key, Refusal, SetError, worker_ids, with_max, with_cores, with_memory, with_lifetime,
  set_max, set_cores, set_memory, set_lifetime, unknown_key, set_value, checked, check_next,
  set_key,
}
use proxmox_actions_runners.Prelude.Strings.{trim_space}
use proxmox_actions_runners.Prelude.Number.{parse_int}
use proxmox_actions_runners.Config.Units.{SizeError, parse_size}
use proxmox_actions_runners.Config.Lifetime.{LifetimeError, parse_lifetime}

-- The new settings differ from the old ones in the key's value alone, which the node allows.
abbrev pub Changed : Key → Limits → Settings → Settings → Type 0
Changed runners_max l s next =
    (n : ℤ) × (next ≡ with_max s n)
    × (pos 1 ≤ℤ n)
    × (s.scale_set.min_runners ≤ℤ n)
    × (n ≤ℤ worker_ids s)
Changed worker_cores l s next =
    (n : ℤ) × (next ≡ with_cores s n)
    × (min_cores ≤ℤ n)
    × ((l.host_cpus ≤ℤ pos 0) ⊎ (n ≤ℤ l.host_cpus))
Changed worker_memory l s next =
    (n : ℤ) × (next ≡ with_memory s n)
    × (min_memory_mib ≤ℤ n)
    × ((l.host_mem_mib ≤ℤ pos 0) ⊎ (n ≤ℤ l.host_mem_mib))
Changed worker_max_lifetime l s next =
    (d : Duration) × (next ≡ with_lifetime s d) × (min_max_lifetime ≤ℤ d) × (d ≤ℤ max_max_lifetime)

pub set_value-Changed :
    (durations : Text → Option Duration) (key : Key) (s next : Settings) (value : Text) (l : Limits)
    → set_value durations key s value l ≡ ok next
    → Changed key l s next
unfolding set_value
set_value-Changed durations runners_max s next value l h =
    from_number (parse_int (trim_space value)) h
  where
    from_number : (o : Option ℤ) → set_max s o ≡ ok next → Changed runners_max l s next
    from_number none e = cc
    from_number (some n) e = (n, ground arith, ground arith, ground arith, ground arith)
set_value-Changed durations worker_cores s next value l h =
    from_number (parse_int (trim_space value)) h
  where
    from_number : (o : Option ℤ) → set_cores s l o ≡ ok next → Changed worker_cores l s next
    from_number none e = cc
    from_number (some n) e = (n, ground arith, ground arith, ground arith)
set_value-Changed durations worker_memory s next value l h = from_size (parse_size value) h
  where
    from_size :
        (r : Result SizeError ℤ) → set_memory s l r ≡ ok next → Changed worker_memory l s next
    from_size (err f) e = cc
    from_size (ok n) e = (n, ground arith, ground arith, ground arith)
set_value-Changed durations worker_max_lifetime s next value l h =
    from_lifetime (parse_lifetime durations value) h
  where
    from_lifetime :
        (r : Result LifetimeError Duration)
        → set_lifetime s r ≡ ok next
        → Changed worker_max_lifetime l s next
    from_lifetime (err f) e = cc
    from_lifetime (ok d) e = (d, ground arith, ground arith, ground arith)

check_next-ok :
    (k : Packages) (key : Key) (value : Text) (r : Result Refusal Settings) (s' : Settings)
    → check_next k key value r ≡ ok s'
    → (r ≡ ok s') × (validate k s' ≡ [])
check_next-ok k key value (err f) s' e = cc
check_next-ok k key value (ok next) s' e = from_problems (validate k next) refl e
  where
    from_problems :
        (ps : List Problem)
        → validate k next ≡ ps
        → checked key value next ps ≡ ok s'
        → (◌≡◌ {A = Result Refusal Settings} (ok next) (ok s')) × (validate k s' ≡ [])
    from_problems [] v c = let same : next ≡ s' = cc in rw (← same) (refl, v)
    from_problems (p ∷ ps) v c = cc

find_key-name :
    (ks : List Key) (name : Text) (key : Key) → find_key ks name ≡ some key → key_name key ≡ name
unfolding find_key
find_key-name [] name key h = cc
find_key-name (x ∷ ks) name key h =
    ground (arith, text_beq_iff (key_name x) name, find_key-name ks name key)

-- The steps of a change that `SetKey` accepts.
pub set_key-steps :
    (k : Packages) (durations : Text → Option Duration) (s s' : Settings) (name value : Text)
    (l : Limits)
    → set_key k durations s name value l ≡ ok s'
    → (key : Key) × (find_key keys name ≡ some key)
      × (set_value durations key s value l ≡ ok s')
      × (validate k s' ≡ [])
unfolding set_key
set_key-steps k durations s s' name value l h = from_key (find_key keys name) refl h
  where
    from_key :
        (o : Option Key)
        → find_key keys name ≡ o
        → (elim o as (λ _. Result SetError Settings) [
          | none ↦ err (unknown_key name)
          | some key ↦ check_next k key value (set_value durations key s value l)
        ])
          ≡ ok s'
        → (key : Key) × (find_key keys name ≡ some key)
          × (set_value durations key s value l ≡ ok s')
          × (validate k s' ≡ [])
    from_key none f e = cc
    from_key (some key) f e =
        let (v, fine) = check_next-ok k key value (set_value durations key s value l) s' e in
        (key, f, v, fine)

-- For all settings, names, values and limits: if SetKey succeeds, there is a key with that name, the
-- new settings differ from the old ones in that key's value alone, the value is within the key's
-- bounds (at least minRunners and 1 and at most the workers' VMIDs for the maximum; at least the minimum and
-- at most the host's, where known, for cores and memory; between the two bounds for the lifetime), and the new settings have
-- what the controller needs (IsValid).
pub set_key-Changed :
    (k : Packages) (durations : Text → Option Duration) (s s' : Settings) (name value : Text)
    (l : Limits)
    → set_key k durations s name value l ≡ ok s'
    → (key : Key) × (key_name key ≡ name) × Changed key l s s' × IsValid k s'
set_key-Changed k durations s s' name value l h =
    let (key, f, v, fine) = set_key-steps k durations s s' name value l h in
    (
      key,
      find_key-name keys name key f,
      set_value-Changed durations key s s' value l v,
      validate-IsValid k s' fine,
    )
