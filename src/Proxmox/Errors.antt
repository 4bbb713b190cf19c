-- ===== src/Proxmox/Errors.antt =====
-- internal/proxmox/errors.go: the errors of the API and of its tasks, and what callers tell apart.
use proxmox_actions_runners.Prelude.{
  ℤ, pos, ◌==◌, int_eq, Bool, false, ◌||◌, [], ◌∷◌, Text, codes, has_prefix,
}

-- An `APIError`, a `TaskError`, the end of the context, or any other error.
pub data PveError : Type 0 where
  api : (status_code : ℤ) → (message : Text) → PveError
  task : (exit_status : Text) → PveError
  canceled : PveError
  other : Text → PveError

-- `strings.Contains`
unfoldable pub contains_text : Text → Text → Bool
contains_text [] substr = has_prefix [] substr
contains_text (c ∷ s) substr = has_prefix (c ∷ s) substr || contains_text s substr

unfoldable pub message_contains : PveError → Text → Bool
message_contains (api status_code message) substr = contains_text message substr
message_contains (task exit_status) substr = contains_text exit_status substr
message_contains canceled substr = false
message_contains (other message) substr = false

unfoldable pub is_vmid_in_use : PveError → Bool
is_vmid_in_use e =
    message_contains e (codes "already exists on node")
    || message_contains e (codes "config file already exists")

unfoldable pub is_forbidden : PveError → Bool
is_forbidden (api status_code message) = status_code == pos 403
is_forbidden (task exit_status) = false
is_forbidden canceled = false
is_forbidden (other message) = false

unfoldable pub is_agent_not_ready : PveError → Bool
is_agent_not_ready e = message_contains e (codes "is not running")
