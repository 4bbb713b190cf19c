-- ===== src/Config/App.antt =====
-- internal/config/validate.go: `RequireGitHubApp`, which lists what the GitHub App still lacks.
use proxmox_actions_runners.Prelude.{
  pos, ◌≡◌, ◌≢◌, ◌↔◌, ◌==◌, int_eq, List, [], ◌∷◌, ◌++◌, Text, Bool, true, false, Option, none,
  some, codes, is_empty, arith,
}
use proxmox_actions_runners.Prelude.Int.{beq_ℤ_iff}
use proxmox_actions_runners.Config
use proxmox_actions_runners.Config.{Config}

abbrev pub missing_if : Bool → Text → List Text
missing_if true field = field ∷ []
missing_if false field = []

unfoldable pub missing_fields : Config.GitHub → List Text
missing_fields g =
    missing_if (is_empty g.config_url) (codes "github.configUrl")
    ++ (missing_if (is_empty g.app.client_id) (codes "github.app.clientId")
        ++ (missing_if (g.app.installation_id == pos 0) (codes "github.app.installationId")
            ++ missing_if (is_empty g.app.private_key_file) (codes "github.app.privateKeyFile")))

-- The fields that the error names, if there is one.
unfoldable pub require_github_app : Config → Option (List Text)
require_github_app c = elim (missing_fields c.github) [
  | [] ↦ none
  | field ∷ fields ↦ some (field ∷ fields)
]

-- The App is taken to be set up exactly if the GitHub URL, the client ID, the installation ID and the
-- private key's file are all given.
pub require_github_app_iff :
    (c : Config)
    → (require_github_app c ≡ none) ↔ (
        (c.github.config_url ≢ [])
        × (c.github.app.client_id ≢ [])
        × (c.github.app.installation_id ≢ pos 0)
        × (c.github.app.private_key_file ≢ []))
unfolding require_github_app missing_fields
require_github_app_iff c = ground (arith, beq_ℤ_iff c.github.app.installation_id (pos 0))
