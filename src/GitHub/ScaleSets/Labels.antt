-- ===== src/GitHub/ScaleSets/Labels.antt =====
-- internal/github/scaleset.go: `sameLabels` compares sets of names.
use proxmox_actions_runners.Prelude.{◌≡◌, ◌&&◌, List, map, Text}
use proxmox_actions_runners.Prelude.TextSets.{covers}
use proxmox_actions_runners.Prelude.TextSets.Same.{equal_text_set}
use proxmox_actions_runners.GitHub.ScaleSets.{Label, lower_name, same_labels}

abbrev pub lower_names : List Label → List Text
lower_names ls = map lower_name ls

-- For all lists of labels a and b, sameLabels a b (which sorts the lowered names, removes neighbours
-- that are equal and compares what is left) is true exactly when each lowered name of a is
-- among the lowered names of b and each lowered name of b is among those of a.
pub same_labels-covers :
    (a b : List Label)
    → same_labels a b
      ≡ (covers (lower_names a) (lower_names b) && covers (lower_names b) (lower_names a))
unfolding same_labels
same_labels-covers a b = equal_text_set (lower_names a) (lower_names b)
