-- ===== src/Installer/Log.antt =====
-- internal/installer: what holds of every command in the log.
use proxmox_actions_runners.Prelude.{List, [], ◌∷◌, none, some}
use proxmox_actions_runners.Prelude.Lists.{All}
use proxmox_actions_runners.Installer.{Command, Host, Outcome, run, run_each, and_then}

module _ (host : Host) (P : Command → Type 0) where
  pub run_log : (c : Command) (log : List Command) → P c → All P log → All P (run host c log).1
  unfolding run
  run_log c log h k = (h, k)

  pub and_then-All :
      (o : Outcome) (next : List Command → Outcome)
      → All P o.1
      → ((log : List Command) → All P log → All P (next log).1)
      → All P (and_then o next).1
  unfolding and_then
  and_then-All (none, log) next h f = f log h
  and_then-All (some e, log) next h f = h

  pub run_each-All : (cs log : List Command) → All P cs → All P log → All P (run_each host cs log).1
  unfolding run_each run
  run_each-All [] log h k = k
  run_each-All (c ∷ cs) log (h, hs) k =
      and_then-All (run host c log) (run_each host cs) (run_log c log h k)
        (λ log1 l. run_each-All cs log1 hs l)
