-- ===== src/RunnerMetrics/Main.antt =====
-- `main`. How a path is opened is given, beside `json.loads` and how Python shows a value.
use pi_homelab.Base.{Option, none, some, List, [], ◌∷◌, if◌then◌else◌}
use pi_homelab.Base.Text.{Text, nonempty}
use pi_homelab.Base.Int.{ℤ, pos}
use pi_homelab.Base.Json.{Loaded, Value, str}
use pi_homelab.Base.Metrics.{num}
use pi_homelab.Base.Result.{Result, ok, ◌>>=◌, Read}
use pi_homelab.RunnerMetrics.Render.{render}

-- The exit status, and the text on standard output.
pub record Outcome : Type 0 where
  pub exit : ℤ
  pub stdout : Text

abbrev pub usage : Outcome
usage = record { exit = pos 2; stdout = [] }

module _ (loads : Text → Loaded) (shown : Value → Text) (open_file : Text → Read) where
  abbrev pub print_metrics : Text → Text → Text → Text → Option Read → Result Outcome
  print_metrics status_path heartbeat_path stale_raw now_raw rebuild_file = do
    stale_seconds ← num (some (str stale_raw))
    now ← num (some (str now_raw))
    text ←
        render loads shown (open_file status_path) (open_file heartbeat_path) stale_seconds now
          rebuild_file
    ok (record { exit = pos 0; stdout = text })

  abbrev pub opened : Text → Option Read
  opened path = if nonempty path then some (open_file path) else none

  unfoldable pub main : List Text → Result Outcome
  unfolding num render
  main (_ ∷ status_path ∷ heartbeat_path ∷ stale_raw ∷ now_raw ∷ []) =
      print_metrics status_path heartbeat_path stale_raw now_raw none
  main (_ ∷ status_path ∷ heartbeat_path ∷ stale_raw ∷ now_raw ∷ rebuild_path ∷ []) =
      print_metrics status_path heartbeat_path stale_raw now_raw (opened rebuild_path)
  main _ = ok usage
