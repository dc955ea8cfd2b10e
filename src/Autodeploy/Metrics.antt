-- ===== src/Autodeploy/Metrics.antt =====
-- `render_metrics`. How Python shows a value that is no text is given.
pub mod Cycle
use pi_homelab.Base.{Bool, Option, none, some, List, [], ◌∷◌, ◌++◌, take, text_eq, if◌then◌else◌}
use pi_homelab.Base.Text.{Text, codes, strip, nonempty}
use pi_homelab.Base.Dict.{lookup}
use pi_homelab.Base.Int.{ℤ, pos}
use pi_homelab.Base.Unlines.{unlines}
use pi_homelab.Base.Json.{Value, str}
use pi_homelab.Base.Metrics.{num, unquoted, gauge, single, label, one_if}
use pi_homelab.Base.Result.{Result, ok, ◌>>=◌}
use pi_homelab.Autodeploy.State.{State, is_text, failed_sha, last_good_sha}
use pi_homelab.Autodeploy.State.{last_deploy_ts, last_deploy_result, fail_count}

abbrev pub run_lines : ℤ → Bool → List Text
run_lines now last_run_ok =
    single gauge (codes "homelab_autodeploy_last_run_unix_seconds")
      (codes "Unix time of the last controller run.") [] now
    ++ single gauge (codes "homelab_autodeploy_last_run_success")
        (codes "1 if the last run completed without error.") [] (one_if last_run_ok)

abbrev pub deploy_lines : ℤ → ℤ → List Text
deploy_lines deployed fails =
    single gauge (codes "homelab_autodeploy_last_deploy_unix_seconds")
      (codes "Unix time of the last deploy/rollback.") [] deployed
    ++ single gauge (codes "homelab_autodeploy_fail_total")
        (codes "Cumulative failed deploys that triggered a rollback.") [] fails

abbrev pub hold_lines : Bool → Bool → Text → List Text
hold_lines rolled_back held sha =
    single gauge (codes "homelab_autodeploy_last_result_rolled_back")
      (codes "1 if the most recent deploy rolled back.") [] (one_if rolled_back)
    ++ (single gauge (codes "homelab_autodeploy_held")
          (codes "1 while a failed commit is held (not yet superseded by a green deploy).") []
          (one_if held)
        ++ single gauge (codes "homelab_autodeploy_last_good_info")
            (codes "Constant 1; labels the last-good commit SHA.") (label (codes "sha") sha)
            (pos 1))

unfoldable pub gauge_lines : ℤ → Bool → ℤ → ℤ → Bool → Bool → Text → List Text
gauge_lines now last_run_ok deployed fails rolled_back held sha =
    run_lines now last_run_ok ++ (deploy_lines deployed fails ++ hold_lines rolled_back held sha)

-- `sha.replace('"', "")[:12] or "none"`
unfoldable pub short : Text → Text
unfolding unquoted
short sha = let cut = take 12 (unquoted sha) in if nonempty cut then cut else codes "none"

module _ (shown : Value → Text) where
  -- `str(d.get(key, default))`
  abbrev pub text_or : Text → Option Value → Text
  text_or default none = default
  text_or default (some (str s)) = s
  text_or default (some v) = shown v

  unfoldable pub render_metrics : State → ℤ → Bool → Result Text
  unfolding num is_text gauge_lines short strip
  render_metrics state now last_run_ok = do
    deployed ← num (lookup last_deploy_ts state)
    fails ← num (lookup fail_count state)
    ok (
        unlines (
          gauge_lines now last_run_ok deployed fails
            (is_text (lookup last_deploy_result state) (codes "rolled_back"))
            (nonempty (strip (text_or [] (lookup failed_sha state))))
            (short (text_or (codes "none") (lookup last_good_sha state)))))
