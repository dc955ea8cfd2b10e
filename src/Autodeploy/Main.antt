-- ===== src/Autodeploy/Main.antt =====
-- `main`: the subcommands over argv. A file that is read, what `json.loads` makes of a text,
-- `json.dumps(state, indent=2)` and `str` of a value that is no text are given.
use pi_homelab.Base.{ℕ, zero, suc, Bool, List, [], ◌∷◌, ◌++◌, some, ◌==◌, filter}
use pi_homelab.Base.{drop, text_eq, nat_eq, if◌then◌else◌}
use pi_homelab.Base.Text.{Text, codes, nonempty, split_on}
use pi_homelab.Base.Dict.{Dict}
use pi_homelab.Base.Int.{ℤ}
use pi_homelab.Base.Unlines.{unlines}
use pi_homelab.Base.Json.{Loaded, Value, str, int, truth}
use pi_homelab.Base.Metrics.{num}
use pi_homelab.Base.Result.{Result, ok, raise, ◌>>=◌, index_error, Read}
use pi_homelab.Autodeploy.State.{
  State, load, needs_deploy, ci_passed, on_attempt, on_success, on_fail,
}
use pi_homelab.Autodeploy.Plan.{Config, plan_targets, plan_skipped}
use pi_homelab.Autodeploy.Rollback.{rollback_targets}
use pi_homelab.Autodeploy.Metrics.{render_metrics}

-- The exit status and what is printed.
pub record Ran : Type 0 where
  pub exit : ℕ
  pub out : Text

abbrev pub exit_if : Bool → Result Ran
exit_if b = ok (record { exit = if b then 0 else 1; out = [] })

abbrev pub printed : Text → Ran
printed text = record { exit = 0; out = text }

-- `argv[n]`
unfoldable pub arg : ℕ → List Text → Result Text
arg n [] = raise index_error
arg zero (a ∷ argv) = ok a
arg (suc n) (a ∷ argv) = arg n argv

-- `list(filter(None, text.split(",")))`
unfoldable pub csv : Text → List Text
csv text = filter nonempty (split_on b',' text)

-- `_num(argv[n])`
unfoldable pub num_arg : ℕ → List Text → Result ℤ
unfolding arg
num_arg n argv = arg n argv >>= λ text. num (some (str text))

module _ (read : Text → Read) (loads : Text → Loaded) (loads_map : Text → Result (Dict Text Text))
    (dumps : State → Text) (shown : Value → Text) where
  -- `_load(argv[2])`
  unfoldable pub state_arg : List Text → Result State
  unfolding arg load
  state_arg argv = arg 2 argv >>= λ path. load loads (read path)

  -- `json.loads(argv[2]) if argv[2] else {}`
  abbrev pub role_map : Text → Result (Dict Text Text)
  role_map text = if nonempty text then loads_map text else ok []

  unfoldable pub run_plan :
      (List Text → Config → List Text → List Text → List Text) → List Text → Result Ran
  unfolding arg csv
  run_plan plan argv = do
    map_text ← arg 2 argv
    target_map ← role_map map_text
    base ← arg 3 argv
    allow ← arg 4 argv
    never ← arg 5 argv
    ok (
        printed (
          unlines (
            plan (drop 6 argv) (record { role_target_map = target_map; base_roles = csv base })
              (csv allow) (csv never))))

  abbrev pub dumped : State → Ran
  dumped state = printed (dumps state ++ codes "\n")

  unfoldable pub run_needs_deploy : List Text → Result Ran
  unfolding state_arg
  run_needs_deploy argv = do
    state ← state_arg argv
    head ← arg 3 argv
    exit_if (needs_deploy state head)

  unfoldable pub run_ci_passed : List Text → Result Ran
  unfolding arg
  run_ci_passed argv = do conclusion ← arg 2 argv; exit_if (ci_passed conclusion)

  unfoldable pub run_rollback_targets : List Text → Result Ran
  unfolding arg
  run_rollback_targets argv = do
    failed ← arg 2 argv
    ok (printed (unlines (rollback_targets (drop 3 argv) failed)))

  unfoldable pub run_on_attempt : List Text → Result Ran
  unfolding state_arg
  run_on_attempt argv = do
    state ← state_arg argv
    sha ← arg 3 argv
    ok (dumped (on_attempt state sha))

  unfoldable pub run_on_success : List Text → Result Ran
  unfolding state_arg num_arg
  run_on_success argv = do
    state ← state_arg argv
    sha ← arg 3 argv
    now ← num_arg 4 argv
    ok (dumped (on_success state sha now))

  unfoldable pub run_on_fail : List Text → Result Ran
  unfolding state_arg num_arg
  run_on_fail argv = do
    state ← state_arg argv
    sha ← arg 3 argv
    now ← num_arg 4 argv
    failed ← on_fail state sha now
    ok (dumped failed)

  unfoldable pub run_metrics : List Text → Result Ran
  unfolding state_arg num_arg
  run_metrics argv = do
    state ← state_arg argv
    now ← num_arg 3 argv
    last_run_ok ← num_arg 4 argv
    text ← render_metrics shown state now (truth (int last_run_ok))
    ok (printed text)

  unfoldable pub main : List Text → Result Ran
  unfolding run_plan run_needs_deploy run_ci_passed run_rollback_targets run_on_attempt
      run_on_success run_on_fail run_metrics
  main [] = ok (record { exit = 2; out = [] })
  main (program ∷ []) = ok (record { exit = 2; out = [] })
  main (program ∷ cmd ∷ args) =
      let argv = program ∷ cmd ∷ args in
      if cmd == codes "needs-deploy"
      then run_needs_deploy argv
      else if cmd == codes "ci-passed"
      then run_ci_passed argv
      else if cmd == codes "plan"
      then run_plan plan_targets argv
      else if cmd == codes "plan-skipped"
      then run_plan plan_skipped argv
      else if cmd == codes "rollback-targets"
      then run_rollback_targets argv
      else if cmd == codes "on-attempt"
      then run_on_attempt argv
      else if cmd == codes "on-success"
      then run_on_success argv
      else if cmd == codes "on-fail"
      then run_on_fail argv
      else if cmd == codes "metrics"
      then run_metrics argv
      else ok (record { exit = 2; out = [] })
