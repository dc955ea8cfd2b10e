-- ===== src/Autodeploy/Shell/Calls.antt =====
-- What each call of the program that the run makes does, by the functions that it calls.
use pi_homelab.Base.{
  ℕ, zero, suc, ◌+◌, ◌≤◌, Bool, true, false, not, List, [], ◌∷◌, ◌++◌, ◌≡◌, refl, ap,
}
use pi_homelab.Base.{
  Option, none, some, eqb, all, all-filter, filter, take, length, arith, if◌then◌else◌, text_eq,
}
use pi_homelab.Base.Text.{Text, codes, nonempty, strip}
use pi_homelab.Base.Dict.{Dict}
use pi_homelab.Base.Int.{pos}
use pi_homelab.Base.Decimal.{decimal}
use pi_homelab.Base.Metrics.{num}
use pi_homelab.Base.Json.{Loaded, loaded_object, Value, str, int_of}
use pi_homelab.Base.Json.Digits.{int_of_text-decimal}
use pi_homelab.Base.Result.{Result, ok, raise, ◌>>=◌, Read, contents}
use pi_homelab.Autodeploy.State.{
  State, load, needs_deploy, ci_passed, on_attempt, on_success, on_fail,
}
use pi_homelab.Autodeploy.Plan.{plan_targets}
use pi_homelab.Autodeploy.Rollback.{index, rollback_targets}
use pi_homelab.Autodeploy.Controller.{Inputs, held_by_ci}
use pi_homelab.Autodeploy.Main.{dumped, arg, csv, num_arg, state_arg, role_map, run_plan, main}
use pi_homelab.Autodeploy.Main.{
  run_needs_deploy, run_ci_passed, run_rollback_targets, run_on_attempt,
}
use pi_homelab.Autodeploy.Main.{run_on_success, run_on_fail}
use pi_homelab.Autodeploy.Shell.{Setup, py, plan, restore, set_done, state_set, succeeded, output}
use pi_homelab.Autodeploy.Shell.{is_held}
use pi_homelab.Autodeploy.Shell.Lines.{is_line, lines_of-unlines}

num_arg-decimal : (n : ℕ) → length (decimal n) ≤ 4300 → num (some (str (decimal n))) ≡ ok (pos n)
unfolding num int_of
num_arg-decimal n h = ground (arith, int_of_text-decimal n h)

exit_if_zero : (b : Bool) → eqb (if b then 0 else 1) 0 ≡ b
exit_if_zero true = refl
exit_if_zero false = refl

all-take : (p : Text → Bool) (n : ℕ) (l : List Text) → all p l ≡ true → all p (take n l) ≡ true
all-take p zero l h = refl
all-take p (suc n) [] h = refl
all-take p (suc n) (x ∷ l) h = ground (arith, all-take p n l)

rollback_targets_lines :
    (targets : List Text) (t : Text)
    → all is_line targets ≡ true
    → all is_line (rollback_targets targets t) ≡ true
unfolding rollback_targets
rollback_targets_lines targets t h =
    let kept = filter nonempty targets in
    let fine = all-filter is_line nonempty targets h in
    let cut = all-take is_line (index kept (strip t) + 1) kept fine in ground (arith, fine, cut)

-- What the run over the state is given.
unfoldable pub inputs_of : Setup → Dict Text Text → Inputs
unfolding csv
inputs_of i map = record {
  config = record { role_target_map = map; base_roles = csv i.base_roles };
  allowlist = csv i.allowlist;
  never_auto = csv i.never_auto;
  origin = i.origin;
  ci = i.ci;
  changed = i.changed;
  deploys = i.deploys;
  now = pos i.now;
}

-- The plan of a run.
abbrev pub planned : Setup → Dict Text Text → List Text
planned i map = let j = inputs_of i map in plan_targets j.changed j.config j.allowlist j.never_auto

module _ (loads : Text → Loaded) (loads_map : Text → Result (Dict Text Text)) (dumps : State → Text)
    (shown : Value → Text) where
  -- `json.loads` reads back what is written for the state.
  abbrev pub ReadsBack : State → Type 0
  ReadsBack s = loaded_object (loads (dumps s ++ codes "\n")) ≡ ok s

  module _ (i : Setup) (map : Dict Text Text) (file : Read) (s : State)
      (held : load loads file ≡ ok s) where
    pub needs_deploy-run :
        succeeded (
          py loads loads_map dumps shown file (codes "needs-deploy" ∷ i.state_path ∷ i.origin ∷ []))
        ≡ needs_deploy s i.origin
    unfolding main run_needs_deploy state_arg arg text_eq
    needs_deploy-run = rw held (exit_if_zero (needs_deploy s i.origin))

    pub on_attempt-run :
        state_set loads loads_map dumps shown
          (codes "on-attempt" ∷ i.state_path ∷ i.origin ∷ [])
          file
        ≡ contents (dumps (on_attempt s i.origin) ++ codes "\n")
    unfolding main run_on_attempt state_arg arg text_eq
    on_attempt-run = rw held refl

    pub on_success-run :
        length (decimal i.now) ≤ 4300
        → set_done loads loads_map dumps shown i (codes "on-success") file
          ≡ contents (dumps (on_success s i.origin (pos i.now)) ++ codes "\n")
    unfolding main run_on_success num_arg state_arg arg text_eq
    on_success-run h = rw (held, num_arg-decimal i.now h) refl

    -- What `on-fail` leaves: the transition, or the file as it is.
    abbrev pub failed_file : Result State → Read
    failed_file (ok s') = contents (dumps s' ++ codes "\n")
    failed_file (raise e) = file

    failed_set :
        (r : Result State)
        → (let printed_state =
              r >>= λ failed. ok (dumped (λ path. file) loads loads_map dumps shown failed) in
            if succeeded printed_state then contents (output printed_state) else file)
          ≡ failed_file r
    failed_set (ok s') = refl
    failed_set (raise e) = refl

    pub on_fail-run :
        length (decimal i.now) ≤ 4300
        → set_done loads loads_map dumps shown i (codes "on-fail") file
          ≡ failed_file (on_fail s i.origin (pos i.now))
    unfolding main run_on_fail num_arg state_arg arg text_eq
    on_fail-run h = rw (held, num_arg-decimal i.now h) (failed_set (on_fail s i.origin (pos i.now)))

  module _ (i : Setup) (map : Dict Text Text) (file : Read) where
    pub is_held-run :
        (ci : Option Text) → is_held loads loads_map dumps shown i file ci ≡ held_by_ci ci
    unfolding main run_ci_passed arg text_eq held_by_ci
    is_held-run none = refl
    is_held-run (some c) = ap not (exit_if_zero (ci_passed c))

    pub plan-run :
        role_map (λ path. file) loads loads_map dumps shown i.role_map ≡ ok map
        → all is_line (planned i map) ≡ true
        → plan loads loads_map dumps shown i file ≡ planned i map
    unfolding main run_plan arg text_eq inputs_of
    plan-run h fine = rw h (lines_of-unlines _ fine)

    pub restore-run :
        (t : Text) (targets : List Text)
        → all is_line targets ≡ true
        → restore loads loads_map dumps shown i file t targets ≡ rollback_targets targets t
    unfolding main run_rollback_targets arg text_eq
    restore-run t targets fine = lines_of-unlines _ (rollback_targets_lines targets t fine)
