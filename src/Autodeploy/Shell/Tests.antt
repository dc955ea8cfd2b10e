-- ===== src/Autodeploy/Shell/Tests.antt =====
-- A run in which the second target fails, over the file.
use pi_homelab.Base.{◌≡◌, refl, true, not, none, some, [], ◌∷◌, ◌==◌, all, length, ◌≤◌}
use pi_homelab.Base.{if◌then◌else◌, text_eq, arith}
use pi_homelab.Base.Text.{Text, codes, strip, starts_with, split_on, ends_with, replace_char}
use pi_homelab.Base.Dict.{Dict, lookup, insert}
use pi_homelab.Base.Int.{pos, ◌+ℤ◌}
use pi_homelab.Base.Decimal.{decimal}
use pi_homelab.Base.Json.{
  Loaded, loaded, fails, loaded_object, Value, Fields, str, int, obj, field, end, entries,
  object_of, int_of,
}
use pi_homelab.Base.Result.{Result, ok, recursion_error, contents}
use pi_homelab.Autodeploy.State.{
  State, load, needs_deploy, on_attempt, on_success, on_fail, ci_passed,
}
use pi_homelab.Autodeploy.State.{last_good_sha, fail_count, failed_sha}
use pi_homelab.Autodeploy.Plan.{plan_targets}
use pi_homelab.Autodeploy.Controller.{cycle}
use pi_homelab.Autodeploy.Main.{csv}
use pi_homelab.Autodeploy.Shell.{Setup, run}
use pi_homelab.Autodeploy.Shell.Lines.{is_line}
use pi_homelab.Autodeploy.Shell.Calls.{inputs_of, planned, ReadsBack}
use pi_homelab.Autodeploy.Shell.Refines.{IsSame, run-IsSame}
use pi_homelab.Autodeploy.Shell.Stuck.{runs, runs_stuck}

abbrev setup : Setup
setup = record {
  state_path = codes "state.json";
  role_map = [];
  base_roles = codes "common,docker";
  allowlist = [];
  never_auto = codes "base";
  origin = codes "c0ffee";
  ci = some (codes "success");
  changed = codes "runtime/main.go" ∷ codes "ansible/roles/media/tasks/main.yml" ∷ [];
  deploys = λ t. not (t == codes "media");
  now = 1000;
}

abbrev before_run : State
before_run = (last_good_sha, str (codes "beef")) ∷ (fail_count, int (pos 2)) ∷ []

abbrev fields_of : State → Fields
fields_of [] = end
fields_of ((k, v) ∷ s) = field k v (fields_of s)

-- One text for each state of the run.
abbrev dumps : State → Text
dumps s = elim (lookup failed_sha s) [ none ↦ codes "attempted" | some v ↦ codes "failed" ]

abbrev loads : Text → Loaded
loads text =
    if text == codes "deep"
    then fails recursion_error
    else loaded (
        obj (
          fields_of (
            if text == codes "before"
            then before_run
            else if text == codes "attempted\n"
            then on_attempt before_run (codes "c0ffee")
            else (cycle (inputs_of setup []) before_run).state)))

abbrev loads_map : Text → Result (Dict Text Text)
loads_map text = ok []

abbrev shown : Value → Text
shown v = codes "?"

held : load loads (contents (codes "before")) ≡ ok before_run
unfolding load loaded_object object_of entries text_eq
held = refl

short : length (decimal 1000) ≤ 4300
unfolding decimal
short = ground arith

lines : all is_line (planned setup []) ≡ true
unfolding inputs_of csv plan_targets text_eq lookup starts_with split_on ends_with replace_char
lines = refl

attempt_back : ReadsBack loads loads_map dumps shown (on_attempt before_run (codes "c0ffee"))
unfolding on_attempt loaded_object object_of entries text_eq insert lookup strip
attempt_back = refl

last_back : ReadsBack loads loads_map dumps shown (cycle (inputs_of setup []) before_run).state
unfolding cycle inputs_of csv plan_targets text_eq lookup starts_with split_on ends_with
    replace_char needs_deploy on_attempt on_success on_fail ci_passed insert int_of ◌+ℤ◌
    loaded_object object_of entries strip
last_back = refl

run-IsSame_example :
    IsSame loads loads_map dumps shown
      (run loads loads_map dumps shown setup (contents (codes "before")))
      (cycle (inputs_of setup []) before_run)
run-IsSame_example =
    run-IsSame loads loads_map dumps shown setup [] short (contents (codes "before")) before_run
      held refl lines attempt_back last_back

runs_stuck_example :
    runs loads loads_map dumps shown (setup ∷ setup ∷ []) (contents (codes "deep"))
    ≡ record { file = contents (codes "deep"); attempted = []; restored = [] }
unfolding text_eq
runs_stuck_example =
    runs_stuck loads loads_map dumps shown (setup ∷ setup ∷ []) (contents (codes "deep")) refl
