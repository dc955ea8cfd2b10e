-- ===== src/Autodeploy/Shell/Stuck.antt =====
-- Runs one after another over a state file that Python cannot load.
use pi_homelab.Base.{false, List, [], ◌∷◌, ◌++◌, ◌≡◌, refl, text_eq}
use pi_homelab.Base.Text.{Text}
use pi_homelab.Base.Dict.{Dict}
use pi_homelab.Base.Json.{
  Value, Loaded, loaded, no_json, fails, loaded_object, is_loaded, is_readable,
}
use pi_homelab.Base.Result.{Result, raise, Exception, unicode_error, Read, unreadable}
use pi_homelab.Base.Result.{undecodable, contents}
use pi_homelab.Autodeploy.State.{State, load}
use pi_homelab.Autodeploy.Main.{arg, state_arg, run_needs_deploy, main}
use pi_homelab.Autodeploy.Shell.{Setup, Ended, run}

loaded_object-raises :
    (l : Loaded) → is_loaded l ≡ false → (e : Exception) × (loaded_object l ≡ raise e)
unfolding loaded_object
loaded_object-raises (loaded v) h = cc
loaded_object-raises no_json h = cc
loaded_object-raises (fails e) h = (e, refl)

load-raises :
    (loads : Text → Loaded) (file : Read)
    → is_readable loads file ≡ false
    → (e : Exception) × (load loads file ≡ raise e)
unfolding load
load-raises loads unreadable h = cc
load-raises loads undecodable h = (unicode_error, refl)
load-raises loads (contents text) h = loaded_object-raises (loads text) h

module _ (loads : Text → Loaded) (loads_map : Text → Result (Dict Text Text)) (dumps : State → Text)
    (shown : Value → Text) where
  -- Each run finds the file that the one before it left.
  unfoldable pub runs : List Setup → Read → Ended
  runs [] file = record { file = file; attempted = []; restored = [] }
  runs (i ∷ is) file =
      let r = run loads loads_map dumps shown i file in
      let rest = runs is r.file in
      record {
        file = rest.file;
        attempted = r.attempted ++ rest.attempted;
        restored = r.restored ++ rest.restored;
      }

  run_stuck :
      (i : Setup) (file : Read) (e : Exception)
      → load loads file ≡ raise e
      → run loads loads_map dumps shown i file
        ≡ record { file = file; attempted = []; restored = [] }
  unfolding run main run_needs_deploy state_arg arg text_eq
  run_stuck i file e h = rw h refl

  -- If the bytes of the state file are no UTF-8, or `json.load` raises another exception on them than a
  -- `JSONDecodeError`, as for JSON nested too deep or an integer of too many digits, then no sequence of
  -- runs starts or restores a target or changes the file, whatever commits are due.
  pub runs_stuck :
      (is : List Setup) (file : Read)
      → is_readable loads file ≡ false
      → runs is file ≡ record { file = file; attempted = []; restored = [] }
  unfolding runs
  runs_stuck [] file h = refl
  runs_stuck (i ∷ is) file h =
      let (e, failed) = load-raises loads file h in
      rw (run_stuck i file e failed, runs_stuck is file h) refl
