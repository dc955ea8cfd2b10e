-- ===== src/Runner/Docker.antt =====
-- The docker helpers: the listings of the job containers and the start of a runner.
use pi_homelab.Base.{zero, Bool, true, false, not, none, some, List, [], ◌∷◌}
use pi_homelab.Base.{if◌then◌else◌}
use pi_homelab.Base.Text.{Text, codes, strip, is_infix, before, after, splitlines, nonempty}
use pi_homelab.Base.Int.{ℤ, pos, negsuc}
use pi_homelab.Base.Json.{int_of_text}
use pi_homelab.Runner.World.{Call, Completed, World, M, ◌>>=◌, pure, throw, log, return}
use pi_homelab.Runner.World.{value_error}

pub record Container : Type 0 where
  pub id : Text
  pub repo : Text

pub record Exited : Type 0 where
  pub container : Container
  pub exit_code : ℤ

abbrev pub failed : Completed → Bool
failed r = elim r.returncode [ pos n ↦ (elim n [ zero ↦ false | _ ↦ true ]) | negsuc _ ↦ true ]

abbrev pub bar : Text
bar = codes "|"

-- The lines with a bar, split at the first one.
unfoldable pub rows : List Text → List Container
unfolding is_infix before after
rows [] = []
rows (line ∷ lines) =
    let rest = rows lines in
    if is_infix bar line
    then record { id = before bar line; repo = after bar line } ∷ rest
    else rest

module _ (w : World) where
  abbrev pub docker : Call → M Completed
  docker c s = (return (w.docker s.trace c), log c s)

  unfoldable pub running_job_containers : M (List Container)
  unfolding rows
  running_job_containers = do out ← docker Call.ps_running; pure (rows (splitlines out.stdout))

  -- `int(insp.stdout.strip() or "0") if insp.returncode == 0 else 0`
  unfoldable pub exit_code : Completed → M ℤ
  exit_code insp =
      if failed insp
      then pure (pos 0)
      else if not (nonempty (strip insp.stdout))
      then pure (pos 0)
      else elim (int_of_text (strip insp.stdout)) [ none ↦ throw value_error | some n ↦ pure n ]

  unfoldable pub inspect_all : List Container → M (List Exited)
  unfolding exit_code
  inspect_all [] = pure []
  inspect_all (c ∷ cs) =
      let rest = inspect_all cs in
      docker (Call.inspect c.id) >>= λ insp. exit_code insp >>= λ code.
      rest >>= λ more. pure (record { container = c; exit_code = code } ∷ more)

  unfoldable pub exited_job_containers : M (List Exited)
  unfolding inspect_all rows
  exited_job_containers = do out ← docker Call.ps_exited; inspect_all (rows (splitlines out.stdout))

  unfoldable pub spawn_runner : Text → Text → M Bool
  spawn_runner repo jit = do res ← docker (Call.run repo jit); pure (not (failed res))
