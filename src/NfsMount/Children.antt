-- ===== src/NfsMount/Children.antt =====
-- `run` with its table `PENDING`, over processes that may outlive their SIGKILL.
pub mod Bounded
mod Tests
use pi_homelab.Base.{ℕ, suc, Bool, not, Option, none, some, List, [], ◌∷◌, filter, list_dec}
use pi_homelab.Base.{Eq, if◌then◌else◌}
use native.Mathlib.Decide.{ℕ_discrete}
use pi_homelab.Base.Text.{Text, codes}
use pi_homelab.Base.Dict.{Dict, lookup, insert}
use pi_homelab.Base.Int.{pos}
use pi_homelab.NfsMount.World.{Completed}

abbrev pub Argv : Type 0
Argv = List Text

instance unfoldable pub argv_eq : Eq (List (List ℕ))
unfolding list_dec ℕ_discrete
argv_eq = record { dec = list_dec (list_dec ℕ_discrete) }

-- `Popen`: a new process, or an `OSError` with its text.
pub data Opened : Type 0 where
  process : ℕ → Opened
  os_error : Text → Opened

-- The system's answers at the nth call of `run`: whether `poll` finds the process ended when the call
-- sweeps the table, `Popen`, `communicate` with the time limit, `none` where that runs out, and
-- whether the process has ended in the half second behind SIGKILL.
pub record Os : Type 0 where
  pub exited : ℕ → ℕ → Bool
  pub popen : ℕ → Argv → Opened
  pub communicate : ℕ → ℕ → Option Completed
  pub reaped : ℕ → ℕ → Bool

-- `PENDING`, with all that was started, newest first, and the number of calls.
pub record Table : Type 0 where
  pub pending : Dict Argv ℕ
  pub started : List (Argv × ℕ)
  pub calls : ℕ

abbrev pub empty : Table
empty = record { pending = []; started = []; calls = 0 }

abbrev pub still_blocked : Completed
still_blocked = record {
  returncode = pos 124;
  stdout = [];
  stderr = codes "previous operation still blocked";
}

abbrev pub timed_out : Completed
timed_out = record { returncode = pos 124; stdout = []; stderr = codes "operation timed out" }

abbrev pub count_call : Completed × Table → Completed × Table
count_call (result, t) = (result, record t { calls = suc t.calls })

module _ (os : Os) where
  -- Ended processes leave the table.
  unfoldable pub sweep : ℕ → Dict Argv ℕ → Dict Argv ℕ
  sweep n pending = filter (λ (k, p). not (os.exited n p)) pending

  -- From `communicate` on.
  unfoldable pub await_child : Argv → ℕ → Table → Option Completed → Completed × Table
  await_child command p t (some result) = (result, t)
  await_child command p t none = (
    timed_out,
    if os.reaped t.calls p then t else record t { pending = insert command p t.pending },
  )

  -- From `Popen` on, where no child of the command is in the table.
  unfoldable pub start : Argv → Table → Opened → Completed × Table
  unfolding await_child
  start command t (os_error message) =
      (record { returncode = pos 127; stdout = []; stderr = message }, t)
  start command t (process p) =
      await_child command p (record t { started = (command, p) ∷ t.started })
        (os.communicate t.calls p)

  abbrev pub unless_pending : Argv → Table → Option ℕ → Completed × Table
  unless_pending command t (some p) = (still_blocked, t)
  unless_pending command t none = start command t (os.popen t.calls command)

  unfoldable pub run : Argv → Table → Completed × Table
  unfolding sweep start
  run command t =
      let swept = record t { pending = sweep t.calls t.pending } in
      count_call (unless_pending command swept (lookup command swept.pending))

  -- One call after another.
  unfoldable pub run_all : List Argv → Table → Table
  unfolding run
  run_all [] t = t
  run_all (command ∷ commands) t = run_all commands (run command t).1
