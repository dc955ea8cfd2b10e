-- ===== src/Beszel/Publish.antt =====
-- The end of `main`: the metrics are written beside the output and moved there, and any call may fail.
pub mod Safe
use pi_homelab.Base.{List, [], ◌∷◌, ◌++◌, Option, none, some, text_eq}
use pi_homelab.Base.Text.{Text, codes}
use pi_homelab.Base.Dict.{Dict, insert}
use pi_homelab.Base.Int.{ℤ}
use pi_homelab.Base.Decimal.{show}
use pi_homelab.Base.Disk.{Disk, Faults, Done, done, os_error, Act, ◌>>◌, try_finally}
use pi_homelab.Base.Disk.{call, write_all, replace, unlink}
use pi_homelab.Beszel.{Db, Moment, Run, main}

-- What is written for each metric.
unfoldable pub metric_texts : Dict Text ℤ → List Text
metric_texts [] = []
metric_texts ((name, value) ∷ metrics) =
    (codes "# TYPE "
      ++ (name ++ (codes " gauge\n" ++ (name ++ (b' ' ∷ (show value ++ (b'\n' ∷ [])))))))
    ∷ metric_texts metrics

-- The exit status, none where an exception escapes.
abbrev pub exit_of : Done → ℤ → Option ℤ
exit_of done exit = some exit
exit_of os_error exit = none

module _ (faults : Faults) where
  -- The `with` closes the file also where a write or `os.fchmod` fails.
  abbrev pub write_temporary : Text → Dict Text ℤ → Act
  write_temporary temporary metrics =
      try_finally (write_all faults temporary (metric_texts metrics) >> call faults (λ fs. fs))
        (call faults (λ fs. fs))

  -- From `mkstemp` on; the file is unlinked in the end, missing or not.
  unfoldable pub write_output : (path temporary : Text) → Dict Text ℤ → Act
  unfolding metric_texts
  write_output path temporary metrics =
      call faults (insert temporary [])
      >> try_finally (write_temporary temporary metrics >> replace faults temporary path)
          (unlink faults temporary)

  -- An exception that `main` does not catch escapes before anything is written.
  abbrev pub published : (path temporary : Text) → Disk → Option Run → Option ℤ × Disk
  published path temporary d none = (none, d)
  published path temporary d (some run) =
      let (r, d') = write_output path temporary run.metrics d in (exit_of r run.exit, d')

  unfoldable pub main_run :
      (Text → Option Moment) → Db → Text → ℤ → (path temporary : Text) → Disk → Option ℤ × Disk
  unfolding main write_output
  main_run from_iso db system_name now path temporary d =
      published path temporary d (main from_iso db system_name now)
