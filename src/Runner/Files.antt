-- ===== src/Runner/Files.antt =====
-- `write_status` as it writes its files: the status beside its place, moved there, and then the
-- heartbeat in its place. Any call may fail. What `json.dumps` makes of the status is given.
pub mod Writing
pub mod Ordered
mod Tests
use pi_homelab.Base.{List, [], ◌∷◌, ◌++◌, text_eq}
use pi_homelab.Base.Text.{Text, codes}
use pi_homelab.Base.Dict.{insert}
use pi_homelab.Base.Json.{Value}
use pi_homelab.Base.Disk.{Faults, Act, ◌>>◌, try_finally, call, write_all, replace}
use pi_homelab.Runner.World.{Status}
use pi_homelab.Runner.Report.{status_value, heartbeat_text}

-- Below `generated_dir`.
abbrev pub status_path : Text → Text
status_path dir = dir ++ codes "/gh-runner/status.json"

abbrev pub temporary_path : Text → Text
temporary_path dir = dir ++ codes "/gh-runner/status.json.tmp"

abbrev pub heartbeat_path : Text → Text
heartbeat_path dir = dir ++ codes "/gh-runner/heartbeat"

module _ (faults : Faults) where
  -- `Path.write_text`: the file is emptied, written, and closed in any case.
  unfoldable pub write_text : Text → Text → Act
  write_text path text =
      call faults (insert path [])
      >> try_finally (write_all faults path (text ∷ [])) (call faults (λ fs. fs))

  unfoldable pub write_files : (dumps : Value → Text) (dir : Text) → Status → Act
  unfolding write_text
  write_files dumps dir st =
      call faults (λ fs. fs)
      >> write_text (temporary_path dir) (dumps (status_value st))
      >> replace faults (temporary_path dir) (status_path dir)
      >> write_text (heartbeat_path dir) (heartbeat_text st)
