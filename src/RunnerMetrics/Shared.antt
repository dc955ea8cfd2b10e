-- ===== src/RunnerMetrics/Shared.antt =====
-- The files that the supervisor on the Mac wrote, as the Pi reads them.
use pi_homelab.Base.{◌≡◌, ◌≤◌, ◌<◌, ◌++◌, Option, none, some, length, text_eq, arith}
use pi_homelab.Base.Text.{Text}
use pi_homelab.Base.Dict.{lookup}
use pi_homelab.Base.Int.{ℤ, pos, ltbℤ, ◌-ℤ◌}
use pi_homelab.Base.Decimal.{decimal}
use pi_homelab.Base.Unlines.{unlines}
use pi_homelab.Base.Json.{Loaded, loaded, Value}
use pi_homelab.Base.Result.{Result, Read, unreadable, contents, ok}
use pi_homelab.Base.Disk.{Files, Disk, Faults, Done, done, os_error, start}
use pi_homelab.Runner.World.{Status}
use pi_homelab.Runner.Report.{status_value}
use pi_homelab.Runner.Files.{write_files, status_path, heartbeat_path}
use pi_homelab.Runner.Files.Ordered.{Ends, write_files-Ends}
use pi_homelab.RunnerMetrics.Render.{head_lines, render}
use pi_homelab.RunnerMetrics.Published.{render-status}
use pi_homelab.RunnerMetrics.Expected.{status_lines}

-- What opening a file gives.
abbrev pub read_of : Option Text → Read
read_of none = unreadable
read_of (some text) = contents text

module _ (loads : Text → Loaded) (shown : Value → Text) (dumps : Value → Text) (dir : Text)
    (st : Status) where
  -- What the Pi prints from the files.
  abbrev pub rendered : Files → ℤ → ℤ → Result Text
  rendered fs stale_seconds now =
      render loads shown (read_of (lookup (status_path dir) fs))
        (read_of (lookup (heartbeat_path dir) fs)) stale_seconds now none

  of_Ends :
      (fs : Files) (stale_seconds now : ℤ) (r : Done) (d : Disk)
      → loads (dumps (status_value st)) ≡ loaded (status_value st)
      → 0 < st.supervisor_heartbeat_ts
      → length (decimal st.supervisor_heartbeat_ts) ≤ 4300
      → r ≡ done
      → Ends dumps dir st fs r d
      → rendered d.files stale_seconds now
        ≡ ok (
            unlines (
              head_lines now
                (pos st.supervisor_heartbeat_ts)
                (ltbℤ stale_seconds (now -ℤ pos st.supervisor_heartbeat_ts))
              ++ status_lines st))
  of_Ends fs stale_seconds now done d back p l _ (s, h) =
      rw (s, h) (render-status loads shown (dumps (status_value st)) st stale_seconds now back p l)
  of_Ends fs stale_seconds now os_error d back p l e _ = ground arith

  -- If write_status returns, json.loads reads back the status, and its time is a positive number that
  -- Python still reads, then the metrics that the Pi prints from the two files show that time, whether it
  -- is more than the threshold ago, and each of the status's numbers, failures and repositories under
  -- its own metric, whatever the files held before.
  pub render-write_files :
      (faults : Faults) (fs : Files) (stale_seconds now : ℤ)
      → loads (dumps (status_value st)) ≡ loaded (status_value st)
      → 0 < st.supervisor_heartbeat_ts
      → length (decimal st.supervisor_heartbeat_ts) ≤ 4300
      → (write_files faults dumps dir st (start fs)).0 ≡ done
      → rendered (write_files faults dumps dir st (start fs)).1.files stale_seconds now
        ≡ ok (
            unlines (
              head_lines now
                (pos st.supervisor_heartbeat_ts)
                (ltbℤ stale_seconds (now -ℤ pos st.supervisor_heartbeat_ts))
              ++ status_lines st))
  render-write_files faults fs stale_seconds now back p l r =
      of_Ends fs stale_seconds now (write_files faults dumps dir st (start fs)).0
        (write_files faults dumps dir st (start fs)).1 back p l r
        (write_files-Ends faults dumps dir st fs).1
