-- ===== src/RunnerMetrics/Render.antt =====
-- `render`. How Python shows a value that is no text is given, beside `json.loads`.
use pi_homelab.Base.{Bool, Option, none, some, List, [], ◌∷◌, ◌++◌, text_eq}
use pi_homelab.Base.Text.{Text, codes}
use pi_homelab.Base.Dict.{Dict, lookup}
use pi_homelab.Base.Int.{ℤ, pos}
use pi_homelab.Base.Decimal.{show}
use pi_homelab.Base.Unlines.{unlines}
use pi_homelab.Base.Json.{Loaded, Value, str, obj, entries}
use pi_homelab.Base.Metrics.{num, unquoted, gauge, counter, Sample, family, single, label, one_if}
use pi_homelab.Base.Result.{Result, ok, ◌>>=◌, Read}
use pi_homelab.RunnerMetrics.Series.{Series, status_series, rebuild_series, repo_series}
use pi_homelab.RunnerMetrics.Inputs.{read_heartbeat, read_status, heartbeat_of, is_stale}

-- `d.get(key) or {}`, and `{}` for what is no dict: both lead to the line for none.
abbrev pub dict_at : Text → Dict Text Value → Dict Text Value
dict_at key d = elim (lookup key d) [ some (obj fs) ↦ entries fs | _ ↦ [] ]

unfoldable pub series_lines : Dict Text Value → List Series → Result (List Text)
series_lines d [] = ok []
series_lines d (s ∷ ss) = num (lookup s.key d) >>= λ n.
    series_lines d ss >>= λ lines. ok (single s.kind s.name s.help [] n ++ lines)

-- One sample for each key, from the number that is read of its value.
unfoldable pub samples_of : Text → (Value → Result ℤ) → Dict Text Value → Result (List Sample)
samples_of key read [] = ok []
samples_of key read ((k, v) ∷ d) = read v >>= λ n.
    samples_of key read d >>= λ samples. ok ((label key (unquoted k), show n) ∷ samples)

abbrev pub or_none : Text → List Sample → List Sample
or_none key [] = (label key (codes "none"), codes "0") ∷ []
or_none key samples = samples

unfoldable pub jit_lines : Dict Text Value → Result (List Text)
unfolding samples_of entries
jit_lines status = do
  samples ←
      samples_of (codes "status") (λ v. num (some v)) (dict_at (codes "jit_config_failures") status)
  ok (
      family counter (codes "gh_runner_jit_config_failures_total")
        (codes "JIT config mint failures by HTTP status.") (or_none (codes "status") samples))

-- `_num(info.get(key)) if isinstance(info, dict) else 0`
abbrev pub info_num : Text → Value → Result ℤ
info_num key (obj fs) = num (lookup key (entries fs))
info_num key _ = ok (pos 0)

unfoldable pub repo_lines : Dict Text Value → List Series → Result (List Text)
unfolding samples_of entries
repo_lines repos [] = ok []
repo_lines repos (s ∷ ss) = samples_of (codes "repo") (info_num s.key) repos >>= λ samples.
    repo_lines repos ss >>= λ lines.
    ok (family s.kind s.name s.help (or_none (codes "repo") samples) ++ lines)

-- The metrics of the run and of the heartbeat.
unfoldable pub head_lines : ℤ → ℤ → Bool → List Text
head_lines now heartbeat stale =
    single gauge (codes "gh_runner_metrics_last_run_unix_seconds")
      (codes "Unix time of the last Pi emitter run.") [] now
    ++ (single gauge (codes "gh_runner_supervisor_heartbeat_timestamp_seconds")
          (codes "Unix ts of the last Mac supervisor heartbeat (0 if missing).") [] heartbeat
        ++ single gauge (codes "gh_runner_heartbeat_stale")
            (codes "1 when the supervisor heartbeat is missing or older than the threshold.") []
            (one_if stale))

module _ (loads : Text → Loaded) (shown : Value → Text) where
  -- `str(status.get("runner_version", "unknown")).replace('"', "")`
  abbrev pub version_of : Dict Text Value → Text
  version_of status = unquoted (elim (lookup (codes "runner_version") status) [
    | none ↦ codes "unknown"
    | some (str s) ↦ s
    | some v ↦ shown v
  ])

  unfoldable pub version_lines : Dict Text Value → List Text
  version_lines status =
      single gauge (codes "gh_runner_version_info")
        (codes "Constant 1; labels the pinned runner version.")
        (label (codes "version") (version_of status)) (pos 1)

  -- The rebuild report, where its path is given.
  abbrev pub read_rebuild : Option Read → Result (Dict Text Value)
  read_rebuild none = ok []
  read_rebuild (some file) = read_status loads file

  unfoldable pub body_lines : Dict Text Value → Option Read → Result (List Text)
  unfolding series_lines jit_lines repo_lines version_lines
  body_lines status rebuild_file = do
    counts ← series_lines status status_series
    rebuild ← read_rebuild rebuild_file
    rebuilt ← series_lines rebuild rebuild_series
    jit ← jit_lines status
    repos ← repo_lines (dict_at (codes "repos") status) repo_series
    ok (counts ++ (version_lines status ++ (rebuilt ++ (jit ++ repos))))

  unfoldable pub render : Read → Read → ℤ → ℤ → Option Read → Result Text
  unfolding head_lines body_lines heartbeat_of is_stale
  render status_file heartbeat_file stale_seconds now rebuild_file = do
    hb ← read_heartbeat heartbeat_file
    status ← read_status loads status_file
    heartbeat ← heartbeat_of hb status
    body ← body_lines status rebuild_file
    ok (unlines (head_lines now heartbeat (is_stale heartbeat stale_seconds now) ++ body))
