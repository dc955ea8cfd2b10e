-- ===== src/RunnerMetrics/Totality.antt =====
-- When `render` gives its text.
use pi_homelab.Base.{◌≡◌, refl, Bool, true, false, not, ◌&&◌, inl, inr, Option, none, some}
use pi_homelab.Base.{List, [], ◌∷◌, all, text_eq, arith}
use pi_homelab.Base.{Bool-cases}
use pi_homelab.Base.Text.{Text, codes, strip}
use pi_homelab.Base.Dict.{Dict}
use pi_homelab.Base.Int.{ℤ, pos}
use pi_homelab.Base.Json.{
  is_loaded, is_readable, Loaded, loaded, no_json, fails, loaded_object, Value, str,
}
use pi_homelab.Base.Json.{object_of}
use pi_homelab.Base.Metrics.{num, is_infinite}
use pi_homelab.Base.Result.{ok}
use pi_homelab.Base.Result.{Read, unreadable, undecodable, contents}
use pi_homelab.RunnerMetrics.Inputs.{read_heartbeat, read_status, heartbeat_of, is_zero}
use pi_homelab.RunnerMetrics.Series.{Series, status_series, rebuild_series, repo_series}
use pi_homelab.RunnerMetrics.Render.{dict_at}
use pi_homelab.RunnerMetrics.Render.{series_lines, samples_of, jit_lines, info_num, repo_lines}
use pi_homelab.RunnerMetrics.Render.{read_rebuild, body_lines, render}
use pi_homelab.RunnerMetrics.Numbers.{Succeeds, >>=_Succeeds, num-Succeeds, lookup-is_calm, is_calm}
use pi_homelab.RunnerMetrics.Numbers.{series_lines-Succeeds, samples_of-Succeeds, info_num-Succeeds}
use pi_homelab.RunnerMetrics.Numbers.{is_calm_info}

-- The same of a whole report, with its counts of failures and its repositories.
abbrev pub is_calm_report : Dict Text Value → Bool
is_calm_report d =
    is_calm d
    && is_calm (dict_at (codes "jit_config_failures") d)
    && all (λ (k, v). is_calm_info v) (dict_at (codes "repos") d)

jit_lines-Succeeds :
    (status : Dict Text Value)
    → is_calm (dict_at (codes "jit_config_failures") status) ≡ true
    → Succeeds (jit_lines status)
unfolding jit_lines
jit_lines-Succeeds status h =
    >>=_Succeeds
      (samples_of (codes "status") (λ v. num (some v))
        (dict_at (codes "jit_config_failures") status))
      _
      (samples_of-Succeeds (codes "status") (λ v. num (some v)) (λ v. not (is_infinite (some v))) _
        (λ v c. num-Succeeds (some v) (ground arith)) h)
      (λ samples. (_, refl))

repo_lines-Succeeds :
    (repos : Dict Text Value) (ss : List Series)
    → all (λ (k, v). is_calm_info v) repos ≡ true
    → Succeeds (repo_lines repos ss)
unfolding repo_lines
repo_lines-Succeeds repos [] h = ([], refl)
repo_lines-Succeeds repos (s ∷ ss) h =
    >>=_Succeeds (samples_of (codes "repo") (info_num s.key) repos) _
      (samples_of-Succeeds (codes "repo") (info_num s.key) is_calm_info repos
        (info_num-Succeeds s.key) h)
      (λ samples.
        >>=_Succeeds (repo_lines repos ss) _ (repo_lines-Succeeds repos ss h) (λ lines. (_, refl)))

-- What the reads can do: all but bytes that are no UTF-8 are read.
abbrev pub is_decodable : Read → Bool
is_decodable undecodable = false
is_decodable _ = true

pub read_heartbeat-Succeeds :
    (file : Read) → is_decodable file ≡ true → Succeeds (read_heartbeat file)
unfolding read_heartbeat
read_heartbeat-Succeeds unreadable h = (pos 0, refl)
read_heartbeat-Succeeds undecodable h = cc
read_heartbeat-Succeeds (contents text) h = num-Succeeds (some (str (strip text))) refl

-- The report that a file gives.
abbrev pub object_or_empty : Loaded → Dict Text Value
object_or_empty (loaded v) = object_of (some v)
object_or_empty _ = []

abbrev pub report_of : (Text → Loaded) → Read → Dict Text Value
report_of loads (contents text) = object_or_empty (loads text)
report_of loads _ = []

loaded_object-ok : (l : Loaded) → is_loaded l ≡ true → loaded_object l ≡ ok (object_or_empty l)
unfolding loaded_object
loaded_object-ok (loaded v) h = refl
loaded_object-ok no_json h = refl
loaded_object-ok (fails e) h = cc

pub read_status-ok :
    (loads : Text → Loaded) (file : Read)
    → is_readable loads file ≡ true
    → read_status loads file ≡ ok (report_of loads file)
unfolding read_status
read_status-ok loads unreadable h = refl
read_status-ok loads undecodable h = cc
read_status-ok loads (contents text) h = loaded_object-ok (loads text) h

abbrev pub rebuild_of : (Text → Loaded) → Option Read → Dict Text Value
rebuild_of loads none = []
rebuild_of loads (some file) = report_of loads file

abbrev pub readable_or_none : (Text → Loaded) → Option Read → Bool
readable_or_none loads none = true
readable_or_none loads (some file) = is_readable loads file

pub read_rebuild-ok :
    (loads : Text → Loaded) (shown : Value → Text) (file : Option Read)
    → readable_or_none loads file ≡ true
    → read_rebuild loads shown file ≡ ok (rebuild_of loads file)
read_rebuild-ok loads shown none h = refl
read_rebuild-ok loads shown (some file) h = read_status-ok loads file h

body_lines-Succeeds :
    (loads : Text → Loaded) (shown : Value → Text) (status : Dict Text Value) (file : Option Read)
    → readable_or_none loads file ≡ true
    → is_calm_report status ≡ true
    → is_calm (rebuild_of loads file) ≡ true
    → Succeeds (body_lines loads shown status file)
unfolding body_lines
body_lines-Succeeds loads shown status file d h k =
    >>=_Succeeds (series_lines status status_series) _
      (series_lines-Succeeds status status_series (ground arith))
      (λ counts. rw (read_rebuild-ok loads shown file d) (
        >>=_Succeeds (series_lines (rebuild_of loads file) rebuild_series) _
          (series_lines-Succeeds (rebuild_of loads file) rebuild_series k)
          (λ rebuilt.
            >>=_Succeeds (jit_lines status) _ (jit_lines-Succeeds status (ground arith)) (λ jit.
              >>=_Succeeds (repo_lines (dict_at (codes "repos") status) repo_series) _
                (repo_lines-Succeeds (dict_at (codes "repos") status) repo_series (ground arith))
                (λ repos. (_, refl))))))

heartbeat_of-Succeeds :
    (hb : ℤ) (status : Dict Text Value) → is_calm status ≡ true → Succeeds (heartbeat_of hb status)
unfolding heartbeat_of
heartbeat_of-Succeeds hb status h = elim (Bool-cases (is_zero hb)) [
  | inl z ↦ rw z (num-Succeeds _ (lookup-is_calm (codes "supervisor_heartbeat_ts") status h))
  | inr z ↦ rw z (hb, refl)
]

-- Missing files, text that is no JSON and values of any type give a text: the files are UTF-8 where
-- they can be read at all, json.load raises nothing but a JSONDecodeError on the reports, and no number
-- in the reports is infinite.
pub render-Succeeds :
    (loads : Text → Loaded) (shown : Value → Text) (status_file heartbeat_file : Read)
    (stale_seconds now : ℤ) (rebuild_file : Option Read)
    → is_readable loads status_file ≡ true
    → is_decodable heartbeat_file ≡ true
    → readable_or_none loads rebuild_file ≡ true
    → is_calm_report (report_of loads status_file) ≡ true
    → is_calm (rebuild_of loads rebuild_file) ≡ true
    → Succeeds (render loads shown status_file heartbeat_file stale_seconds now rebuild_file)
unfolding render
render-Succeeds loads shown status_file heartbeat_file stale_seconds now rebuild_file ds dh dr h k =
    let status = report_of loads status_file in
    >>=_Succeeds (read_heartbeat heartbeat_file) _ (read_heartbeat-Succeeds heartbeat_file dh)
      (λ hb. rw (read_status-ok loads status_file ds) (
        >>=_Succeeds (heartbeat_of hb status) _ (heartbeat_of-Succeeds hb status (ground arith))
          (λ heartbeat.
            >>=_Succeeds (body_lines loads shown status rebuild_file) _
              (body_lines-Succeeds loads shown status rebuild_file dr h k) (λ body. (_, refl)))))
