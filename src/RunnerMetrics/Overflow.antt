-- ===== src/RunnerMetrics/Overflow.antt =====
-- When `render` raises: one infinite number in the report of the supervisor is enough.
use pi_homelab.Base.{◌≡◌, refl, Bool, true, ◌⊎◌, inl, inr, Option, List}
use pi_homelab.Base.{[], ◌∷◌, any, Bool-cases, text_eq, arith}
use pi_homelab.Base.Text.{Text, codes}
use pi_homelab.Base.Dict.{Dict, lookup}
use pi_homelab.Base.Int.{ℤ}
use pi_homelab.Base.Json.{is_readable, Loaded, Value}
use pi_homelab.Base.Metrics.{num, is_infinite}
use pi_homelab.Base.Result.{raise, overflow_error, Read}
use pi_homelab.RunnerMetrics.Inputs.{read_heartbeat, heartbeat_of, is_zero}
use pi_homelab.RunnerMetrics.Series.{Series, status_series}
use pi_homelab.RunnerMetrics.Render.{series_lines, body_lines, render}
use pi_homelab.RunnerMetrics.Numbers.{Succeeds, >>=_overflow, num-Succeeds, num-infinite, num-cases}
use pi_homelab.RunnerMetrics.Totality.{
  is_decodable, read_heartbeat-Succeeds, report_of, read_status-ok,
}

-- One of the metrics reads an infinite number.
abbrev pub any_infinite : Dict Text Value → List Series → Bool
any_infinite d ss = any (λ s. is_infinite (lookup s.key d)) ss

series_lines_overflow :
    (d : Dict Text Value) (ss : List Series)
    → any_infinite d ss ≡ true
    → series_lines d ss ≡ raise overflow_error
unfolding series_lines
series_lines_overflow d [] h = cc
series_lines_overflow d (s ∷ ss) h = elim (Bool-cases (is_infinite (lookup s.key d))) [
  | inl i ↦ rw (num-infinite (lookup s.key d) i) refl
  | inr i ↦
      >>=_overflow (num (lookup s.key d)) _ (inl (num-Succeeds (lookup s.key d) i))
        (λ n. rw (series_lines_overflow d ss (ground arith)) refl)
]

heartbeat_of-cases :
    (hb : ℤ) (status : Dict Text Value)
    → Succeeds (heartbeat_of hb status) ⊎ (heartbeat_of hb status ≡ raise overflow_error)
unfolding heartbeat_of
heartbeat_of-cases hb status = elim (Bool-cases (is_zero hb)) [
  | inl z ↦ rw z (num-cases (lookup (codes "supervisor_heartbeat_ts") status))
  | inr z ↦ rw z (inl (hb, refl))
]

-- A report in which the number of one of the metrics of the supervisor is infinite makes `render`
-- raise an `OverflowError`, whatever else it and the heartbeat hold, if both files are UTF-8 where
-- they can be read at all and json.load raises nothing but a JSONDecodeError on the report.
pub render_overflow :
    (loads : Text → Loaded) (shown : Value → Text) (status_file heartbeat_file : Read)
    (stale_seconds now : ℤ) (rebuild_file : Option Read)
    → is_readable loads status_file ≡ true
    → is_decodable heartbeat_file ≡ true
    → any_infinite (report_of loads status_file) status_series ≡ true
    → render loads shown status_file heartbeat_file stale_seconds now rebuild_file
      ≡ raise overflow_error
unfolding render body_lines
render_overflow loads shown status_file heartbeat_file stale_seconds now rebuild_file ds dh h =
    let status = report_of loads status_file in
    >>=_overflow (read_heartbeat heartbeat_file) _ (inl (read_heartbeat-Succeeds heartbeat_file dh))
      (λ hb. rw (read_status-ok loads status_file ds) (
        >>=_overflow (heartbeat_of hb status) _ (heartbeat_of-cases hb status)
          (λ heartbeat. rw (series_lines_overflow status status_series h) refl)))
