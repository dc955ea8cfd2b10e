-- ===== src/RunnerMetrics/Inputs.antt =====
-- `_read_heartbeat`, `_read_status`, and whether the supervisor is silent. `json.loads` is given.
use pi_homelab.Base.{Bool, ◌||◌, not, some, [], if◌then◌else◌, text_eq}
use pi_homelab.Base.Text.{Text, codes, strip}
use pi_homelab.Base.Dict.{Dict, lookup}
use pi_homelab.Base.Int.{ℤ, pos, ltbℤ, ◌-ℤ◌}
use pi_homelab.Base.Json.{Value, Loaded, loaded_object, str}
use pi_homelab.Base.Metrics.{num}
use pi_homelab.Base.Result.{Result, ok, raise, unicode_error}
use pi_homelab.Base.Result.{Read, unreadable, undecodable, contents}

-- Bytes that are no UTF-8 raise a `UnicodeDecodeError`, which the handler does not name.
unfoldable pub read_heartbeat : Read → Result ℤ
read_heartbeat unreadable = ok (pos 0)
read_heartbeat undecodable = raise unicode_error
read_heartbeat (contents text) = num (some (str (strip text)))

unfoldable pub read_status : (Text → Loaded) → Read → Result (Dict Text Value)
unfolding loaded_object
read_status loads unreadable = ok []
read_status loads undecodable = raise unicode_error
read_status loads (contents text) = loaded_object (loads text)

abbrev pub is_zero : ℤ → Bool
is_zero n = not (ltbℤ n (pos 0) || ltbℤ (pos 0) n)

-- `hb or _num(status.get("supervisor_heartbeat_ts"))`
unfoldable pub heartbeat_of : ℤ → Dict Text Value → Result ℤ
heartbeat_of hb status =
    if is_zero hb then num (lookup (codes "supervisor_heartbeat_ts") status) else ok hb

unfoldable pub is_stale : ℤ → ℤ → ℤ → Bool
unfolding ◌-ℤ◌
is_stale heartbeat stale_seconds now = is_zero heartbeat || ltbℤ stale_seconds (now -ℤ heartbeat)
