-- ===== src/NfsClient/Render.antt =====
-- `render`: the metrics of a report, and their text. How a number is shown is given.
use pi_homelab.Base.{ℕ, ◌+◌, ◌*◌, ◌^◌, Bool, false, ◌&&◌, ◌==◌, none, some, Option, List, []}
use pi_homelab.Base.{◌∷◌, ◌++◌, map, leb, if◌then◌else◌, text_eq}
use pi_homelab.Base.Text.{Text, codes}
use pi_homelab.Base.Dict.{Dict, lookup}
use pi_homelab.Base.Int.{pos}
use pi_homelab.Base.Json.{Value, int, str}
use pi_homelab.NfsClient.Validity.{
  Amount, whole, fraction, amount, exports, fields_of, valid_status,
}

pub record Metric : Type 0 where
  pub name : Text
  pub help : Text
  -- the labels and the number
  pub samples : List (Text × Value)

abbrev pub number : ℕ → Value
number n = int (pos n)

-- `int(b)`
abbrev pub flag : Bool → Value
flag b = if b then number 1 else number 0

-- `value[key]`, where a valid report has it.
abbrev pub at : Text → Dict Text Value → Value
at key d = elim (lookup key d) [ none ↦ number 0 | some v ↦ v ]

abbrev pub fields_at : Text → Dict Text Value → Dict Text Value
fields_at key d = elim (fields_of (lookup key d)) [ none ↦ [] | some e ↦ e ]

-- `now - checked <= 600`, exactly.
abbrev pub is_recent : ℕ → Option Amount → Bool
is_recent now none = false
is_recent now (some (whole n)) = leb now (n + 600)
is_recent now (some (fraction n)) = leb (now * 2 ^ 1074) (n + 600 * 2 ^ 1074)

-- `item["state"] == "healthy"`
abbrev pub says_healthy : Option Value → Bool
says_healthy (some (str s)) = s == codes "healthy"
says_healthy _ = false

unfoldable pub read_ok : ℕ → Dict Text Value → Text → Value
read_ok now d name =
    let item = fields_at name (fields_at (codes "exports") d) in
    flag (
      says_healthy (lookup (codes "state") item)
      && is_recent now (amount (lookup (codes "checked_at") d)))

abbrev pub item_at : Text → Dict Text Value → Text → Value
item_at key d name = at key (fields_at name (fields_at (codes "exports") d))

abbrev pub label : Text → Text
label name = codes "{export=\"" ++ name ++ codes "\"}"

abbrev pub per_export : (Text → Value) → List (Text × Value)
per_export get = map (λ name. (label name, get name)) exports

unfoldable pub metrics_of : Bool → Dict Text Value → ℕ → List Metric
unfolding read_ok
metrics_of valid d now =
    let or_0 = λ (get : Text → Value) (name : Text). if valid then get name else number 0 in
    record {
      name = codes "mac_nfs_collector_timestamp_seconds";
      help = codes "Last Pi collector run.";
      samples = ([], number now) ∷ [];
    }
    ∷ record {
      name = codes "mac_nfs_status_valid";
      help = codes "Mac report contains all required fields.";
      samples = ([], flag valid) ∷ [];
    }
    ∷ record {
      name = codes "mac_nfs_check_timestamp_seconds";
      help = codes "Last native Mac NFS read check.";
      samples = ([], if valid then at (codes "checked_at") d else number 0) ∷ [];
    }
    ∷ record {
      name = codes "mac_nfs_read_ok";
      help = codes "Current bounded reads succeeded and report is at most 10 minutes old.";
      samples = per_export (or_0 (read_ok now d));
    }
    ∷ record {
      name = codes "mac_nfs_last_read_success_timestamp_seconds";
      help = codes "Last successful bounded read.";
      samples = per_export (or_0 (item_at (codes "last_read_ok") d));
    }
    ∷ record {
      name = codes "mac_nfs_recovery_attempts";
      help = codes "Recovery attempts since daemon start.";
      samples = per_export (or_0 (item_at (codes "recoveries") d));
    }
    ∷ record {
      name = codes "mac_nfs_last_recovery_ok";
      help = codes "Last recovery passed a bounded read check.";
      samples = per_export (or_0 (item_at (codes "recovery_ok") d));
    }
    ∷ []

abbrev pub dict_of : Value → Dict Text Value
dict_of value = elim (fields_of (some value)) [ none ↦ [] | some d ↦ d ]

unfoldable pub metrics : Value → ℕ → List Metric
unfolding metrics_of
metrics value now = metrics_of (valid_status value now) (dict_of value) now

module _ (show : Value → Text) where
  abbrev pub sample_line : Text → Text × Value → Text
  sample_line name (labels, n) = name ++ labels ++ codes " " ++ show n ++ codes "\n"

  abbrev pub sample_lines : Text → List (Text × Value) → Text
  sample_lines name [] = []
  sample_lines name (s ∷ ss) = sample_line name s ++ sample_lines name ss

  abbrev pub metric_text : Metric → Text
  metric_text m =
      codes "# HELP "
      ++ m.name
      ++ codes " "
      ++ m.help
      ++ codes "\n# TYPE "
      ++ m.name
      ++ codes " gauge\n"
      ++ sample_lines m.name m.samples

  unfoldable pub text_of : List Metric → Text
  text_of [] = []
  text_of (m ∷ ms) = metric_text m ++ text_of ms

  unfoldable pub render : Value → ℕ → Text
  unfolding metrics text_of
  render value now = text_of (metrics value now)
