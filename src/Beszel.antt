-- ===== src/Beszel.antt =====
-- The freshness of the samples of the Beszel hub, ansible/roles/beszel/files/beszel_freshness.py.
-- What SQLite answers and how Python reads a date are given.
pub mod Dates
pub mod Freshness
pub mod Publish
mod Tests
use pi_homelab.Base.{Option, none, some, List, [], ◌∷◌, ◌++◌, eqb, if◌then◌else◌}
use pi_homelab.Base.Json.{Float, finite}
use pi_homelab.Base.{ℕ, zero, Bool, true, false, ◌/◌, ◌^◌, suc, text_eq}
use pi_homelab.Base.Text.{Text, codes}
use pi_homelab.Base.Dict.{Dict, insert}
use pi_homelab.Base.Int.{ℤ, pos, negsuc, sub_ℕ, ltbℤ, ◌+ℤ◌}
use pi_homelab.Base.Decimal.{show}
use pi_homelab.Base.Metrics.{one_if}

-- What `main` catches.
pub data Failure : Type 0 where
  os_error sqlite_error value_error : Failure

pub data Outcome (A : Type 0) : Type 0 where
  returned : A → Outcome A
  raised : Failure → Outcome A

infixl 5 ◌>>=◌
abbrev pub ◌>>=◌ : {A B : Type 0} → Outcome A → (A → Outcome B) → Outcome B
returned a >>= f = f a
raised e >>= f = raised e

-- A value of SQLite, whose columns hold values of any type: `None`, an int, a float, a str or bytes.
pub data Cell : Type 0 where
  null : Cell
  integer : ℤ → Cell
  real : Float → Cell
  text : Text → Cell
  blob : List ℕ → Cell

-- The ids of the systems of a name, with opening the database, and `MAX(created)` of a system's
-- samples of a minute, null where there are none.
pub record Db : Type 0 where
  pub systems : Text → Outcome (List Cell)
  pub newest : Cell → Outcome Cell

-- A date, by its microseconds since 1970; one without a zone counts as UTC either way.
pub record Moment : Type 0 where
  pub micros : ℤ

-- `int(timestamp.timestamp())`
unfoldable pub seconds : Moment → ℤ
seconds m = elim m.micros [ pos n ↦ pos (n / 10 ^ 6) | negsuc n ↦ sub_ℕ 0 (suc n / 10 ^ 6) ]

-- `s.replace("Z", "+00:00")`
unfoldable pub with_offset : Text → Text
with_offset [] = []
with_offset (c ∷ s) = (if eqb c b'Z' then codes "+00:00" else c ∷ []) ++ with_offset s

-- The time of the newest sample, or an exception of `row[0].replace`, which `main` does not catch: a
-- number has no such method, and that of bytes takes no str.
pub data Sample : Type 0 where
  sampled : ℤ → Sample
  attribute_error type_error : Sample

module _ (from_iso : Text → Option Moment) where
  abbrev pub instant : Option Moment → Outcome Sample
  instant none = raised value_error
  instant (some m) = returned (sampled (seconds m))

  -- From `if not row[0]` on.
  unfoldable pub sample_of : Cell → Outcome Sample
  unfolding seconds with_offset
  sample_of null = returned (sampled (pos 0))
  sample_of (integer (pos zero)) = returned (sampled (pos 0))
  sample_of (integer _) = returned attribute_error
  sample_of (real (finite (pos zero))) = returned (sampled (pos 0))
  sample_of (real _) = returned attribute_error
  sample_of (text []) = returned (sampled (pos 0))
  sample_of (text (c ∷ s)) = instant (from_iso (with_offset (c ∷ s)))
  sample_of (blob []) = returned (sampled (pos 0))
  sample_of (blob (c ∷ s)) = returned type_error

  -- From the rows of the first query on.
  abbrev pub sample_of_only : Db → List Cell → Outcome Sample
  sample_of_only db (id ∷ []) = db.newest id >>= sample_of
  sample_of_only db _ = raised value_error

  unfoldable pub latest_sample : Db → Text → Outcome Sample
  unfolding sample_of
  latest_sample db system_name = db.systems system_name >>= sample_of_only db

abbrev pub last_run : Text
last_run = codes "beszel_freshness_last_run_timestamp_seconds"

abbrev pub last_sample : Text
last_sample = codes "beszel_last_sample_timestamp_seconds"

abbrev pub freshness_success : Text
freshness_success = codes "beszel_freshness_success"

-- The dict of the metrics before the success, and the success; none where an exception escapes.
abbrev pub collect : ℤ → Dict Text ℤ → Outcome Sample → Option (Dict Text ℤ × Bool)
collect now metrics (raised e) = some (metrics, false)
collect now metrics (returned (sampled sample)) =
    if ltbℤ (now +ℤ pos 60) sample
    then some (metrics, false)
    else some (insert last_sample sample metrics, true)
collect now metrics (returned attribute_error) = none
collect now metrics (returned type_error) = none

unfoldable pub write_metrics : Dict Text ℤ → Text
write_metrics [] = []
write_metrics ((name, value) ∷ metrics) =
    codes "# TYPE "
    ++ (name
        ++ (codes " gauge\n" ++ (name ++ (b' ' ∷ (show value ++ (b'\n' ∷ write_metrics metrics))))))

pub record Run : Type 0 where
  pub exit : ℤ
  pub metrics : Dict Text ℤ
  pub output : Text

abbrev pub publish : Option (Dict Text ℤ × Bool) → Option Run
publish none = none
publish (some (metrics, success)) =
    let all_metrics = insert freshness_success (one_if success) metrics in
    some (record {
      exit = (if success then pos 0 else pos 1);
      metrics = all_metrics;
      output = write_metrics all_metrics;
    })

-- What is published, up to the writing; none where an exception escapes.
unfoldable pub main : (Text → Option Moment) → Db → Text → ℤ → Option Run
unfolding latest_sample write_metrics
main from_iso db system_name now =
    publish (collect now ((last_run, now) ∷ []) (latest_sample from_iso db system_name))
