-- ===== src/NfsClient/Samples.antt =====
-- The samples that say whether the exports can be read.
use pi_homelab.Base.{
  ◌≡◌, refl, ◌∙◌, ◌⊎◌, inl, inr, ℕ, ◌+◌, ◌<◌, none, some, Bool, true, false, ◌&&◌, ◌==◌, List, [],
  ◌∷◌,
}
use pi_homelab.Base.{if◌then◌else◌, text_eq, Bool-cases, arith, Option}
use pi_homelab.Base.Text.{Text, codes}
use pi_homelab.Base.Dict.{Dict, lookup}
use pi_homelab.Base.Json.{Value, null, bool, int, float, str, arr, obj, entries}
use pi_homelab.NfsClient.Validity.{
  Amount, whole, fraction, amount, at_most, valid_status, valid_fields, is_schema, is_checked,
  valid_exports,
}
use pi_homelab.NfsClient.Render.{
  Metric, label, flag, metrics, metrics_of, read_ok, dict_of, is_recent,
}

-- The samples of the metric with this name.
abbrev pub samples_of : Text → List Metric → List (Text × Value)
samples_of name [] = []
samples_of name (m ∷ ms) =
    let rest = samples_of name ms in if m.name == name then m.samples else rest

abbrev pub read_ok_samples : List Metric → List (Text × Value)
read_ok_samples = samples_of (codes "mac_nfs_read_ok")

-- The samples of a report for the two exports.
abbrev pub both : Bool → Bool → List (Text × Value)
both x y = (label (codes "srv"), flag x) ∷ (label (codes "generated"), flag y) ∷ []

pub read_ok_samples-metrics :
    (value : Value) (now : ℕ)
    → valid_status value now ≡ true
    → read_ok_samples (metrics value now)
      ≡ (label (codes "srv"), read_ok now (dict_of value) (codes "srv"))
        ∷ (label (codes "generated"), read_ok now (dict_of value) (codes "generated"))
        ∷ []
unfolding metrics metrics_of text_eq
read_ok_samples-metrics value now h = rw h refl

-- The amount of `checked_at`.
abbrev pub checked_of : Value → Option Amount
checked_of value = amount (lookup (codes "checked_at") (dict_of value))

read_ok_old :
    (now : ℕ) (d : Dict Text Value) (name : Text)
    → is_recent now (amount (lookup (codes "checked_at") d)) ≡ false
    → read_ok now d name ≡ flag false
unfolding read_ok
read_ok_old now d name h = ground arith

-- A report that is not valid, or that is too old.
read_ok_samples_old :
    (value : Value) (now : ℕ)
    → (valid_status value now && is_recent now (checked_of value)) ≡ false
    → read_ok_samples (metrics value now) ≡ both false false
unfolding metrics metrics_of text_eq
read_ok_samples_old value now h = elim (Bool-cases (valid_status value now)) [
  | inl v ↦
      let old : is_recent now (checked_of value) ≡ false = ground arith in
      read_ok_samples-metrics value now v
      ∙ rw
          (
            read_ok_old now (dict_of value) (codes "srv") old,
            read_ok_old now (dict_of value) (codes "generated") old,
          )
          refl
  | inr v ↦ rw v refl
]

checked_in :
    (now : ℕ) (schema : Bool) (checked : Option Amount) (exports : Option Value)
    → (schema
        && (elim checked [ none ↦ false | some c ↦ is_checked now c && valid_exports c exports ]))
      ≡ true
    → (c : Amount) × (checked ≡ some c) × (at_most c (whole now) ≡ true)
checked_in now schema none exports h = ground arith
checked_in now schema (some c) exports h = (c, refl, ground arith)

-- A report that is valid was checked, and not later than now.
valid_status-checked :
    (value : Value) (now : ℕ)
    → valid_status value now ≡ true
    → (checked : Amount) × (checked_of value ≡ some checked) × (at_most checked (whole now) ≡ true)
unfolding valid_status valid_fields
valid_status-checked (obj fs) now h =
    checked_in now (is_schema (lookup (codes "schema") (entries fs)))
      (amount (lookup (codes "checked_at") (entries fs))) (lookup (codes "exports") (entries fs)) h
valid_status-checked null now h = cc
valid_status-checked (bool _) now h = cc
valid_status-checked (int _) now h = cc
valid_status-checked (float _) now h = cc
valid_status-checked (str _) now h = cc
valid_status-checked (arr _) now h = cc

-- A check lies too far back for one of two times.
is_recent_apart :
    (now later : ℕ) (checked : Amount)
    → now + 600 < later
    → at_most checked (whole now) ≡ true
    → is_recent later (some checked) ≡ false
is_recent_apart now later (whole n) far h = ground arith
is_recent_apart now later (fraction n) far h = ground arith

-- No single report shows an export as read at two times more than 600 seconds apart: whatever it
-- holds, its metrics at the one or at the other time say that neither export could be read.
pub read_ok_samples_apart :
    (value : Value) (now later : ℕ)
    → now + 600 < later
    → (read_ok_samples (metrics value now) ≡ both false false)
      ⊎ (read_ok_samples (metrics value later) ≡ both false false)
read_ok_samples_apart value now later far = elim (Bool-cases (valid_status value now)) [
  | inl v ↦
      let (checked, found, past) = valid_status-checked value now v in
      let old = is_recent_apart now later checked far past in
      inr (read_ok_samples_old value later (rw (found, old) (ground arith)))
  | inr v ↦ inl (read_ok_samples_old value now (rw v refl))
]
