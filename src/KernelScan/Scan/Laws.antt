-- ===== src/KernelScan/Scan/Laws.antt =====
-- What `scan` counts.
use pi_homelab.Base.{ℕ, ◌+◌, ◌≤◌, length, ◌≡◌, refl, ap, ◌∙◌, Bool, false, Option, none, some, List}
use pi_homelab.Base.{[], ◌∷◌, ◌==◌, text_eq, if◌then◌else◌, arith, map}
use pi_homelab.Base.{Option-cases, inl, inr}
use pi_homelab.Base.Text.{Text}
use pi_homelab.Base.Dict.{keys, keys-insert_present, lookup, insert, lookup-insert}
use pi_homelab.KernelScan.Classes.{classes, classify}
use pi_homelab.KernelScan.Classes.Tiers.{classify-classes}
use pi_homelab.KernelScan.Scan.{Counts, zeros, count_in, count_from, scan}

abbrev is_class : Text → Option Text → Bool
is_class name none = false
is_class name (some n) = name == n

-- How many of the lines `classify` gives to a class.
abbrev pub occurrences : Text → List Text → ℕ
occurrences name [] = 0
occurrences name (line ∷ lines) =
    let rest = occurrences name lines in if is_class name (classify line) then rest + 1 else rest

count_in-count_from :
    (counts : Counts) (lines : List Text) (name : Text)
    → count_in name (count_from counts lines) ≡ count_in name counts + occurrences name lines
unfolding count_from
count_in-count_from counts [] name = omega arith
count_in-count_from counts (line ∷ lines) name = elim (Option-cases (classify line)) [
  | inl e ↦ rw (e, count_from) (count_in-count_from counts lines name)
  | inr (n, e) ↦
      rw (e, count_from)
        (count_in-count_from (insert n (count_in n counts + 1) counts) lines name
          ∙ ground (arith, e, lookup-insert name n (count_in n counts + 1) counts))
]

count_in-zeroed : (names : List Text) (name : Text) → count_in name (map (λ n. (n, 0)) names) ≡ 0
unfolding lookup
count_in-zeroed [] name = refl
count_in-zeroed (n ∷ names) name = ground (arith, count_in-zeroed names name)

keys-count_from :
    (counts : Counts) (lines : List Text)
    → keys counts ≡ classes
    → keys (count_from counts lines) ≡ classes
unfolding count_from
keys-count_from counts [] h = h
keys-count_from counts (line ∷ lines) h = elim (Option-cases (classify line)) [
  | inl e ↦ rw (e, count_from) (keys-count_from counts lines h)
  | inr (n, e) ↦
      rw (e, count_from)
        (keys-count_from (insert n (count_in n counts + 1) counts) lines
          (keys-insert_present n _ counts (rw h (classify-classes line n e)) ∙ h))
]

keys-zeroed : (names : List Text) → keys {V = ℕ} (map (λ n. (n, 0)) names) ≡ names
keys-zeroed [] = refl
keys-zeroed (n ∷ names) = ap (λ l. n ∷ l) (keys-zeroed names)

-- A scan lists every class in the order of the table, also those that no line belongs to, and
-- counts for each the lines that `classify` gives to it.
pub scan_counts :
    (lines : List Text) (name : Text)
    → (keys (scan lines) ≡ classes) × (count_in name (scan lines) ≡ occurrences name lines)
unfolding scan
scan_counts lines name = (
  keys-count_from zeros lines (unfold zeros in keys-zeroed classes),
  count_in-count_from zeros lines name
      ∙ ap (λ n. n + occurrences name lines) (unfold zeros in count_in-zeroed classes name)
      ∙ omega arith,
)

-- No class is counted more often than there are lines.
pub occurrences_le : (name : Text) (lines : List Text) → occurrences name lines ≤ length lines
occurrences_le name [] = ground arith
occurrences_le name (line ∷ lines) = ground (arith, occurrences_le name lines)
