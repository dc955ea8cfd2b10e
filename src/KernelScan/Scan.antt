-- ===== src/KernelScan/Scan.antt =====
-- `scan`: the counts of each class, with every class present.
pub mod Laws
use pi_homelab.Base.{ℕ, zero, ◌+◌, Option, none, some, List, [], ◌∷◌, map, text_eq}
use pi_homelab.Base.Text.{Text}
use pi_homelab.Base.Dict.{Dict, lookup, insert}
use pi_homelab.KernelScan.Classes.{classes, classify}

abbrev pub Counts : Type 0
Counts = Dict Text ℕ

-- `dict.fromkeys(CLASSES, 0)`
unfoldable pub zeros : Counts
unfolding classes
zeros = map (λ name. (name, 0)) classes

-- `counts.get(name)`, 0 where there is none.
abbrev pub count_in : Text → Counts → ℕ
count_in name counts = elim (lookup name counts) [ none ↦ 0 | some n ↦ n ]

-- The loop over the lines.
unfoldable pub count_from : Counts → List Text → Counts
count_from counts [] = counts
count_from counts (line ∷ lines) =
    count_from
      (elim (classify line) [
        | none ↦ counts
        | some name ↦ insert name (count_in name counts + 1) counts
      ])
      lines

unfoldable pub scan : List Text → Counts
unfolding count_from zeros
scan lines = count_from zeros lines
