-- ===== src/KernelScan/Classes/Tiers.antt =====
-- The tiers of the classes, and what `classify` may answer.
use pi_homelab.Base.{◌≡◌, refl, Bool, true, not, ◌&&◌, some, List, [], ◌∷◌}
use pi_homelab.Base.{
  ◌==◌, contains, text_eq, if◌then◌else◌, all, of_all-contains, arith, ==_self, Bool-cases, inl,
  inr, ap, ◌++◌,
}
use pi_homelab.Base.Text.{Text, codes}
use pi_homelab.Base.Dict.{Dict, keys}
use pi_homelab.KernelScan.Pattern.{Row, search_any}
use pi_homelab.KernelScan.Classes.{classes, fatal_classes, precursor_classes, never_normal_classes}
use pi_homelab.KernelScan.Classes.{severity_of, classify, first_match, patterns}

-- A class is fatal or a precursor and not both; a class that is never normal is a precursor; and
-- its severity says which of the three it is.
abbrev pub tier_ok : Text → Bool
tier_ok name =
    (if contains precursor_classes name
      then not (contains fatal_classes name)
        && (if contains never_normal_classes name
            then severity_of name == codes "dropout"
            else severity_of name == codes "precursor")
      else contains fatal_classes name
        && not (contains never_normal_classes name)
        && severity_of name == codes "fatal")

tiers_checked : all tier_ok classes ≡ true
unfolding classes severity_of text_eq
tiers_checked = refl

-- Each class that is emitted stands in exactly one of the three tiers, and `severity_of` names it.
pub severity_of_tier : (name : Text) → contains classes name ≡ true → tier_ok name ≡ true
severity_of_tier name m = of_all-contains tier_ok classes name tiers_checked m

first_match-keys :
    (table : Dict Text (List Row)) (line name : Text)
    → first_match table line ≡ some name
    → contains (keys table) name ≡ true
unfolding first_match
first_match-keys [] line name h = cc
first_match-keys ((n, rows) ∷ table) line name h =
    ground (arith, first_match-keys table line name, ==_self name)

pub classify-classes : (line name : Text) → classify line ≡ some name → contains classes name ≡ true
classify-classes line name h = unfold classify classes in first_match-keys patterns line name h

-- The table up to a class that wins: no earlier class matches the line, and its own pattern does.
pub record Wins (table : Dict Text (List Row)) (line name : Text) : Type 0 where
  pub earlier : Dict Text (List Row)
  pub own : List Row
  pub later : Dict Text (List Row)
  pub parts : table ≡ earlier ++ (name, own) ∷ later
  pub skipped : all (λ (_, rows). not (search_any rows line)) earlier ≡ true
  pub matched : search_any own line ≡ true

first_match-Wins :
    (table : Dict Text (List Row)) (line name : Text)
    → first_match table line ≡ some name
    → Wins table line name
unfolding first_match
first_match-Wins [] line name h = cc
first_match-Wins ((n, rows) ∷ table) line name h = elim (Bool-cases (search_any rows line)) [
  | inl hit ↦ record {
    earlier = [];
    own = rows;
    later = table;
    parts = ground arith;
    skipped = refl;
    matched = hit;
  }
  | inr miss ↦
      let w = first_match-Wins table line name (rw miss at h) in
      record {
        earlier = (n, rows) ∷ w.earlier;
        own = w.own;
        later = w.later;
        parts = ap (λ t. (n, rows) ∷ t) w.parts;
        skipped = rw miss w.skipped;
        matched = w.matched;
      }
]

-- A line is given to the first class of the table whose pattern it matches.
pub classify-Wins : (line name : Text) → classify line ≡ some name → Wins patterns line name
unfolding classify
classify-Wins line name h = first_match-Wins patterns line name h
