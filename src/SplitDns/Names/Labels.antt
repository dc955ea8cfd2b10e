-- ===== src/SplitDns/Names/Labels.antt =====
-- `covers` against the labels of the two names.
use mathlib.Core.Logic.{if_neg}
use pi_homelab.Base.{ℕ, ◌≡◌, refl, ap, sym, ◌∙◌, Bool, true, false, ◌&&◌, ◌||◌, List, [], ◌∷◌}
use pi_homelab.Base.{◌==◌, text_eq, eqb, list_dec, Eq, arith, ==_self}
use pi_homelab.Base.{Bool-cases, inl, inr}
use pi_homelab.Base.Text.{Text, split_on, push_first, ends_with, nonempty}
use pi_homelab.SplitDns.Names.{norm, covers}

instance unfoldable pub texts_eq : Eq (List Text)
unfolding list_dec
texts_eq = record { dec = list_dec text_eq.dec }

-- The labels of a name.
abbrev pub labels : Text → List Text
labels s = split_on b'.' s

-- `xs` stands at the end of `ys`.
abbrev pub is_suffix : List Text → List Text → Bool
is_suffix xs [] = xs == []
is_suffix xs (y ∷ ys) = xs == (y ∷ ys) || is_suffix xs ys

-- The text back from its pieces.
join : ℕ → List Text → Text
join sep [] = []
join sep ([] ∷ []) = []
join sep ([] ∷ w ∷ ws) = sep ∷ join sep (w ∷ ws)
join sep ((c ∷ w) ∷ ws) = c ∷ join sep (w ∷ ws)

join-push_first : (sep c : ℕ) (ws : List Text) → join sep (push_first c ws) ≡ c ∷ join sep ws
unfolding join
join-push_first sep c [] = refl
join-push_first sep c (w ∷ ws) = refl

-- There is always a first piece.
abbrev first : List Text → Text
first [] = []
first (w ∷ ws) = w

abbrev others : List Text → List Text
others [] = []
others (w ∷ ws) = ws

split_on_parts :
    (sep : ℕ) (s : Text) → split_on sep s ≡ first (split_on sep s) ∷ others (split_on sep s)
unfolding split_on
split_on_parts sep [] = refl
split_on_parts sep (c ∷ s) = ground (arith, split_on_parts sep s)

join_gap :
    (sep : ℕ) (ws : List Text) → ws ≡ first ws ∷ others ws → join sep ([] ∷ ws) ≡ sep ∷ join sep ws
unfolding join
join_gap sep [] e = cc
join_gap sep (w ∷ ws) e = refl

join-split_on : (sep : ℕ) (s : Text) → join sep (split_on sep s) ≡ s
unfolding split_on
join-split_on sep [] = unfold join in refl
join-split_on sep (c ∷ s) = ground (
  arith,
  join-split_on sep s,
  join_gap sep (split_on sep s) (split_on_parts sep s),
  join-push_first sep c (split_on sep s),
)

labels_inj : (r d : Text) → labels r ≡ labels d → r ≡ d
labels_inj r d e = sym (join-split_on b'.' r) ∙ ap (join b'.') e ∙ join-split_on b'.' d

-- Different names have different labels.
==_labels : (r d : Text) → (labels r == labels d) ≡ (d == r)
==_labels r d = elim (text_eq.dec d r) [
  | yes p ↦ rw p (==_self (labels r) ∙ sym (==_self r))
  | no n ↦ if_neg _ (λ e. n (sym (labels_inj r d e))) true false ∙ sym (if_neg _ n true false)
]

is_suffix_parts :
    (xs ys : List Text)
    → ys ≡ first ys ∷ others ys
    → is_suffix xs ys ≡ (xs == ys || is_suffix xs (others ys))
is_suffix_parts xs [] e = cc
is_suffix_parts xs (y ∷ ys) e = refl

others-push_first : (c : ℕ) (ws : List Text) → others (push_first c ws) ≡ others ws
others-push_first c [] = refl
others-push_first c (w ∷ ws) = refl

eq_dot : (c : ℕ) (r d : Text) → ((c ∷ d) == (b'.' ∷ r)) ≡ (eqb c b'.' && d == r)
eq_dot c r d = ground arith

is_suffix-others : (r d : Text) → is_suffix (labels r) (others (labels d)) ≡ ends_with d (b'.' ∷ r)
unfolding split_on ends_with
is_suffix-others r [] = ground (arith, split_on_parts b'.' r)
is_suffix-others r (c ∷ d) = elim (Bool-cases (eqb c b'.')) [
  | inl dot ↦
      rw (dot, eq_dot c r d, dot)
        (is_suffix_parts (labels r) (labels d) (split_on_parts b'.' d)
          ∙ rw (==_labels r d, is_suffix-others r d))
  | inr other ↦
      rw (other, eq_dot c r d, other, others-push_first c (labels d)) (is_suffix-others r d)
]

is_suffix-labels :
    (r d : Text) → is_suffix (labels r) (labels d) ≡ (d == r || ends_with d (b'.' ∷ r))
is_suffix-labels r d =
    is_suffix_parts (labels r) (labels d) (split_on_parts b'.' d)
    ∙ rw (==_labels r d, is_suffix-others r d)

-- A route answers for a name exactly when neither is blank and its labels are the last labels of
-- the name: a boundary inside a label never counts.
pub covers_labels :
    (route domain : Text)
    → covers route domain ≡ (
        nonempty (norm route)
        && nonempty (norm domain)
        && is_suffix (labels (norm route)) (labels (norm domain)))
unfolding covers
covers_labels route domain = ground (arith, is_suffix-labels (norm route) (norm domain))
