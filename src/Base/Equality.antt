-- ===== src/Base/Equality.antt =====
-- Python's `==` and `in`, for every type whose equality can be decided, and tests on numbers.
use Prim.Native.Nat.{ℕ, compare, Ordering}
use mathlib.Core.Path.{◌≡◌, refl, sym, ap₂}
use mathlib.Core.Logic.{◌⊎◌, inl, inr, ite, dite, if_neg}
use mathlib.Core.Bool.{Bool, true, false, cond, ◌||◌}
use mathlib.Core.Option.{Option, none, some}
use mathlib.Core.List.{List, [], ◌∷◌}
use native.Mathlib.Decide.{ℕ_discrete}
use native.Mathlib.Omega.{arith}

infix 1 if◌then◌else◌
abbrev pub if◌then◌else◌ {ℓ} : {A : Type ℓ} → Bool → A → A → A
if b then x else y = cond b x y

abbrev pub ltb : ℕ → ℕ → Bool
ltb a b = elim (compare a b) [ Ordering.lt ↦ true | _ ↦ false ]

abbrev pub leb : ℕ → ℕ → Bool
leb a b = elim (compare a b) [ Ordering.gt ↦ false | _ ↦ true ]

-- Equality of code points.
abbrev pub eqb : ℕ → ℕ → Bool
eqb a b = elim (compare a b) [ Ordering.eq ↦ true | _ ↦ false ]

pub Bool-cases : (b : Bool) → (b ≡ true) ⊎ (b ≡ false)
Bool-cases true = inl refl
Bool-cases false = inr refl

pub Option-cases {ℓ} : {A : Type ℓ} (o : Option A) → (o ≡ none) ⊎ ((a : A) × (o ≡ some a))
Option-cases none = inl refl
Option-cases (some a) = inr (a, refl)

-- The code points of a literal.
pub record Eq {ℓ} (A : Type ℓ) : Type ℓ where
  pub dec : Discrete A

module _ {ℓ} {A : Type ℓ} ⦃e : Eq A⦄ where
  infix 50 ◌==◌
  abbrev pub ◌==◌ : A → A → Bool
  a == b = ite (e.dec a b) true false

  abbrev pub contains : List A → A → Bool
  contains [] a = false
  contains (x ∷ xs) a = a == x || contains xs a

unfoldable pub list_dec {ℓ} : {A : Type ℓ} → Discrete A → Discrete (List A)
list_dec d [] [] = yes refl
list_dec d [] (y ∷ ys) = no (λ e. cc)
list_dec d (x ∷ xs) [] = no (λ e. cc)
list_dec d (x ∷ xs) (y ∷ ys) =
    let tails = list_dec d xs ys in
    dite (d x y) (λ p. dite tails (λ q. yes (ap₂ ◌∷◌ p q)) (λ n. no (λ r. n (cc))))
      (λ n. no (λ r. n (cc)))

-- Shut in proofs, where a split on a comparison yields the equation or its negation.
instance unfoldable pub text_eq : Eq (List ℕ)
unfolding list_dec ℕ_discrete
text_eq = record { dec = list_dec ℕ_discrete }

instance unfoldable pub nat_eq : Eq ℕ
unfolding ℕ_discrete
nat_eq = record { dec = ℕ_discrete }

pub ==_self {ℓ} : {A : Type ℓ} ⦃e : Eq A⦄ (a : A) → (a == a) ≡ true
==_self a = ground arith

pub ==_eq {ℓ} : {A : Type ℓ} ⦃e : Eq A⦄ (a b : A) → (a == b) ≡ true → a ≡ b
==_eq a b h = ground arith

pub ==_sym {ℓ} : {A : Type ℓ} ⦃e : Eq A⦄ (a b : A) → (a == b) ≡ (b == a)
==_sym ⦃e⦄ a b = elim (e.dec a b) [
  | yes p ↦ rw p
  | no n ↦ rw (if_neg _ n, if_neg _ (λ q. n (sym q)))
]
