-- ===== src/Base/Lists.antt =====
-- Lists measured by the native numbers, filters by a Boolean test, and membership as a test.
use Prim.Native.Nat.{ℕ, zero, suc}
use mathlib.Core.Path.{◌≡◌, refl}
use mathlib.Core.Bool.{Bool, true, false, ◌&&◌, ◌||◌, not}
use mathlib.Core.List.{List, [], ◌∷◌, ◌++◌, map}
use native.Mathlib.Omega.{arith}
use pi_homelab.Base.Equality.{Eq, contains, if◌then◌else◌}

module _ {ℓ} {A : Type ℓ} where
  abbrev pub length : List A → ℕ
  length [] = 0
  length (x ∷ xs) = suc (length xs)

  abbrev pub take : ℕ → List A → List A
  take zero xs = []
  take (suc n) [] = []
  take (suc n) (x ∷ xs) = x ∷ take n xs

  abbrev pub drop : ℕ → List A → List A
  drop zero xs = xs
  drop (suc n) [] = []
  drop (suc n) (x ∷ xs) = drop n xs

  -- `[x for x in xs if p(x)]`
  abbrev pub filter : (A → Bool) → List A → List A
  filter p [] = []
  filter p (x ∷ xs) = let rest = filter p xs in if p x then x ∷ rest else rest

  -- `any(p(x) for x in xs)`
  abbrev pub any : (A → Bool) → List A → Bool
  any p [] = false
  any p (x ∷ xs) = p x || any p xs

  -- `all(p(x) for x in xs)`
  abbrev pub all : (A → Bool) → List A → Bool
  all p [] = true
  all p (x ∷ xs) = p x && all p xs

module _ {ℓ} {A : Type ℓ} ⦃e : Eq A⦄ where
  -- No element stands twice.
  abbrev pub distinct : List A → Bool
  distinct [] = true
  distinct (x ∷ xs) = not (contains xs x) && distinct xs

  pub contains-append :
      (xs ys : List A) (a : A) → contains (xs ++ ys) a ≡ (contains xs a || contains ys a)
  contains-append [] ys a = refl
  contains-append (x ∷ xs) ys a = ground (arith, contains-append xs ys a)

  pub contains-filter :
      (p : A → Bool) (xs : List A) (a : A) → contains (filter p xs) a ≡ (contains xs a && p a)
  contains-filter p [] a = refl
  contains-filter p (x ∷ xs) a = ground (arith, contains-filter p xs a)

  pub distinct-filter :
      (p : A → Bool) (xs : List A) → distinct xs ≡ true → distinct (filter p xs) ≡ true
  distinct-filter p [] h = refl
  distinct-filter p (x ∷ xs) h = ground (arith, distinct-filter p xs, contains-filter p xs x)

  pub distinct-snoc :
      (xs : List A) (a : A)
      → distinct xs ≡ true
      → contains xs a ≡ false
      → distinct (xs ++ a ∷ []) ≡ true
  distinct-snoc [] a h n = refl
  distinct-snoc (x ∷ xs) a h n = ground (arith, distinct-snoc xs a, contains-append xs (a ∷ []) x)

module _ {ℓ} {A : Type ℓ} where
  pub all-append : (p : A → Bool) (xs ys : List A) → all p (xs ++ ys) ≡ (all p xs && all p ys)
  all-append p [] ys = refl
  all-append p (x ∷ xs) ys = ground (arith, all-append p xs ys)

  pub all_mono :
      (p q : A → Bool) (xs : List A)
      → ((x : A) → p x ≡ true → q x ≡ true)
      → all p xs ≡ true
      → all q xs ≡ true
  all_mono p q [] h a = refl
  all_mono p q (x ∷ xs) h a = ground (arith, h x, all_mono p q xs h)

  pub all_both :
      (p : A → Bool) (xs ys : List A) → all p xs ≡ true → all p ys ≡ true → all p (xs ++ ys) ≡ true
  all_both p xs ys h k = rw (all-append p xs ys, h) k

  pub all-filter : (p q : A → Bool) (xs : List A) → all p xs ≡ true → all p (filter q xs) ≡ true
  all-filter p q [] h = refl
  all-filter p q (x ∷ xs) h = ground (arith, all-filter p q xs)

module _ {ℓ} {A : Type ℓ} ⦃e : Eq A⦄ where
  pub any_of-contains :
      (p : A → Bool) (xs : List A) (a : A) → contains xs a ≡ true → p a ≡ true → any p xs ≡ true
  any_of-contains p [] a m h = cc
  any_of-contains p (x ∷ xs) a m h = ground (arith, any_of-contains p xs a)

  pub all_of-contains :
      (p : A → Bool) (xs : List A) → ((a : A) → contains xs a ≡ true → p a ≡ true) → all p xs ≡ true
  all_of-contains p [] h = refl
  all_of-contains p (x ∷ xs) h =
      rw (h x (ground arith)) (all_of-contains p xs (λ a m. h a (ground arith)))

  pub of_all-contains :
      (p : A → Bool) (xs : List A) (a : A) → all p xs ≡ true → contains xs a ≡ true → p a ≡ true
  of_all-contains p [] a h m = cc
  of_all-contains p (x ∷ xs) a h m = ground (arith, of_all-contains p xs a)

  pub contains-map_of {κ} :
      {B : Type κ} ⦃f : Eq B⦄ (g : A → B) (xs : List A) (a : A)
      → contains xs a ≡ true
      → contains (map g xs) (g a) ≡ true
  contains-map_of g [] a m = cc
  contains-map_of g (x ∷ xs) a m = ground (arith, contains-map_of g xs a)
