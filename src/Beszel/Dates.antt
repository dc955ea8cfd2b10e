-- ===== src/Beszel/Dates.antt =====
-- What a stored value stands for as the time of a sample.
use pi_homelab.Base.{◌≡◌, ◌≢◌, refl, ◌⊎◌, inl, inr, Bool, true, false, zero}
use pi_homelab.Base.{suc, Option, none, some, [], ◌∷◌, text_eq, arith}
use pi_homelab.Base.Text.{Text, nonempty}
use pi_homelab.Base.Int.{ℤ, pos, negsuc}
use pi_homelab.Base.Json.{finite, infinite, nan}
use pi_homelab.Beszel.{Outcome, returned, Moment, sample_of, instant}
use pi_homelab.Beszel.{Cell, null, integer, real, text, blob, Sample, sampled, attribute_error}
use pi_homelab.Beszel.{type_error, seconds, with_offset}

-- What Python counts as false: no sample, an empty text or bytes, or a zero.
abbrev pub is_empty : Cell → Bool
is_empty null = true
is_empty (integer (pos zero)) = true
is_empty (real (finite (pos zero))) = true
is_empty (text []) = true
is_empty (blob []) = true
is_empty _ = false

-- The time that an answer stands for: 0 for an empty one, and the date of a text.
abbrev pub Dates : (Text → Option Moment) → Cell → ℤ → Type 0
Dates from_iso created sample =
    ((is_empty created ≡ true) × (sample ≡ pos 0))
    ⊎ ((t : Text) × (m : Moment) × (created ≡ text t)
        × (nonempty t ≡ true)
        × (from_iso (with_offset t) ≡ some m)
        × (sample ≡ seconds m))

-- An answer that is no text and not empty.
abbrev pub IsOdd : Cell → Type 0
IsOdd created = (is_empty created ≡ false) × ((t : Text) → created ≢ text t)

-- Whether an exception escapes that `main` does not catch.
abbrev pub escapes : Outcome Sample → Bool
escapes (returned attribute_error) = true
escapes (returned type_error) = true
escapes _ = false

module _ (from_iso : Text → Option Moment) where
  instant-sampled :
      (o : Option Moment) (sample : ℤ)
      → instant from_iso o ≡ returned (sampled sample)
      → (m : Moment) × (o ≡ some m) × (sample ≡ seconds m)
  instant-sampled none sample h = cc
  instant-sampled (some m) sample h = (m, refl, cc)

  instant-escapes : (o : Option Moment) → escapes (instant from_iso o) ≡ false
  instant-escapes none = refl
  instant-escapes (some m) = refl

  pub sample_of-Dates :
      (created : Cell) (sample : ℤ)
      → sample_of from_iso created ≡ returned (sampled sample)
      → Dates from_iso created sample
  unfolding sample_of
  sample_of-Dates null sample h = inl (refl, cc)
  sample_of-Dates (integer (pos zero)) sample h = inl (refl, cc)
  sample_of-Dates (integer (pos (suc n))) sample h = cc
  sample_of-Dates (integer (negsuc n)) sample h = cc
  sample_of-Dates (real (finite (pos zero))) sample h = inl (refl, cc)
  sample_of-Dates (real (finite (pos (suc n)))) sample h = cc
  sample_of-Dates (real (finite (negsuc n))) sample h = cc
  sample_of-Dates (real infinite) sample h = cc
  sample_of-Dates (real nan) sample h = cc
  sample_of-Dates (text []) sample h = inl (refl, cc)
  sample_of-Dates (text (c ∷ s)) sample h =
      let (m, found, e) = instant-sampled (from_iso (with_offset (c ∷ s))) sample h in
      inr (c ∷ s, m, refl, refl, found, e)
  sample_of-Dates (blob []) sample h = inl (refl, cc)
  sample_of-Dates (blob (c ∷ s)) sample h = cc

  sample_of-empty :
      (created : Cell)
      → is_empty created ≡ true
      → sample_of from_iso created ≡ returned (sampled (pos 0))
  unfolding sample_of
  sample_of-empty created h = ground arith

  sample_of-text :
      (t : Text)
      → nonempty t ≡ true
      → sample_of from_iso (text t) ≡ instant from_iso (from_iso (with_offset t))
  unfolding sample_of
  sample_of-text [] h = cc
  sample_of-text (c ∷ s) h = refl

  pub Dates-sample_of :
      (created : Cell) (sample : ℤ)
      → Dates from_iso created sample
      → sample_of from_iso created ≡ returned (sampled sample)
  Dates-sample_of created sample (inl (e, zero_sample)) =
      rw (zero_sample) (sample_of-empty created e)
  Dates-sample_of created sample (inr (t, m, is_text, some_text, found, e)) =
      rw (is_text, sample_of-text t some_text, found, e) refl

  pub sample_of-IsOdd :
      (created : Cell) → escapes (sample_of from_iso created) ≡ true → IsOdd created
  unfolding sample_of
  sample_of-IsOdd null h = cc
  sample_of-IsOdd (integer (pos zero)) h = cc
  sample_of-IsOdd (integer (pos (suc n))) h = (refl, λ t e. ground arith)
  sample_of-IsOdd (integer (negsuc n)) h = (refl, λ t e. ground arith)
  sample_of-IsOdd (real (finite (pos zero))) h = cc
  sample_of-IsOdd (real (finite (pos (suc n)))) h = (refl, λ t e. ground arith)
  sample_of-IsOdd (real (finite (negsuc n))) h = (refl, λ t e. ground arith)
  sample_of-IsOdd (real infinite) h = (refl, λ t e. ground arith)
  sample_of-IsOdd (real nan) h = (refl, λ t e. ground arith)
  sample_of-IsOdd (text []) h = cc
  sample_of-IsOdd (text (c ∷ s)) h =
      ground (arith, instant-escapes (from_iso (with_offset (c ∷ s))))
  sample_of-IsOdd (blob []) h = cc
  sample_of-IsOdd (blob (c ∷ s)) h = (refl, λ t e. ground arith)

  pub IsOdd-escapes : (created : Cell) → IsOdd created → escapes (sample_of from_iso created) ≡ true
  unfolding sample_of
  IsOdd-escapes null (full, other) = cc
  IsOdd-escapes (integer (pos zero)) (full, other) = cc
  IsOdd-escapes (integer (pos (suc n))) h = refl
  IsOdd-escapes (integer (negsuc n)) h = refl
  IsOdd-escapes (real (finite (pos zero))) (full, other) = cc
  IsOdd-escapes (real (finite (pos (suc n)))) h = refl
  IsOdd-escapes (real (finite (negsuc n))) h = refl
  IsOdd-escapes (real infinite) h = refl
  IsOdd-escapes (real nan) h = refl
  IsOdd-escapes (text t) (full, other) = elim (other t refl) [ ]
  IsOdd-escapes (blob []) (full, other) = cc
  IsOdd-escapes (blob (c ∷ s)) h = refl
