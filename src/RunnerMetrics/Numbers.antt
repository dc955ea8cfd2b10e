-- ===== src/RunnerMetrics/Numbers.antt =====
-- When reading a number succeeds, and with it the samples of a report.
use pi_homelab.Base.{◌≡◌, refl, Bool, true, false, not, ◌⊎◌, inl, inr, Option, none, some}
use pi_homelab.Base.{List, [], ◌∷◌, ◌==◌, all, text_eq, arith}
use pi_homelab.Base.{Option-cases, Bool-cases}
use pi_homelab.Base.Text.{Text}
use pi_homelab.Base.Dict.{Dict, lookup}
use pi_homelab.Base.Int.{ℤ, pos}
use pi_homelab.Base.Json.{
  Value, null, bool, int, float, finite, infinite, nan, str, arr, obj, int_of,
}
use pi_homelab.Base.Json.{int_of_text, entries}
use pi_homelab.Base.Metrics.{num, is_infinite}
use pi_homelab.Base.Result.{Result, ok, raise, ◌>>=◌, overflow_error}
use pi_homelab.RunnerMetrics.Series.{Series}
use pi_homelab.RunnerMetrics.Render.{series_lines, samples_of, info_num}

abbrev pub Succeeds : {A : Type 0} → Result A → Type 0
Succeeds {A} r = (a : A) × (r ≡ ok a)

pub >>=_Succeeds :
    {A B : Type 0} (r : Result A) (f : A → Result B)
    → Succeeds r
    → ((a : A) → Succeeds (f a))
    → Succeeds (r >>= f)
>>=_Succeeds r f (a, h) k = rw h (k a)

-- A chain whose first step can only overflow, and whose rest overflows, overflows.
pub >>=_overflow :
    {A B : Type 0} (r : Result A) (f : A → Result B)
    → Succeeds r ⊎ (r ≡ raise overflow_error)
    → ((a : A) → f a ≡ raise overflow_error)
    → (r >>= f) ≡ raise overflow_error
>>=_overflow r f (inl (a, h)) k = rw h (k a)
>>=_overflow r f (inr h) k = rw h refl

pub num-Succeeds : (o : Option Value) → is_infinite o ≡ false → Succeeds (num o)
unfolding num int_of
num-Succeeds none h = (pos 0, refl)
num-Succeeds (some null) h = (pos 0, refl)
num-Succeeds (some (bool true)) h = (pos 1, refl)
num-Succeeds (some (bool false)) h = (pos 0, refl)
num-Succeeds (some (int n)) h = (n, refl)
num-Succeeds (some (float (finite n))) h = (_, refl)
num-Succeeds (some (float infinite)) h = cc
num-Succeeds (some (float nan)) h = (pos 0, refl)
num-Succeeds (some (str s)) h = elim (Option-cases (int_of_text s)) [
  | inl e ↦ (pos 0, ground arith)
  | inr (n, e) ↦ (n, ground arith)
]
num-Succeeds (some (arr vs)) h = (pos 0, refl)
num-Succeeds (some (obj fs)) h = (pos 0, refl)

pub num-infinite : (o : Option Value) → is_infinite o ≡ true → num o ≡ raise overflow_error
unfolding num int_of
num-infinite (some (float infinite)) h = refl
num-infinite none h = cc
num-infinite (some null) h = cc
num-infinite (some (bool b)) h = cc
num-infinite (some (int n)) h = cc
num-infinite (some (float (finite n))) h = cc
num-infinite (some (float nan)) h = cc
num-infinite (some (str s)) h = cc
num-infinite (some (arr vs)) h = cc
num-infinite (some (obj fs)) h = cc

pub num-cases : (o : Option Value) → Succeeds (num o) ⊎ (num o ≡ raise overflow_error)
num-cases o = elim (Bool-cases (is_infinite o)) [
  | inl h ↦ inr (num-infinite o h)
  | inr h ↦ inl (num-Succeeds o h)
]

-- None of the dict's numbers is infinite.
abbrev pub is_calm : Dict Text Value → Bool
is_calm d = all (λ (k, v). not (is_infinite (some v))) d

pub lookup-is_calm :
    (key : Text) (d : Dict Text Value) → is_calm d ≡ true → is_infinite (lookup key d) ≡ false
unfolding lookup
lookup-is_calm key [] h = refl
lookup-is_calm key ((k, v) ∷ d) h = elim (Bool-cases (key == k)) [
  | inl e ↦ rw e (ground arith)
  | inr e ↦ rw e (lookup-is_calm key d (ground arith))
]

pub series_lines-Succeeds :
    (d : Dict Text Value) (ss : List Series) → is_calm d ≡ true → Succeeds (series_lines d ss)
unfolding series_lines
series_lines-Succeeds d [] h = ([], refl)
series_lines-Succeeds d (s ∷ ss) h =
    >>=_Succeeds (num (lookup s.key d)) _ (num-Succeeds (lookup s.key d) (lookup-is_calm s.key d h))
      (λ n. >>=_Succeeds (series_lines d ss) _ (series_lines-Succeeds d ss h) (λ lines. (_, refl)))

pub samples_of-Succeeds :
    (key : Text) (read : Value → Result ℤ) (p : Value → Bool) (d : Dict Text Value)
    → ((v : Value) → p v ≡ true → Succeeds (read v))
    → all (λ (k, v). p v) d ≡ true
    → Succeeds (samples_of key read d)
unfolding samples_of
samples_of-Succeeds key read p [] f h = ([], refl)
samples_of-Succeeds key read p ((k, v) ∷ d) f h = >>=_Succeeds (read v) _ (f v (ground arith)) (λ n.
    >>=_Succeeds (samples_of key read d) _ (samples_of-Succeeds key read p d f (ground arith))
      (λ samples. (_, refl)))

-- None of the numbers in the repository's entry is infinite.
abbrev pub is_calm_info : Value → Bool
is_calm_info (obj fs) = is_calm (entries fs)
is_calm_info _ = true

pub info_num-Succeeds : (key : Text) (v : Value) → is_calm_info v ≡ true → Succeeds (info_num key v)
info_num-Succeeds key (obj fs) h =
    num-Succeeds (lookup key (entries fs)) (lookup-is_calm key (entries fs) h)
info_num-Succeeds key null h = (pos 0, refl)
info_num-Succeeds key (bool b) h = (pos 0, refl)
info_num-Succeeds key (int n) h = (pos 0, refl)
info_num-Succeeds key (float x) h = (pos 0, refl)
info_num-Succeeds key (str s) h = (pos 0, refl)
info_num-Succeeds key (arr vs) h = (pos 0, refl)
