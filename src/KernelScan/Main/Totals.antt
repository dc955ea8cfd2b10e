-- ===== src/KernelScan/Main/Totals.antt =====
-- The totals that are read back and carried on have every class, in the order of the table.
use pi_homelab.Base.{◌≡◌, refl, ap, ◌∙◌, sym, ◌^◌, ◌<◌, Bool, true, false, not, ◌||◌, Option, none}
use pi_homelab.Base.{some, List, [], ◌∷◌, map, all_of-contains, contains, distinct, length, arith}
use pi_homelab.Base.{text_eq, if◌then◌else◌, inl, inr, Bool-cases}
use mathlib.Core.Path.{subst}
use pi_homelab.Base.Text.{Text, splitlines}
use pi_homelab.Base.Dict.{keys, keys-insert_present, lookup}
use pi_homelab.Base.Int.{ℤ, pos}
use pi_homelab.Base.Result.{Result, ok, raise, ◌>>=◌}
use pi_homelab.KernelScan.Classes.{classes}
use pi_homelab.KernelScan.Scan.{Counts, scan, count_in}
use pi_homelab.KernelScan.Scan.Laws.{scan_counts, occurrences_le}
use pi_homelab.KernelScan.Prom.{Totals, total_in}
use pi_homelab.KernelScan.Parse.{
  Published, no_totals, record_total, take_event, take_line, parse_line, parse_lines,
}
use pi_homelab.KernelScan.Parse.{parse_prom}
use pi_homelab.KernelScan.Parse.Value.{is_exact}
use pi_homelab.KernelScan.Parse.RoundTrip.{listed, all_exact}
use pi_homelab.KernelScan.Carry.{totals, carry_forward, or_zeros, is_known, same_id}

abbrev entry : Totals → Text → Text × ℤ
entry t name = (name, total_in name t)

entry-skip :
    (k : Text) (v : ℤ) (d : Totals) (names : List Text)
    → contains names k ≡ false
    → map (entry ((k, v) ∷ d)) names ≡ map (entry d) names
unfolding lookup
entry-skip k v d [] h = refl
entry-skip k v d (n ∷ names) h = ground (arith, entry-skip k v d names)

entry-keys : (d : Totals) → distinct (keys d) ≡ true → map (entry d) (keys d) ≡ d
unfolding lookup
entry-keys [] h = refl
entry-keys ((k, v) ∷ d) h = ground (arith, entry-skip k v d (keys d), entry-keys d)

classes_without_repeats : distinct classes ≡ true
unfolding classes text_eq
classes_without_repeats = refl

pub listed-full : (t : Totals) → keys t ≡ classes → listed t ≡ t
listed-full t h = rw (sym h) (entry-keys t (rw h classes_without_repeats))

keys-totals : (c : Counts) → keys (totals c) ≡ keys c
keys-totals [] = refl
keys-totals ((k, n) ∷ c) = ap (λ l. k ∷ l) (keys-totals c)

total_in-totals : (c : Counts) (name : Text) → total_in name (totals c) ≡ pos (count_in name c)
unfolding lookup
total_in-totals [] name = refl
total_in-totals ((k, n) ∷ c) name = ground (arith, total_in-totals c name)

pub scan_exact :
    (lines : List Text) → length lines < 2 ^ 53 → all_exact (totals (scan lines)) ≡ true
scan_exact lines h =
    all_of-contains (λ name. is_exact (total_in name (totals (scan lines)))) classes
      (λ name m.
        rw (total_in-totals (scan lines) name, (scan_counts lines name).1)
          (ground (arith, occurrences_le name lines)))

pub scan_full : (lines : List Text) → keys (totals (scan lines)) ≡ classes
scan_full lines = keys-totals (scan lines) ∙ (scan_counts lines []).0

-- Both totals have every class.
abbrev pub IsFull : Published → Type 0
IsFull p = (keys p.counts ≡ classes) × (keys p.last_boot ≡ classes)

abbrev IsFullResult : Result Published → Type 0
IsFullResult (ok p) = IsFull p
IsFullResult (raise e) = Unit {0}

record_total-IsFull :
    (live : Bool) (name : Text) (p : Published) (n : ℤ)
    → contains classes name ≡ true
    → IsFull p
    → IsFull (record_total live name p n)
record_total-IsFull true name p n m (c, l) = (keys-insert_present name n p.counts (rw c m) ∙ c, l)
record_total-IsFull false name p n m (c, l) =
    (c, keys-insert_present name n p.last_boot (rw l m) ∙ l)

known_total-IsFull :
    (live : Bool) (name : Text) (value : Result ℤ) (p : Published)
    → contains classes name ≡ true
    → IsFull p
    → IsFullResult (value >>= λ n. ok (record_total live name p n))
known_total-IsFull live name (ok n) p m h = record_total-IsFull live name p n m h
known_total-IsFull live name (raise e) p m h = tt

take_event-IsFull :
    (event : Option (Bool × Text × Result ℤ)) (p : Published)
    → IsFull p
    → IsFullResult (take_event event p)
take_event-IsFull none p h = h
take_event-IsFull (some (live, name, value)) p h = elim (Bool-cases (contains classes name)) [
  | inl m ↦ rw m (known_total-IsFull live name value p m h)
  | inr m ↦ rw m h
]

take_line-IsFull :
    (boot : Option Text) (event : Option (Bool × Text × Result ℤ)) (p : Published)
    → IsFull p
    → IsFullResult (take_line boot event p)
take_line-IsFull none event p h = take_event-IsFull event p h
take_line-IsFull (some boot) event p h = h

>>=_IsFull :
    (r : Result Published) (f : Published → Result Published)
    → IsFullResult r
    → ((p : Published) → IsFull p → IsFullResult (f p))
    → IsFullResult (r >>= f)
>>=_IsFull (ok p) f h k = k p h
>>=_IsFull (raise e) f h k = tt

parse_lines-IsFull :
    (lines : List Text) (p : Published) → IsFull p → IsFullResult (parse_lines lines p)
unfolding parse_lines parse_line
parse_lines-IsFull [] p h = h
parse_lines-IsFull (line ∷ lines) p h =
    >>=_IsFull (parse_line line p) (parse_lines lines) (take_line-IsFull _ _ p h)
      (parse_lines-IsFull lines)

no_totals-full : keys no_totals ≡ classes
unfolding classes
no_totals-full = refl

-- Whatever the text, what is read back has every class.
pub parse_prom-IsFull : (text : Text) (p : Published) → parse_prom text ≡ ok p → IsFull p
unfolding parse_prom
parse_prom-IsFull text p h =
    let full = parse_lines-IsFull (splitlines text) _ (no_totals-full, no_totals-full) in
    subst IsFullResult h full

if_either : (P : Totals → Type 0) (b : Bool) {x y : Totals} → P x → P y → P (if b then x else y)
if_either P true p q = p
if_either P false p q = q

-- What holds of both totals, and of the zeros, holds of those carried on.
carry_forward-any :
    (P : Totals → Type 0) (p : Published) (boot : Option Text)
    → P p.counts
    → P p.last_boot
    → P (or_zeros p.last_boot)
    → P (carry_forward p boot)
unfolding carry_forward
carry_forward-any P p boot c l z =
    if_either P (not (is_known boot) || not (is_known p.boot_id)) z
      (if_either P (not (same_id p.boot_id boot)) c l)

or_zeros-full : (t : Totals) → keys t ≡ classes → keys (or_zeros t) ≡ classes
or_zeros-full [] h = no_totals-full
or_zeros-full (e ∷ t) h = h

pub carry_forward-full :
    (p : Published) (boot : Option Text) → IsFull p → keys (carry_forward p boot) ≡ classes
carry_forward-full p boot (c, l) =
    carry_forward-any (λ t. keys t ≡ classes) p boot c l (or_zeros-full p.last_boot l)

no_totals-exact : all_exact no_totals ≡ true
unfolding classes lookup text_eq
no_totals-exact = refl

or_zeros-exact : (t : Totals) → all_exact t ≡ true → all_exact (or_zeros t) ≡ true
or_zeros-exact [] h = no_totals-exact
or_zeros-exact (e ∷ t) h = h

-- Both totals are kept by doubles.
abbrev pub IsExact : Published → Type 0
IsExact p = (all_exact p.counts ≡ true) × (all_exact p.last_boot ≡ true)

pub carry_forward-exact :
    (p : Published) (boot : Option Text) → IsExact p → all_exact (carry_forward p boot) ≡ true
carry_forward-exact p boot (c, l) =
    carry_forward-any (λ t. all_exact t ≡ true) p boot c l (or_zeros-exact p.last_boot l)
