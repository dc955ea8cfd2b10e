-- ===== src/Beszel/Freshness.antt =====
-- When a run counts as a success, what it publishes, and when it ends with an exception.
use pi_homelab.Base.{◌≡◌, refl, sym, ◌∙◌, ap, ◌⊎◌, inl, inr, true, false, Bool-cases}
use pi_homelab.Base.{Option, none, some, List, [], ◌∷◌, text_eq}
use pi_homelab.Base.Text.{Text}
use pi_homelab.Base.Dict.{insert}
use pi_homelab.Base.Int.{ℤ, pos, ltbℤ, ◌+ℤ◌}
use pi_homelab.Beszel.{
  Failure, ◌>>=◌, sample_of_only, Outcome, returned, raised, Db, Moment, sample_of, latest_sample,
}
use pi_homelab.Beszel.{Cell, Sample, sampled, attribute_error}
use pi_homelab.Beszel.{type_error}
use pi_homelab.Beszel.{last_run, last_sample, freshness_success, collect, publish, Run, main}
use pi_homelab.Beszel.Dates.{
  Dates, IsOdd, escapes, sample_of-Dates, Dates-sample_of, sample_of-IsOdd,
}
use pi_homelab.Beszel.Dates.{IsOdd-escapes}

-- What the database answers for the one system of the name.
pub record Answers (db : Db) (name : Text) (created : Cell) : Type 0 where
  pub id : Cell
  pub only : db.systems name ≡ returned (id ∷ [])
  pub read : db.newest id ≡ returned created

-- A sample at most a minute ahead.
abbrev pub FreshSample : (Text → Option Moment) → Db → Text → ℤ → ℤ → Type 0
FreshSample from_iso db name now sample =
    ((created : Cell) × Answers db name created × Dates from_iso created sample)
    × (ltbℤ (now +ℤ pos 60) sample ≡ false)

abbrev pub OddSample : Db → Text → Type 0
OddSample db name = (created : Cell) × Answers db name created × IsOdd created

-- A run that succeeds publishes the sample, one that fails publishes none.
abbrev pub Publishes : (Text → Option Moment) → Db → Text → ℤ → Option Run → Type 0
Publishes from_iso db name now none = OddSample db name
Publishes from_iso db name now (some r) =
    (¬ OddSample db name)
    × (((sample : ℤ) × FreshSample from_iso db name now sample
          × (r.exit ≡ pos 0)
          × (r.metrics ≡ (last_run, now) ∷ (last_sample, sample) ∷ (freshness_success, pos 1) ∷ []))
        ⊎ ((¬ ((sample : ℤ) × FreshSample from_iso db name now sample))
            × (r.exit ≡ pos 1)
            × (r.metrics ≡ (last_run, now) ∷ (freshness_success, pos 0) ∷ [])))

of_returned :
    {A B : Type 0} (r : Outcome A) (f : A → Outcome B) (b : B)
    → (r >>= f) ≡ returned b
    → (a : A) × (r ≡ returned a) × (f a ≡ returned b)
of_returned (returned a) f b h = (a, refl, h)
of_returned (raised e) f b h = cc

of_escapes :
    {A : Type 0} (r : Outcome A) (f : A → Outcome Sample)
    → escapes (r >>= f) ≡ true
    → (a : A) × (r ≡ returned a) × (escapes (f a) ≡ true)
of_escapes (returned a) f h = (a, refl, h)
of_escapes (raised e) f h = cc

sampled_same :
    (a b : ℤ) → ◌≡◌ {A = Outcome Sample} (returned (sampled a)) (returned (sampled b)) → a ≡ b
sampled_same a b h = cc

raised_sampled :
    (e : Failure) (a : ℤ) → ◌≡◌ {A = Outcome Sample} (raised e) (returned (sampled a)) → ⊥
raised_sampled e a h = cc

true_is_false : true ≡ false → ⊥
true_is_false h = cc

module _ (from_iso : Text → Option Moment) (db : Db) (name : Text) where
  abbrev latest : Outcome Sample
  latest = latest_sample from_iso db name

  only_answer :
      (ids : List Cell) (sample : ℤ)
      → db.systems name ≡ returned ids
      → sample_of_only from_iso db ids ≡ returned (sampled sample)
      → (created : Cell) × Answers db name created × Dates from_iso created sample
  only_answer [] sample e h = cc
  only_answer (id ∷ []) sample e h =
      let (created, read, dated) =
        of_returned (db.newest id) (sample_of from_iso) (sampled sample) h in
      (
        created,
        record { id = id; only = e; read = read },
        sample_of-Dates from_iso created sample dated,
      )
  only_answer (id ∷ id' ∷ ids) sample e h = cc

  latest-dated :
      (sample : ℤ)
      → latest ≡ returned (sampled sample)
      → (created : Cell) × Answers db name created × Dates from_iso created sample
  unfolding latest_sample
  latest-dated sample h =
      let (ids, e, rest) =
        of_returned (db.systems name) (sample_of_only from_iso db) (sampled sample) h in
      only_answer ids sample e rest

  latest-answered : (created : Cell) → Answers db name created → latest ≡ sample_of from_iso created
  unfolding latest_sample
  latest-answered created h = rw (h.only, h.read) refl

  only_odd :
      (ids : List Cell)
      → db.systems name ≡ returned ids
      → escapes (sample_of_only from_iso db ids) ≡ true
      → OddSample db name
  only_odd [] e h = cc
  only_odd (id ∷ []) e h =
      let (created, read, odd) = of_escapes (db.newest id) (sample_of from_iso) h in
      (created, record { id = id; only = e; read = read }, sample_of-IsOdd from_iso created odd)
  only_odd (id ∷ id' ∷ ids) e h = cc

  latest-OddSample : escapes latest ≡ true → OddSample db name
  unfolding latest_sample
  latest-OddSample h =
      let (ids, e, rest) = of_escapes (db.systems name) (sample_of_only from_iso db) h in
      only_odd ids e rest

  never_odd : escapes latest ≡ false → ¬ OddSample db name
  never_odd h (created, answers, odd) = true_is_false (
      sym (IsOdd-escapes from_iso created odd)
      ∙ ap escapes (sym (latest-answered created answers))
      ∙ h)

  never_fresh :
      (now : ℤ)
      → ((sample : ℤ) → latest ≡ returned (sampled sample) → ltbℤ (now +ℤ pos 60) sample ≡ true)
      → ¬ ((sample : ℤ) × FreshSample from_iso db name now sample)
  never_fresh now late (sample, ((created, answers, dated), fine)) = true_is_false (
      sym (
        late sample
          (latest-answered created answers ∙ Dates-sample_of from_iso created sample dated))
      ∙ fine)

  collect-Publishes :
      (now : ℤ) (o : Outcome Sample)
      → latest ≡ o
      → Publishes from_iso db name now (publish (collect now ((last_run, now) ∷ []) o))
  unfolding insert text_eq
  collect-Publishes now (raised e) h = (
    never_odd (rw h refl),
    inr (never_fresh now (λ sample k. elim (raised_sampled e sample (sym h ∙ k)) [ ]), refl, refl),
  )
  collect-Publishes now (returned attribute_error) h = latest-OddSample (rw h refl)
  collect-Publishes now (returned type_error) h = latest-OddSample (rw h refl)
  collect-Publishes now (returned (sampled sample)) h =
      elim (Bool-cases (ltbℤ (now +ℤ pos 60) sample)) [
        | inl late ↦ rw late (
          never_odd (rw h refl),
          inr (
            never_fresh now (λ other k. rw⁻¹ (sampled_same sample other (sym h ∙ k)) late),
            refl,
            refl,
          ),
        )
        | inr fine ↦
            rw fine (never_odd (rw h refl), inl (sample, (latest-dated sample h, fine), refl, refl))
      ]

-- Whatever the database answers, for values of any type: a run escapes with an exception, and
-- publishes nothing, exactly where one system has the name and its newest sample is no text and counts
-- as true. Otherwise it returns 0 and publishes the time, the sample and success exactly where one
-- system has the name, its newest sample is a text that can be read as a date, or is missing, empty or
-- zero, which stands for the time 0, and it lies at most a minute ahead; and else it returns 1 and
-- publishes the time and a failure without a sample.
pub main-Publishes :
    (from_iso : Text → Option Moment) (db : Db) (name : Text) (now : ℤ)
    → Publishes from_iso db name now (main from_iso db name now)
unfolding main
main-Publishes from_iso db name now =
    collect-Publishes from_iso db name now (latest_sample from_iso db name) refl
