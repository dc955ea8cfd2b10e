-- ===== src/NfsMount/Children/Bounded.antt =====
-- Never two children of the same command at once.
use pi_homelab.Base.{◌≡◌, refl, ℕ, suc, ◌≤◌, Bool, true, false, not, ◌&&◌, ◌||◌}
use pi_homelab.Base.{Option, none, some, List, [], ◌∷◌, ◌==◌, nat_eq, all, if◌then◌else◌, arith}
use pi_homelab.Base.{Bool-cases, inl, inr}
use pi_homelab.Base.{all_mono}
use pi_homelab.Base.Dict.{Dict, lookup, insert, lookup-insert}
use pi_homelab.NfsMount.World.{Completed}
use pi_homelab.NfsMount.Children.{Argv, argv_eq, Opened, process, os_error, Os, Table, empty, sweep}
use pi_homelab.NfsMount.Children.{await_child, start, unless_pending, count_call, run, run_all}

-- An ended process stays so, and a `communicate` that returns in time leaves its process ended.
pub record IsLawful (os : Os) : Type 0 where
  pub stays : (n p : ℕ) → os.exited n p ≡ true → os.exited (suc n) p ≡ true
  pub ends : (n p : ℕ) (c : Completed) → os.communicate n p ≡ some c → os.exited (suc n) p ≡ true
  pub dies : (n p : ℕ) → os.reaped n p ≡ true → os.exited (suc n) p ≡ true

abbrev pub is_held : Option ℕ → ℕ → Bool
is_held none p = false
is_held (some q) p = p == q

module _ (os : Os) where
  -- How many children of a command have not ended.
  unfoldable pub living : ℕ → Argv → List (Argv × ℕ) → ℕ
  living n k [] = 0
  living n k ((j, p) ∷ started) =
      let rest = living n k started in if k == j && not (os.exited n p) then suc rest else rest

  abbrev pub is_tracked : ℕ → Dict Argv ℕ → Argv × ℕ → Bool
  is_tracked n pending (k, p) = os.exited n p || is_held (lookup k pending) p

  pub record IsBounded (t : Table) : Type 0 where
    pub tracked : all (is_tracked t.calls t.pending) t.started ≡ true
    pub once : (k : Argv) → living t.calls k t.started ≤ 1

  lookup-sweep :
      (n p : ℕ) (k : Argv) (d : Dict Argv ℕ)
      → os.exited n p ≡ false
      → lookup k d ≡ some p
      → lookup k (sweep os n d) ≡ some p
  unfolding sweep lookup
  lookup-sweep n p k [] h e = cc
  lookup-sweep n p k ((j, q) ∷ d) h e = ground (arith, lookup-sweep n p k d h)

  of_is_held : (o : Option ℕ) (p : ℕ) → is_held o p ≡ true → o ≡ some p
  of_is_held none p h = cc
  of_is_held (some q) p h = ground arith

  is_tracked-sweep :
      (n : ℕ) (d : Dict Argv ℕ) (c : Argv × ℕ)
      → is_tracked n d c ≡ true
      → is_tracked n (sweep os n d) c ≡ true
  is_tracked-sweep n d (k, p) h = elim (Bool-cases (os.exited n p)) [
    | inl e ↦ ground arith
    | inr e ↦
        let held = of_is_held (lookup k d) p (ground arith) in
        ground (arith, lookup-sweep n p k d e held)
  ]

  living_none :
      (n : ℕ) (k : Argv) (d : Dict Argv ℕ) (started : List (Argv × ℕ))
      → lookup k d ≡ none
      → all (is_tracked n d) started ≡ true
      → living n k started ≡ 0
  unfolding living
  living_none n k d [] h t = refl
  living_none n k d ((j, p) ∷ started) h t = ground (arith, living_none n k d started h)

  module _ (laws : IsLawful os) where
    living_later :
        (n : ℕ) (k : Argv) (started : List (Argv × ℕ))
        → living (suc n) k started ≤ living n k started
    unfolding living
    living_later n k [] = omega arith
    living_later n k ((j, p) ∷ started) = ground (arith, living_later n k started, laws.stays n p)

    is_tracked_later :
        (n : ℕ) (d : Dict Argv ℕ) (c : Argv × ℕ)
        → is_tracked n d c ≡ true
        → is_tracked (suc n) d c ≡ true
    is_tracked_later n d (k, p) h = ground (arith, laws.stays n p)

    is_tracked-insert :
        (n q : ℕ) (command : Argv) (d : Dict Argv ℕ) (c : Argv × ℕ)
        → lookup command d ≡ none
        → is_tracked n d c ≡ true
        → is_tracked (suc n) (insert command q d) c ≡ true
    is_tracked-insert n q command d (k, p) e h =
        ground (arith, laws.stays n p, lookup-insert k command q d)

    IsBounded-swept :
        (t : Table) → IsBounded t → IsBounded (record t { pending = sweep os t.calls t.pending })
    IsBounded-swept t b = record {
      tracked =
          all_mono (is_tracked t.calls t.pending) _ t.started (is_tracked-sweep t.calls t.pending)
            b.tracked;
      once = b.once;
    }

    IsBounded-later : (t : Table) → IsBounded t → IsBounded (record t { calls = suc t.calls })
    IsBounded-later t b = record {
      tracked =
          all_mono (is_tracked t.calls t.pending) _ t.started (is_tracked_later t.calls t.pending)
            b.tracked;
      once = λ k. ground (arith, b.once k, living_later t.calls k t.started);
    }

    -- A child more, for a command that had none.
    IsBounded-started :
        (t : Table) (command : Argv) (p : ℕ) (pending : Dict Argv ℕ)
        → IsBounded t
        → lookup command t.pending ≡ none
        → all (is_tracked (suc t.calls) pending) t.started ≡ true
        → is_tracked (suc t.calls) pending (command, p) ≡ true
        → IsBounded
            (record { pending = pending; started = (command, p) ∷ t.started; calls = suc t.calls })
    unfolding living
    IsBounded-started t command p pending b e r h =
        let none_yet = living_none t.calls command t.pending t.started e b.tracked in
        record {
          tracked = ground arith;
          once = λ k. ground (arith, b.once k, living_later t.calls k t.started, none_yet);
        }

    IsBounded-await_child :
        (t : Table) (command : Argv) (p : ℕ) (o : Option Completed)
        → IsBounded t
        → lookup command t.pending ≡ none
        → os.communicate t.calls p ≡ o
        → IsBounded
            (count_call
              (await_child os command p (record t { started = (command, p) ∷ t.started }) o)).1
    unfolding await_child
    IsBounded-await_child t command p (some c) b e h =
        IsBounded-started t command p t.pending b e (IsBounded-later t b).tracked
          (ground (arith, laws.ends t.calls p c h))
    IsBounded-await_child t command p none b e h = elim (Bool-cases (os.reaped t.calls p)) [
      | inl r ↦ rw r (
          IsBounded-started t command p t.pending b e (IsBounded-later t b).tracked
            (ground (arith, laws.dies t.calls p r)))
      | inr r ↦ rw r (
          IsBounded-started t command p (insert command p t.pending) b e
            (all_mono (is_tracked t.calls t.pending) _ t.started
              (λ c. is_tracked-insert t.calls p command t.pending c e) b.tracked)
            (ground (arith, lookup-insert command command p t.pending)))
    ]

    IsBounded-start :
        (t : Table) (command : Argv) (o : Opened)
        → IsBounded t
        → lookup command t.pending ≡ none
        → IsBounded (count_call (start os command t o)).1
    unfolding start
    IsBounded-start t command (os_error message) b e = IsBounded-later t b
    IsBounded-start t command (process p) b e =
        IsBounded-await_child t command p (os.communicate t.calls p) b e refl

    IsBounded-unless_pending :
        (t : Table) (command : Argv) (o : Option ℕ)
        → IsBounded t
        → lookup command t.pending ≡ o
        → IsBounded (count_call (unless_pending os command t o)).1
    IsBounded-unless_pending t command none b e =
        IsBounded-start t command (os.popen t.calls command) b e
    IsBounded-unless_pending t command (some p) b e = IsBounded-later t b

    pub run-IsBounded : (command : Argv) (t : Table) → IsBounded t → IsBounded (run os command t).1
    unfolding run
    run-IsBounded command t b =
        let swept = record t { pending = sweep os t.calls t.pending } in
        IsBounded-unless_pending swept command (lookup command swept.pending) (IsBounded-swept t b)
          refl

    run_all-IsBounded :
        (commands : List Argv) (t : Table) → IsBounded t → IsBounded (run_all os commands t)
    unfolding run_all
    run_all-IsBounded [] t b = b
    run_all-IsBounded (command ∷ commands) t b =
        run_all-IsBounded commands (run os command t).1 (run-IsBounded command t b)

    empty-IsBounded : IsBounded empty
    unfolding living
    empty-IsBounded = record { tracked = refl; once = λ k. omega arith }

-- Whatever the system answers and whatever commands are run one after another, at most one child of
-- each command has not ended, if ended processes stay so and a communicate that returns in time
-- leaves its process ended.
pub run_all-living :
    (os : Os)
    → IsLawful os
    → (commands : List Argv) (k : Argv)
    → let t = run_all os commands empty in living os t.calls k t.started ≤ 1
run_all-living os laws commands k =
    (run_all-IsBounded os laws commands empty (empty-IsBounded os laws)).once k
