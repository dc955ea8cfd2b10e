-- ===== src/Runner/Reap/Offline.antt =====
-- Which registered runners are deleted, when GitHub answers.
use pi_homelab.Base.{
  ◌≡◌, refl, ◌≢◌, ◌∙◌, inl, inr, Bool-cases, ℕ, Bool, true, false, not, ◌&&◌, Option, none, some,
  List, [],
}
use pi_homelab.Base.{◌∷◌, ◌==◌, contains, distinct, filter, nat_eq, if◌then◌else◌, arith}
use pi_homelab.Base.Text.{Text}
use pi_homelab.Base.Dict.{lookup, insert, lookup-insert, lookup-erase}
use pi_homelab.Runner.World.{Call, Config, RunnerInfo, World, Supervisor, Trace, broken, return}
use pi_homelab.Runner.Github.{delete_runner}
use pi_homelab.Runner.Reap.{is_offline, is_past, first_seen, reap_runner, reap_from}
use pi_homelab.Runner.Reap.{reap_offline_runners}

-- GitHub answers each request to delete.
abbrev pub Answers : World → Type 0
Answers w = (t : Trace) (c : Call) → w.other t c ≢ broken

-- Offline since the grace or longer, as known before.
abbrev pub is_stale : Config → ℕ → Supervisor → RunnerInfo → Bool
is_stale cfg now s rn = is_offline rn && is_past cfg now (first_seen rn.id now s)

-- What is known of the runner afterwards: nothing if it is deleted or not offline.
abbrev pub settled : Config → ℕ → Supervisor → RunnerInfo → Option ℕ
settled cfg now s rn =
    if is_offline rn && not (is_stale cfg now s rn) then some (first_seen rn.id now s) else none

abbrev pub deletions : Text → List RunnerInfo → Trace → Trace
deletions repo [] t = t
deletions repo (rn ∷ rns) t = deletions repo rns (Call.delete_runner repo rn.id ∷ t)

abbrev pub ids : List RunnerInfo → List ℕ
ids [] = []
ids (rn ∷ rns) = rn.id ∷ ids rns

-- One runner: the call made, what is known of it, and what is known of the others, which stays.
abbrev Settles : Config → Text → ℕ → RunnerInfo → Supervisor → Supervisor → Type 0
Settles cfg repo now rn s s' =
    (s'.trace
      ≡ (if is_stale cfg now s rn then Call.delete_runner repo rn.id ∷ s.trace else s.trace))
    × ((id : ℕ)
        → lookup id s'.offline_since
          ≡ (if id == rn.id then settled cfg now s rn else lookup id s.offline_since))

-- What is known of a runner's id after all the runners are gone through.
abbrev pub known : Config → ℕ → Supervisor → List RunnerInfo → ℕ → Option ℕ
known cfg now s [] id = lookup id s.offline_since
known cfg now s (rn ∷ rns) id =
    let rest = known cfg now s rns id in if id == rn.id then settled cfg now s rn else rest

Agrees : ℕ → Supervisor → Supervisor → Type 0
Agrees id s s' = (j : ℕ) → (j == id) ≡ false → lookup j s'.offline_since ≡ lookup j s.offline_since

stale-Agrees :
    (cfg : Config) (now id : ℕ) (s s' : Supervisor) (rns : List RunnerInfo)
    → Agrees id s s'
    → contains (ids rns) id ≡ false
    → filter (is_stale cfg now s') rns ≡ filter (is_stale cfg now s) rns
unfolding Agrees
stale-Agrees cfg now id s s' [] h n = refl
stale-Agrees cfg now id s s' (rn ∷ rns) h n =
    ground (arith, stale-Agrees cfg now id s s' rns h, h rn.id)

known-Agrees :
    (cfg : Config) (now id : ℕ) (s s' : Supervisor) (rns : List RunnerInfo)
    → Agrees id s s'
    → contains (ids rns) id ≡ false
    → (j : ℕ) → (j == id) ≡ false
    → known cfg now s' rns j ≡ known cfg now s rns j
unfolding Agrees
known-Agrees cfg now id s s' [] h n j m = h j m
known-Agrees cfg now id s s' (rn ∷ rns) h n j m =
    ground (arith, known-Agrees cfg now id s s' rns h (ground arith) j m, h rn.id)

known-other :
    (cfg : Config) (now id : ℕ) (s : Supervisor) (rns : List RunnerInfo)
    → contains (ids rns) id ≡ false
    → known cfg now s rns id ≡ lookup id s.offline_since
known-other cfg now id s [] n = refl
known-other cfg now id s (rn ∷ rns) n = ground (arith, known-other cfg now id s rns)

module _ (w : World) (answers : Answers w) (cfg : Config) (repo : Text) (now : ℕ) where
  reap_runner-returns :
      (rn : RunnerInfo) (s : Supervisor) → (reap_runner w cfg repo now rn s).0 ≡ return tt
  unfolding reap_runner delete_runner
  reap_runner-returns rn s = ground (arith, answers s.trace (Call.delete_runner repo rn.id))

  reap_runner-Settles :
      (rn : RunnerInfo) (s : Supervisor)
      → Settles cfg repo now rn s (reap_runner w cfg repo now rn s).1
  unfolding reap_runner delete_runner
  reap_runner-Settles rn s =
      let d = s.offline_since in
      let first = first_seen rn.id now s in
      let fact = answers s.trace (Call.delete_runner repo rn.id) in
      (
        ground (arith, fact),
        λ id. ground (
          arith,
          fact,
          lookup-insert id rn.id first d,
          lookup-erase id rn.id d,
          lookup-erase id rn.id (insert rn.id first d),
        ),
      )

  Settles-Agrees :
      (rn : RunnerInfo) (s s' : Supervisor) → Settles cfg repo now rn s s' → Agrees rn.id s s'
  unfolding Agrees
  Settles-Agrees rn s s' (made, others) j m = others j ∙ rw m refl

  reap_from-returns :
      (runners : List RunnerInfo) (s : Supervisor)
      → (reap_from w cfg repo now runners s).0 ≡ return tt
  unfolding reap_from
  reap_from-returns [] s = refl
  reap_from-returns (rn ∷ rns) s = rw (reap_runner-returns rn s) (reap_from-returns rns _)

  reap_from-deletions :
      (runners : List RunnerInfo) (s : Supervisor)
      → distinct (ids runners) ≡ true
      → (reap_from w cfg repo now runners s).1.trace
        ≡ deletions repo (filter (is_stale cfg now s) runners) s.trace
  unfolding reap_from
  reap_from-deletions [] s h = refl
  reap_from-deletions (rn ∷ rns) s h =
      let s' = (reap_runner w cfg repo now rn s).1 in
      let (made, others) = reap_runner-Settles rn s in
      let agree = Settles-Agrees rn s s' (made, others) in
      let same = stale-Agrees cfg now rn.id s s' rns agree (ground arith) in
      rw (reap_runner-returns rn s, reap_from-deletions rns s' (ground arith), same, made)
        (ground arith)

  reap_from-known :
      (runners : List RunnerInfo) (s : Supervisor)
      → distinct (ids runners) ≡ true
      → (id : ℕ)
      → lookup id (reap_from w cfg repo now runners s).1.offline_since ≡ known cfg now s runners id
  unfolding reap_from
  reap_from-known [] s h id = refl
  reap_from-known (rn ∷ rns) s h id =
      let s' = (reap_runner w cfg repo now rn s).1 in
      let (made, others) = reap_runner-Settles rn s in
      let agree = Settles-Agrees rn s s' (made, others) in
      rw (reap_runner-returns rn s, reap_from-known rns s' (ground arith) id)
        (elim (Bool-cases (id == rn.id)) [
          | inl e ↦ (ground (arith, known-other cfg now id s' rns, others id))
          | inr e ↦ rw e (known-Agrees cfg now rn.id s s' rns agree (ground arith) id e)
        ])

-- If GitHub answers each request and the ids are distinct, exactly the runners that are offline and
-- were first seen so the grace ago are deleted, in their order; a deleted or not offline runner is
-- forgotten, another keeps the time of its first sight, and no other id is touched.
pub reap_offline_runners-deletions :
    (w : World) (cfg : Config) (repo : Text) (runners : List RunnerInfo) (s : Supervisor)
    → Answers w
    → distinct (ids runners) ≡ true
    → let now = w.now s.trace in
      let (r, s') = reap_offline_runners w cfg repo runners s in
      (r ≡ return tt)
      × (s'.trace ≡ deletions repo (filter (is_stale cfg now s) runners) s.trace)
      × ((id : ℕ) → lookup id s'.offline_since ≡ known cfg now s runners id)
unfolding reap_offline_runners
reap_offline_runners-deletions w cfg repo runners s answers h =
    let now = w.now s.trace in
    (
      reap_from-returns w answers cfg repo now runners s,
      reap_from-deletions w answers cfg repo now runners s h,
      reap_from-known w answers cfg repo now runners s h,
    )
