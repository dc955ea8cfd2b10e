-- ===== src/Runner/Github.antt =====
-- The methods of `GitHub`. Every response records the rate limit that it names.
use pi_homelab.Base.{ℕ, ◌+◌, ◌/◌, ◌^◌, Bool, false, not, ◌||◌, ◌&&◌, Option, none, some, List, []}
use pi_homelab.Base.{◌∷◌, ◌==◌, nat_eq, if◌then◌else◌}
use pi_homelab.Base.Text.{Text}
use pi_homelab.Base.Dict.{lookup, insert}
use pi_homelab.Base.Int.{ℤ}
use pi_homelab.Runner.World.{Call, Counters, RunnerInfo, Reply, broken, reply, World, Supervisor, M}
use pi_homelab.Runner.World.{◌>>=◌, ◌>>◌, pure, throw, log, count, http_error}

pub record Response (A : Type 0) : Type 0 where
  pub status_code : ℕ
  pub body : A

abbrev pub with_rate : Option ℤ → Counters → Counters
with_rate none c = c
with_rate (some rem) c = record c { github_api_rate_remaining = rem }

-- The request and `_record_rate`.
abbrev pub received : {A : Type 0} → Reply A → M (Response A)
received broken = throw http_error
received (reply status_code rate body) =
    count (with_rate rate) >> pure (record { status_code = status_code; body = body })

abbrev pub request : {A : Type 0} → Call → (Supervisor → Reply A) → M (Response A)
request c answer s = received (answer s) (log c s)

-- `r.status_code in (401, 403)`
abbrev pub is_denied : ℕ → Bool
is_denied code = code == 401 || code == 403

abbrev pub count_denied : Counters → Counters
count_denied c = record c { github_api_auth_failures_total = c.github_api_auth_failures_total + 1 }

-- `failures[status] = failures.get(status, 0) + 1`
abbrev pub count_failure : ℕ → Counters → Counters
count_failure code c = record c {
  jit_config_failures =
      insert code (elim (lookup code c.jit_config_failures) [ none ↦ 1 | some n ↦ n + 1 ])
        c.jit_config_failures;
}

module _ (w : World) where
  unfoldable pub smoke_repo : Text → M Bool
  smoke_repo repo = do
    r ← request (Call.get_repo repo) (λ s. w.other s.trace (Call.get_repo repo))
    if is_denied r.status_code
        then (count count_denied >> pure false)
        else pure (r.status_code == 200)

  unfoldable pub smoke_from : List Text → Bool → M Bool
  unfolding smoke_repo
  smoke_from [] ok = pure ok
  smoke_from (repo ∷ repos) ok = smoke_repo repo >>= λ fine. smoke_from repos (ok && fine)

  unfoldable pub generate_jit_config : Text → M (Option Text)
  generate_jit_config repo = do
    r ← request (Call.generate_jit repo) (λ s. w.jit_of s.trace repo)
    if is_denied r.status_code
        then (count count_denied >> pure none)
        else if not (r.status_code == 200 || r.status_code == 201)
        then (count (count_failure r.status_code) >> pure none)
        else (λ s.
            (count (λ c. record c { jit_last_success_ts = w.now s.trace / 10 ^ 9 }) >> pure r.body)
              s)

  unfoldable pub list_runners : Text → M (List RunnerInfo)
  list_runners repo = do
    r ← request (Call.list_runners repo) (λ s. w.runners_of s.trace repo)
    if is_denied r.status_code
        then (count count_denied >> pure [])
        else if not (r.status_code == 200)
        then pure []
        else pure r.body

  unfoldable pub queued_jobs : Text → M ℕ
  queued_jobs repo = do
    r ← request (Call.queued_jobs repo) (λ s. w.queued_of s.trace repo)
    pure (if r.status_code == 200 then r.body else 0)

  unfoldable pub delete_runner : Text → ℕ → M (Unit {0})
  delete_runner repo id = do
    r ← request (Call.delete_runner repo id) (λ s. w.other s.trace (Call.delete_runner repo id))
    pure tt
