-- ===== src/RunnerMetrics/Published.antt =====
-- The metrics of a status that the supervisor on the Mac wrote.
use pi_homelab.Base.{◌≡◌, refl, ap, ℕ, ◌≤◌, ◌<◌, false, none, some}
use pi_homelab.Base.{List, [], ◌∷◌, ◌++◌, length, text_eq, arith}
use pi_homelab.Base.Text.{Text, codes}
use pi_homelab.Base.Dict.{Dict, lookup}
use pi_homelab.Base.Int.{ℤ, pos, ltbℤ, ◌-ℤ◌}
use pi_homelab.Base.Decimal.{decimal, show}
use pi_homelab.Base.Unlines.{unlines}
use pi_homelab.Base.Json.{Loaded, loaded, loaded_object, Value, entries, object_of, int_of}
use pi_homelab.Base.Json.Digits.{int_of_text-decimal, strip-decimal}
use pi_homelab.Base.Metrics.{num, gauge, single, label, unquoted}
use pi_homelab.Base.Result.{ok}
use pi_homelab.Base.Result.{contents}
use pi_homelab.Runner.World.{RepoStatus, Status}
use pi_homelab.Runner.Report.{status_value, failure_fields, repo_value, repo_fields, heartbeat_text}
use pi_homelab.RunnerMetrics.Inputs.{read_heartbeat, read_status, heartbeat_of, is_stale, is_zero}
use pi_homelab.RunnerMetrics.Series.{Series, status_series, rebuild_series, repo_series}
use pi_homelab.RunnerMetrics.Render.{dict_at}
use pi_homelab.RunnerMetrics.Render.{series_lines, samples_of, jit_lines, info_num, repo_lines}
use pi_homelab.RunnerMetrics.Render.{version_lines, body_lines, head_lines, render}
use pi_homelab.RunnerMetrics.Expected.{counts_of, numbered, entry_samples, failure_lines}
use pi_homelab.RunnerMetrics.Expected.{repo_numbers, repo_families, status_lines}

abbrev fields_of : Status → Dict Text Value
fields_of st = object_of (some (status_value st))

series_lines-status :
    (st : Status)
    → series_lines (fields_of st) status_series ≡ ok (numbered status_series (counts_of st))
unfolding series_lines status_value object_of num int_of lookup text_eq
series_lines-status st = refl

samples_of-failures :
    (d : Dict ℕ ℕ)
    → samples_of (codes "status") (λ v. num (some v)) (entries (failure_fields d))
      ≡ ok (entry_samples (codes "status") decimal (λ n. n) d)
unfolding samples_of failure_fields entries num int_of show
samples_of-failures [] = refl
samples_of-failures ((code, n) ∷ d) = rw (samples_of-failures d) refl

samples_of-repos :
    (key : Text) (number : RepoStatus → ℕ) (d : Dict Text RepoStatus)
    → ((p : RepoStatus) → info_num key (repo_value p) ≡ ok (pos (number p)))
    → samples_of (codes "repo") (info_num key) (entries (repo_fields d))
      ≡ ok (entry_samples (codes "repo") (λ r. r) number d)
unfolding samples_of repo_fields entries show
samples_of-repos key number [] h = refl
samples_of-repos key number ((repo, p) ∷ d) h = rw (h p, samples_of-repos key number d h) refl

-- Each of the metrics reads its number of a repository.
abbrev Reads : List Series → List (RepoStatus → ℕ) → Type 0
Reads (s ∷ ss) (number ∷ numbers) =
    ((p : RepoStatus) → info_num s.key (repo_value p) ≡ ok (pos (number p))) × Reads ss numbers
Reads [] [] = Unit {0}
Reads _ _ = ⊥

repo_lines-families :
    (d : Dict Text RepoStatus) (ss : List Series) (numbers : List (RepoStatus → ℕ))
    → Reads ss numbers
    → repo_lines (entries (repo_fields d)) ss ≡ ok (repo_families d ss numbers)
unfolding repo_lines
repo_lines-families d [] [] h = refl
repo_lines-families d (s ∷ ss) (number ∷ numbers) (h, hs) =
    rw (samples_of-repos s.key number d h, repo_lines-families d ss numbers hs) refl
repo_lines-families d [] (number ∷ numbers) h = elim h [ ]
repo_lines-families d (s ∷ ss) [] h = elim h [ ]

repo_series-Reads : Reads repo_series repo_numbers
unfolding repo_value entries num int_of lookup text_eq
repo_series-Reads = (λ p. refl, (λ p. refl, (λ p. refl, (λ p. refl, (λ p. refl, tt)))))

jit_lines-status :
    (st : Status) → jit_lines (fields_of st) ≡ ok (failure_lines st.counters.jit_config_failures)
unfolding jit_lines status_value object_of entries lookup text_eq
jit_lines-status st = rw (samples_of-failures st.counters.jit_config_failures) refl

repo_lines-status :
    (st : Status)
    → repo_lines (dict_at (codes "repos") (fields_of st)) repo_series
      ≡ ok (repo_families st.repos repo_series repo_numbers)
unfolding status_value object_of entries lookup text_eq
repo_lines-status st = repo_lines-families st.repos repo_series repo_numbers repo_series-Reads

version_lines-status :
    (loads : Text → Loaded) (shown : Value → Text) (st : Status)
    → version_lines loads shown (fields_of st)
      ≡ single gauge
          (codes "gh_runner_version_info")
          (codes "Constant 1; labels the pinned runner version.")
          (label (codes "version") (unquoted st.runner_version))
          (pos 1)
unfolding version_lines status_value object_of entries lookup text_eq
version_lines-status loads shown st = refl

series_lines-none :
    series_lines [] rebuild_series ≡ ok (numbered rebuild_series (pos 0 ∷ pos 0 ∷ pos 0 ∷ []))
unfolding series_lines num lookup
series_lines-none = refl

body_lines-ok :
    (loads : Text → Loaded) (shown : Value → Text) (status : Dict Text Value)
    (counts version rebuilt jit repos : List Text)
    → series_lines status status_series ≡ ok counts
    → version_lines loads shown status ≡ version
    → series_lines [] rebuild_series ≡ ok rebuilt
    → jit_lines status ≡ ok jit
    → repo_lines (dict_at (codes "repos") status) repo_series ≡ ok repos
    → body_lines loads shown status none ≡ ok (counts ++ (version ++ (rebuilt ++ (jit ++ repos))))
unfolding body_lines
body_lines-ok loads shown status counts version rebuilt jit repos a b c d e =
    rw (a, c, d, e) (ap (λ lines. ok (counts ++ (lines ++ (rebuilt ++ (jit ++ repos))))) b)

body_lines-status :
    (loads : Text → Loaded) (shown : Value → Text) (st : Status)
    → body_lines loads shown (fields_of st) none ≡ ok (status_lines st)
unfolding status_lines
body_lines-status loads shown st =
    body_lines-ok loads shown (fields_of st) _ _ _ _ _ (series_lines-status st)
      (version_lines-status loads shown st) series_lines-none (jit_lines-status st)
      (repo_lines-status st)

read_heartbeat-decimal :
    (n : ℕ) → length (decimal n) ≤ 4300 → read_heartbeat (contents (decimal n)) ≡ ok (pos n)
unfolding read_heartbeat num int_of
read_heartbeat-decimal n h = ground (arith, strip-decimal n, int_of_text-decimal n h)

heartbeat_of-known : (n : ℕ) (d : Dict Text Value) → 0 < n → heartbeat_of (pos n) d ≡ ok (pos n)
unfolding heartbeat_of
heartbeat_of-known n d h = ground arith

is_zero-pos : (n : ℕ) → 0 < n → is_zero (pos n) ≡ false
is_zero-pos n h = ground arith

is_stale-known :
    (n : ℕ) (stale_seconds now : ℤ)
    → 0 < n
    → is_stale (pos n) stale_seconds now ≡ ltbℤ stale_seconds (now -ℤ pos n)
unfolding is_stale
is_stale-known n stale_seconds now h = rw (is_zero-pos n h) refl

read_status-known :
    (loads : Text → Loaded) (text : Text) (v : Value)
    → loads text ≡ loaded v
    → read_status loads (contents text) ≡ ok (object_of (some v))
unfolding read_status loaded_object
read_status-known loads text v h = rw h refl

-- For a status that the supervisor wrote, with its heartbeat as a positive number that Python still
-- reads, the metrics show its time, whether it is more than the threshold ago, and each of the
-- status's numbers, failures and repositories under its own metric.
pub render-status :
    (loads : Text → Loaded) (shown : Value → Text) (text : Text) (st : Status)
    (stale_seconds now : ℤ)
    → loads text ≡ loaded (status_value st)
    → 0 < st.supervisor_heartbeat_ts
    → length (decimal st.supervisor_heartbeat_ts) ≤ 4300
    → render loads shown (contents text) (contents (heartbeat_text st)) stale_seconds now none
      ≡ ok (
          unlines (
            head_lines now
              (pos st.supervisor_heartbeat_ts)
              (ltbℤ stale_seconds (now -ℤ pos st.supervisor_heartbeat_ts))
            ++ status_lines st))
unfolding render
render-status loads shown text st stale_seconds now h p l =
    rw
      (
        read_heartbeat-decimal st.supervisor_heartbeat_ts l,
        read_status-known loads text _ h,
        heartbeat_of-known st.supervisor_heartbeat_ts (fields_of st) p,
        body_lines-status loads shown st,
        is_stale-known st.supervisor_heartbeat_ts stale_seconds now p,
      )
      refl
