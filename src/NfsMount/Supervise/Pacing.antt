-- ===== src/NfsMount/Supervise/Pacing.antt =====
-- When the loop acts on a share, and how often.
use pi_homelab.Base.{ℕ, ◌+◌, ◌≤◌, ◌<◌, ◌≡◌, ◌≢◌, ◌⊎◌, inl, inr, refl, Bool, true, false, arith}
use pi_homelab.Base.{ltb, if◌then◌else◌}
use pi_homelab.Base.{Bool-cases, ◌++◌}
use pi_homelab.Base.Text.{codes, Text, nonempty}
use pi_homelab.Base.Int.{ℤ, ◌-ℤ◌, ◌≤ℤ◌}
use pi_homelab.NfsMount.Decide.{
  MountState, healthy, hung, unknown, unmounted, is_hung, is_healthy, Action, decide, pause,
}
use pi_homelab.NfsMount.World.{World, Trace}
use pi_homelab.NfsMount.Recovery.{recover_with_worker}
use pi_homelab.NfsMount.Supervise.{
  Export, target_of, remote_of, Item, History, Clock, observe, settle, attempt, visit,
}
use pi_homelab.NfsMount.Supervise.{is_none}

-- What justifies an attempt on a share.
pub record IsDue (c : Clock) (source : Text) (h : History) (item : Item) : Type 0 where
  pub reachable : nonempty source ≡ true
  pub paused : pause ≤ℤ c.mono_before -ℤ h.attempt_at
  pub broken :
      (item.state ≡ unmounted) ⊎ ((item.state ≡ hung) × (1 ≤ h.failures) × (0 < h.last_read_ok))

-- Nothing was done: no command was run, the attempts and the outcome of the last one are what they
-- were, and only the hung looks in a row and the last good read are kept up.
pub record IsIdle (c : Clock) (h : History) (item : Item) (t : Trace) (r : (History × Item) × Trace)
    : Type 0 where
  pub same_trace : r.1 ≡ t
  pub same_item : r.0.1 ≡ item
  pub same_attempt : r.0.0.attempt_at ≡ h.attempt_at
  pub same_recoveries : r.0.0.recoveries ≡ h.recoveries
  pub same_recovery_ok : r.0.0.recovery_ok ≡ h.recovery_ok
  pub looks :
      ((item.state ≡ hung) × (r.0.0.failures ≡ h.failures + 1))
      ⊎ ((item.state ≢ hung) × (r.0.0.failures ≡ 0))
  pub read :
      ((item.state ≡ healthy) × (r.0.0.last_read_ok ≡ c.wall_before))
      ⊎ ((item.state ≢ healthy) × (r.0.0.last_read_ok ≡ h.last_read_ok))

-- One attempt was made and recorded.
pub record IsAttempt (c : Clock) (h : History) (r : (History × Item) × Trace) : Type 0 where
  pub stamped : r.0.0.attempt_at ≡ c.mono_after
  pub counted : r.0.0.recoveries ≡ h.recoveries + 1
  pub flag : r.0.0.recovery_ok ≤ 1

decide_due :
    (state : MountState) (failures : ℕ) (elapsed : ℤ) (reachable ever : Bool)
    → is_none (decide state failures elapsed reachable ever) ≡ false
    → (reachable ≡ true)
      × (pause ≤ℤ elapsed)
      × ((state ≡ unmounted) ⊎ ((state ≡ hung) × (2 ≤ failures) × (ever ≡ true)))
unfolding decide
decide_due state failures elapsed reachable ever h = ground arith

-- What the look itself keeps up.
looks_cases :
    (state : MountState) (failures : ℕ)
    → ((state ≡ hung) × ((if is_hung state then failures + 1 else 0) ≡ failures + 1))
      ⊎ ((state ≢ hung) × ((if is_hung state then failures + 1 else 0) ≡ 0))
looks_cases hung failures = inl (refl, refl)
looks_cases healthy failures = inr (ground arith, refl)
looks_cases unknown failures = inr (ground arith, refl)
looks_cases unmounted failures = inr (ground arith, refl)

read_cases :
    (state : MountState) (now last : ℕ)
    → ((state ≡ healthy) × ((if is_healthy state then now else last) ≡ now))
      ⊎ ((state ≢ healthy) × ((if is_healthy state then now else last) ≡ last))
read_cases healthy now last = inl (refl, refl)
read_cases hung now last = inr (ground arith, refl)
read_cases unknown now last = inr (ground arith, refl)
read_cases unmounted now last = inr (ground arith, refl)

module _ (w : World) where
  settle-history :
      (c : Clock) (e : Export) (remote : Text) (h : History) (item : Item) (mounted : Bool)
      (t : Trace)
      → ((settle w c e remote h item mounted t).0.0.attempt_at ≡ h.attempt_at)
        × ((settle w c e remote h item mounted t).0.0.recoveries ≡ h.recoveries)
        × ((settle w c e remote h item mounted t).0.0.recovery_ok ≤ 1)
  unfolding settle
  settle-history c e remote h item false t = (refl, refl, omega arith)
  settle-history c e remote h item true t = (refl, refl, ground arith)

  attempt-IsAttempt :
      (c : Clock) (e : Export) (source : Text) (h : History) (item : Item) (action : Action)
      (t : Trace)
      → IsAttempt c h (attempt w c e source h item action t)
  unfolding attempt
  attempt-IsAttempt c e source h item action t =
      let (mounted, t') =
        recover_with_worker w (source ++ codes ":" ++ remote_of e) (target_of e) action t in
      let (a, b, d) =
        settle-history c e (source ++ codes ":" ++ remote_of e)
          (record h { attempt_at = c.mono_after; recoveries = h.recoveries + 1 }) item mounted t' in
      record { stamped = a; counted = b; flag = d }

  -- A visit of the loop either runs no command and leaves the report of the share, the time and the
  -- number of the attempts and the outcome of the last one alone, counts one more look in a row if the
  -- share hangs and none if not, and notes the time of the last good read if it is healthy; or it makes
  -- one attempt, which is due: a source answers, the last attempt is at least 300 seconds ago, and the
  -- share is unmounted, or hangs in the second look in a row after a read that once succeeded.
  pub visit_paced :
      (c : Clock) (e : Export) (source : Text) (h : History) (item : Item) (t : Trace)
      → IsIdle c h item t (visit w c e source h item t)
        ⊎ (IsDue c source h item × IsAttempt c h (visit w c e source h item t))
  unfolding visit observe
  visit_paced c e source h item t = elim (Bool-cases (is_none action)) [
    | inl idle ↦ inl (record {
      same_trace = rw idle;
      same_item = rw idle;
      same_attempt = rw idle;
      same_recoveries = rw idle;
      same_recovery_ok = rw idle;
      looks = rw idle (looks_cases item.state h.failures);
      read = rw idle (read_cases item.state c.wall_before h.last_read_ok);
    })
    | inr acts ↦
        let a = attempt-IsAttempt c e source (observe c item h) item action t in
        inr (due acts, rw acts (record { stamped = a.stamped; counted = a.counted; flag = a.flag }))
  ]
    where
      action : Action
      action =
          decide item.state (observe c item h).failures (c.mono_before -ℤ h.attempt_at)
            (nonempty source) (ltb 0 (observe c item h).last_read_ok)

      due : is_none action ≡ false → IsDue c source h item
      due acts = ground (
        arith,
        decide_due item.state (observe c item h).failures (c.mono_before -ℤ h.attempt_at)
            (nonempty source) (ltb 0 (observe c item h).last_read_ok) acts,
      )
