-- ===== src/NfsClient/Accepts.antt =====
-- The reports of the supervisor on the Mac are accepted on the Pi.
use pi_homelab.Base.{
  ap, ◌∙◌, leb, ◌&&◌, ◌≡◌, refl, ℕ, ◌+◌, ltb, ◌≤◌, ◌<◌, Bool, true, false, text_eq, nat_eq, arith,
}
use pi_homelab.Base.Text.{Text, nonempty, codes}
use pi_homelab.Base.Int.{◌-ℤ◌}
use pi_homelab.Base.Dict.{lookup}
use pi_homelab.Base.Json.{entries}
use pi_homelab.NfsMount.Decide.{
  MountState, healthy, hung, unknown, unmounted, Action, decide, is_healthy,
}
use pi_homelab.NfsClient.Render.{read_ok, dict_of, flag, says_healthy, metrics}
use pi_homelab.NfsClient.Samples.{read_ok_samples, read_ok_samples-metrics, both}
use pi_homelab.NfsMount.World.{World, Trace}
use pi_homelab.NfsMount.Supervise.{
  Export, srv, generated, History, Item, Clock, settle, attempt, visit,
}
use pi_homelab.NfsMount.Supervise.{observe, pass}
use pi_homelab.NfsMount.Report.{state_name, item_value, status}
use pi_homelab.NfsClient.Validity.{whole, states, fields_of, valid_item}
use pi_homelab.NfsClient.Validity.{valid_status}
use pi_homelab.Base.{contains, none, some}
use pi_homelab.Base.Json.{str}

-- The last good read lies not behind the time, and the last recovery succeeded or not.
abbrev pub IsTimely : ℕ → History → Type 0
IsTimely t h = (h.last_read_ok ≤ t) × (h.recovery_ok ≤ 1)

abbrev pub IsUntil : ℕ → Clock → Type 0
IsUntil t c = (c.wall_before ≤ t) × (c.wall_after ≤ t)

state_name-states : (s : MountState) → contains states (state_name s) ≡ true
unfolding text_eq
state_name-states healthy = refl
state_name-states hung = refl
state_name-states unknown = refl
state_name-states unmounted = refl

valid_item-item_value :
    (t : ℕ) (h : History) (item : Item)
    → IsTimely t h
    → (elim (fields_of (some (item_value h item))) [
      | none ↦ false
      | some d ↦ valid_item (whole t) d
    ])
      ≡ true
unfolding valid_item entries lookup text_eq
valid_item-item_value t h item (read, ok) = ground (arith, state_name-states item.state)

settle-IsTimely :
    (w : World) (t : ℕ) (c : Clock) (e : Export) (remote : Text) (h : History) (item : Item)
    (b : Bool) (trace : Trace)
    → IsTimely t h
    → IsUntil t c
    → IsTimely t (settle w c e remote h item b trace).0.0
unfolding settle
settle-IsTimely w t c e remote h item false trace p u = ground arith
settle-IsTimely w t c e remote h item true trace p u = ground arith

observe-IsTimely :
    (t : ℕ) (c : Clock) (h : History) (item : Item)
    → IsTimely t h
    → IsUntil t c
    → IsTimely t (observe c item h)
unfolding observe
observe-IsTimely t c h item p u = ground arith

attempt-IsTimely :
    (w : World) (t : ℕ) (c : Clock) (e : Export) (source : Text) (h : History) (item : Item)
    (action : Action) (trace : Trace)
    → IsTimely t h
    → IsUntil t c
    → IsTimely t (attempt w c e source h item action trace).0.0
unfolding attempt
attempt-IsTimely w t c e source h item action trace p u =
    settle-IsTimely w t c e _
      (record h { attempt_at = c.mono_after; recoveries = h.recoveries + 1 }) item _ _ p u

visit-IsTimely :
    (w : World) (t : ℕ) (c : Clock) (e : Export) (source : Text) (h : History) (item : Item)
    (trace : Trace)
    → IsTimely t h
    → IsUntil t c
    → IsTimely t (visit w c e source h item trace).0.0
unfolding visit
visit-IsTimely w t c e source h item trace p u =
    let h' = observe c item h in
    let action =
      decide item.state h'.failures (c.mono_before -ℤ h.attempt_at) (nonempty source)
        (ltb 0 h'.last_read_ok) in
    let seen = observe-IsTimely t c h item p u in
    ground (arith, seen, attempt-IsTimely w t c e source h' item action trace seen u)

valid_status-status :
    (t now : ℕ) (h k : History) (a b : Item)
    → 0 < t
    → t ≤ now
    → IsTimely t h
    → IsTimely t k
    → valid_status (status t ((h, a), (k, b))) now ≡ true
unfolding valid_status status entries lookup text_eq
valid_status-status t now h k a b pos le p q =
    ground (arith, valid_item-item_value t h a p, valid_item-item_value t k b q)

-- If the clock of the Mac read no more than the time of the report during the pass, the time is not 0,
-- and the times of the histories lie not behind it, the report of every pass is valid on the Pi from
-- its time on.
pub valid_status-status-pass :
    (w : World) (c d : Clock) (h k : History) (trace : Trace) (t now : ℕ)
    → 0 < t
    → t ≤ now
    → IsTimely t h
    → IsTimely t k
    → IsUntil t c
    → IsUntil t d
    → valid_status (status t (pass w c d (h, k) trace).0) now ≡ true
unfolding pass
valid_status-status-pass w c d h k trace t now pos le p q u v =
    valid_status-status t now _ _ _ _ pos le (visit-IsTimely w t c srv _ h _ _ p u)
      (visit-IsTimely w t d generated _ k _ _ q v)

says_healthy-state_name : (s : MountState) → says_healthy (some (str (state_name s))) ≡ is_healthy s
unfolding text_eq
says_healthy-state_name healthy = refl
says_healthy-state_name hung = refl
says_healthy-state_name unknown = refl
says_healthy-state_name unmounted = refl

read_ok-srv :
    (t now : ℕ) (h k : History) (a b : Item)
    → read_ok now (dict_of (status t ((h, a), (k, b)))) (codes "srv")
      ≡ flag (is_healthy a.state && leb now (t + 600))
unfolding read_ok status entries lookup text_eq
read_ok-srv t now h k a b =
    ap (λ x. flag (x && leb now (t + 600))) (says_healthy-state_name a.state)

read_ok-generated :
    (t now : ℕ) (h k : History) (a b : Item)
    → read_ok now (dict_of (status t ((h, a), (k, b)))) (codes "generated")
      ≡ flag (is_healthy b.state && leb now (t + 600))
unfolding read_ok status entries lookup text_eq
read_ok-generated t now h k a b =
    ap (λ x. flag (x && leb now (t + 600))) (says_healthy-state_name b.state)

-- If the clock of the Mac read no more than the time of the report during the pass, the time is not 0,
-- and the times of the histories lie not behind it, then from that time on the Pi shows an export as
-- read exactly where the pass left it healthy and the report is at most 600 seconds old.
pub read_ok_samples-pass :
    (w : World) (c d : Clock) (h k : History) (trace : Trace) (t now : ℕ)
    → 0 < t
    → t ≤ now
    → IsTimely t h
    → IsTimely t k
    → IsUntil t c
    → IsUntil t d
    → let r = (pass w c d (h, k) trace).0 in
      read_ok_samples (metrics (status t r) now)
      ≡ both
          (is_healthy r.0.1.state && leb now (t + 600))
          (is_healthy r.1.1.state && leb now (t + 600))
read_ok_samples-pass w c d h k trace t now pos le p q u v =
    let r = (pass w c d (h, k) trace).0 in
    let valid = valid_status-status-pass w c d h k trace t now pos le p q u v in
    read_ok_samples-metrics (status t r) now valid
    ∙ rw
        (read_ok-srv t now r.0.0 r.1.0 r.0.1 r.1.1, read_ok-generated t now r.0.0 r.1.0 r.0.1 r.1.1)
        refl
