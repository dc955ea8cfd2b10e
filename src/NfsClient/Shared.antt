-- ===== src/NfsClient/Shared.antt =====
-- The report that the supervisor on the Mac publishes in the shared file, as the Pi reads it there.
use pi_homelab.Base.{ap, ◌∙◌, ◌≡◌, ℕ, ◌+◌, ◌≤◌, ◌<◌, leb, ◌&&◌, ◌==◌, true, false, text_eq}
use pi_homelab.Base.{List, Option, some}
use pi_homelab.Base.Text.{Text}
use pi_homelab.Base.Dict.{lookup}
use pi_homelab.Base.Json.{Value}
use pi_homelab.Base.Disk.{Files, Faults, start}
use pi_homelab.NfsMount.Decide.{is_healthy}
use pi_homelab.NfsMount.World.{World, Trace}
use pi_homelab.NfsMount.Supervise.{History, Item, Clock, pass}
use pi_homelab.NfsMount.Report.{status}
use pi_homelab.NfsMount.Publish.{publish_pass, status_file, shared_status}
use pi_homelab.NfsMount.Publish.Safe.{text_of}
use pi_homelab.NfsMount.Publish.Sure.{lookup-publish_pass_sure}
use pi_homelab.NfsClient.Render.{render, metrics}
use pi_homelab.NfsClient.Samples.{read_ok_samples, both}
use pi_homelab.NfsClient.Accepts.{IsTimely, IsUntil, read_ok_samples-pass}
use pi_homelab.NfsClient.Main.{main, value_of, value_or_null}

module _ (dump : Value → List Text) (loads : Text → Option Value) (show : Value → Text)
    (local_temporary shared_temporary : Text) where
  -- The report of a pass is what `main` on the Pi renders, and its samples.
  abbrev pub IsShown : ℕ → ℕ → (History × Item) × (History × Item) → Option Text → Type 0
  IsShown t now r held =
      (main show loads held now ≡ render show (status t r) now)
      × (read_ok_samples (metrics (value_of loads held) now)
          ≡ both (is_healthy r.0.1.state && leb now (t + 600))
              (is_healthy r.1.1.state && leb now (t + 600)))

  -- A pass inspects the mounts, recovers them and publishes the report of the time t. If no call of the
  -- publication fails, `json.loads` reads back the report, the temporary files have names of their own,
  -- the clock of the Mac read no more than t during the pass, t is not 0 and the times of the histories
  -- lie not behind it, then from t on main on the Pi prints the metrics of that report, and it shows an
  -- export as read exactly where the pass left it healthy and the report is at most 600 seconds old.
  pub main-publish_pass :
      (faults : Faults) (fs : Files) (w : World) (c d : Clock) (h k : History) (trace : Trace)
      (t now : ℕ)
      → ((n : ℕ) → faults.succeeds n ≡ true)
      → (let v = status t (pass w c d (h, k) trace).0 in loads (text_of dump v) ≡ some v)
      → status_file == local_temporary ≡ false
      → shared_status == local_temporary ≡ false
      → shared_status == shared_temporary ≡ false
      → 0 < t
      → t ≤ now
      → IsTimely t h
      → IsTimely t k
      → IsUntil t c
      → IsUntil t d
      → let r = (pass w c d (h, k) trace).0 in
        IsShown t now r (
          lookup shared_status
            (publish_pass dump loads faults local_temporary shared_temporary
              (status t r)
              (start fs)).disk.files)
  unfolding main
  main-publish_pass faults fs w c d h k trace t now sure back local apart shared pos le p q u v =
      let r = (pass w c d (h, k) trace).0 in
      let held =
        lookup-publish_pass_sure dump loads faults sure local_temporary shared_temporary
          (status t r) fs back local apart shared in
      let same : value_of loads (
            lookup shared_status
              (publish_pass dump loads faults local_temporary shared_temporary (status t r)
                (start fs)).disk.files)
          ≡ status t r =
        ap (value_of loads) held ∙ ap value_or_null back in
      (
        ap (λ x. render show x now) same,
        ap (λ x. read_ok_samples (metrics x now)) same
            ∙ read_ok_samples-pass w c d h k trace t now pos le p q u v,
      )
