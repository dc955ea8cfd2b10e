-- ===== src/Beszel/Publish/Safe.antt =====
-- What others can read of the output while a run publishes, and what its exit status says of it.
use pi_homelab.Base.{Bool, [], ◌∷◌, ◌⊎◌, Option, none, some, ◌≡◌, refl, inl, inr}
use pi_homelab.Base.{◌==◌, text_eq, false}
use mathlib.Core.List.{append_assoc}
use pi_homelab.Base.Text.{Text}
use pi_homelab.Base.Dict.{Dict, lookup, insert}
use pi_homelab.Base.Int.{ℤ}
use pi_homelab.Base.Disk.{Files, Disk, Faults, Done, done, os_error, start}
use pi_homelab.Base.Disk.Whole.{Always, concat}
use pi_homelab.Base.Disk.Beside.{IsWhole}
use pi_homelab.Base.Disk.Removed.{LastFailed, IsEnded, IsRemoved, beside-IsRemoved}
use pi_homelab.Base.Disk.Beside.{write_all-IsWritten, keep-IsWritten, closed-IsWritten}
use pi_homelab.Beszel.{
  Db, Moment, Run, write_metrics, publish, collect, last_run, latest_sample, main,
}
use pi_homelab.Beszel.{freshness_success}
use pi_homelab.Base.Metrics.{one_if}
use pi_homelab.Beszel.Publish.{
  metric_texts, write_temporary, write_output, published, exit_of, main_run,
}

concat-metric_texts :
    (metrics : Dict Text ℤ) → concat (metric_texts metrics) ≡ write_metrics metrics
unfolding metric_texts write_metrics
concat-metric_texts [] = refl
concat-metric_texts ((name, value) ∷ metrics) = simp (append_assoc, concat-metric_texts metrics)

-- With an exit status the output is the text of the run, and no temporary file is left; without one
-- it is what it was, or the last call failed, the removal, after the move.
abbrev pub Ends :
    Faults → (path temporary : Text) → ℤ → Text → Option Text → Option ℤ × Disk → Type 0
Ends faults path temporary exit text old (some e, d) =
    (e ≡ exit) × (lookup path d.files ≡ some text) × (lookup temporary d.files ≡ none)
Ends faults path temporary exit text old (none, d) =
    (lookup path d.files ≡ old)
    ⊎ ((lookup path d.files ≡ some text) × (lookup temporary d.files ≡ none) × LastFailed faults d)

-- The same of a run, which may have escaped before it.
abbrev pub RunEnds :
    Faults → (path temporary : Text) → Files → Option Run → Option ℤ × Disk → Type 0
RunEnds faults path temporary fs none r = r ≡ (none, start fs)
RunEnds faults path temporary fs (some run) r =
    Always (λ gs. IsWhole (lookup path fs) run.output (lookup path gs)) r.1.seen
    × Ends faults path temporary run.exit run.output (lookup path fs) r

module _ (faults : Faults) (path temporary : Text) (apart : path == temporary ≡ false) where
  write_output-IsRemoved :
      (metrics : Dict Text ℤ) (fs : Files)
      → IsRemoved faults path temporary
          (lookup path fs)
          (IsWhole (lookup path fs) (write_metrics metrics))
          (write_metrics metrics)
          (write_output faults path temporary metrics (start fs))
  unfolding write_output
  write_output-IsRemoved metrics fs =
      let text = write_metrics metrics in
      let old = lookup path fs in
      let Q = IsWhole old text in
      beside-IsRemoved faults path temporary old Q (inl refl) text (inr refl) apart
        (write_temporary faults temporary metrics)
        (λ d c h.
          closed-IsWritten faults path temporary old Q (inl refl) text (inr refl) apart _ _ (
            keep-IsWritten faults path temporary old Q (inl refl) text (inr refl) apart _ _ (
              write_all-IsWritten faults path temporary old Q (inl refl) text (inr refl) apart
                (metric_texts metrics) d (concat-metric_texts metrics) c h)))
        (start fs) (refl, tt)

  ends :
      (exit : ℤ) (text : Text) (old : Option Text) (r : Done) (d : Disk)
      → IsEnded faults path temporary old text r d
      → Ends faults path temporary exit text old (exit_of r exit, d)
  ends exit text old done d (there, gone) = (refl, there, gone)
  ends exit text old os_error d h = h

  RunEnds-published :
      (fs : Files) (o : Option (Dict Text ℤ × Bool))
      → RunEnds faults path temporary fs
          (publish o)
          (published faults path temporary (start fs) (publish o))
  RunEnds-published fs none = refl
  RunEnds-published fs (some (metrics, success)) =
      let h = write_output-IsRemoved (insert freshness_success (one_if success) metrics) fs in
      (h.0, ends _ _ _ _ _ h.1)

  -- If the temporary file has a name of its own, then whatever the database answers and whatever calls
  -- fail: where an exception escapes before the metrics are written, nothing is changed. Otherwise after each call the output holds what it held
  -- before or the whole text of the run; with an exit status, which is the one of the run, it holds that
  -- text and no temporary file is left; where an exception escapes it is unchanged, or the
  -- removal of the temporary file failed as the last call after the move, and it holds that text with no
  -- temporary file left.
  pub main_run-RunEnds :
      (from_iso : Text → Option Moment) (db : Db) (name : Text) (now : ℤ) (fs : Files)
      → RunEnds faults path temporary fs
          (main from_iso db name now)
          (main_run faults from_iso db name now path temporary (start fs))
  unfolding main_run main
  main_run-RunEnds from_iso db name now fs =
      RunEnds-published fs (collect now ((last_run, now) ∷ []) (latest_sample from_iso db name))
