-- ===== src/Base/Disk/Removed.antt =====
-- A new file that is written beside its place and moved there, where a `finally` calls `unlink`
-- whether the move was made or not, so that this call may fail after the move.
use Prim.Native.Nat.{ℕ, suc}
use mathlib.Core.Path.{◌≡◌, refl, ◌∙◌}
use mathlib.Core.Logic.{◌⊎◌, inl, inr}
use mathlib.Core.Bool.{false}
use mathlib.Core.List.{[]}
use mathlib.Core.Option.{Option, none, some}
use native.Mathlib.Omega.{arith}
use pi_homelab.Base.Equality.{◌==◌, text_eq, Bool-cases}
use pi_homelab.Base.Text.{Text}
use pi_homelab.Base.Dict.{lookup, insert, erase, lookup-erase}
use pi_homelab.Base.Disk.{Files, Disk, Faults, Done, done, os_error, Act, ◌>>◌}
use pi_homelab.Base.Disk.{outcome, try_finally, content, call, replace, unlink}
use pi_homelab.Base.Disk.Whole.{Always, content-insert, call-Preserves}
use pi_homelab.Base.Disk.Whole.{becomes-IsPending, elsewhere, Done-cases}
use pi_homelab.Base.Disk.Beside.{Pending, AfterMove, IsWritten, move-AfterMove}

-- The last call failed.
abbrev pub LastFailed : Faults → Disk → Type 0
LastFailed faults d = (n : ℕ) × (d.calls ≡ suc n) × (faults.succeeds n ≡ false)

-- The new text with no other file left behind; where an error is raised, what was there, or the new
-- text all the same if the last call failed, which is the removal.
abbrev pub IsEnded : Faults → Text → Text → Option Text → Text → Done → Disk → Type 0
IsEnded faults path temporary old text done d =
    (lookup path d.files ≡ some text) × (lookup temporary d.files ≡ none)
IsEnded faults path temporary old text os_error d =
    (lookup path d.files ≡ old)
    ⊎ ((lookup path d.files ≡ some text) × (lookup temporary d.files ≡ none) × LastFailed faults d)

abbrev pub IsRemoved :
    Faults → Text → Text → Option Text → (Option Text → Type 0) → Text → Done × Disk → Type 0
IsRemoved faults path temporary old Q text (r, d) =
    Always (λ fs. Q (lookup path fs)) d.seen × IsEnded faults path temporary old text r d

module _ (faults : Faults) (path temporary : Text) (old : Option Text) (Q : Option Text → Type 0)
    (keep : Q old) (text : Text) (new : Q (some text)) (apart : path == temporary ≡ false) where
  erased_elsewhere : (fs : Files) → lookup path (erase temporary fs) ≡ lookup path fs
  erased_elsewhere fs = lookup-erase path temporary fs ∙ (rw apart refl)

  unlink-IsRemoved :
      (r : Done) (d : Disk)
      → AfterMove faults path temporary old Q keep text new apart r d
      → IsRemoved faults path temporary old Q text
          (let (c, d') = unlink faults temporary d in (outcome r c, d'))
  unlink-IsRemoved done d (there, gone, w) = elim (Bool-cases (faults.succeeds d.calls)) [
    | inl s ↦
        let still = erased_elsewhere d.files ∙ there in
        rw s (((rw still new, w)), (still, lookup-erase temporary temporary d.files ∙ ground arith))
    | inr s ↦ rw s ((rw there new, w), inr (there, gone, (d.calls, refl, s)))
  ]
  unlink-IsRemoved os_error d h =
      let (e, w) = call-Preserves faults path old Q keep (erase temporary) erased_elsewhere d h in
      elim (Done-cases (unlink faults temporary d).0) [
        | inl c ↦ rw c (w, inl e)
        | inr c ↦ rw c (w, inl e)
      ]

  -- The stage writes the new file, and what it leaves is moved to its place.
  pub beside-IsRemoved :
      (stage : Act)
      → ((d : Disk)
          → content temporary d.files ≡ []
          → Pending faults path temporary old Q keep text new apart d
          → IsWritten faults path temporary old Q keep text new apart (stage d))
      → (d : Disk) → Pending faults path temporary old Q keep text new apart d
      → IsRemoved faults path temporary old Q text (
          (call faults (insert temporary [])
              >> try_finally (stage >> replace faults temporary path) (unlink faults temporary))
            d)
  beside-IsRemoved stage writes d h = elim (Bool-cases (faults.succeeds d.calls)) [
    | inl s ↦ rw s (
        unlink-IsRemoved _ _ (
          move-AfterMove faults path temporary old Q keep text new apart _ _ (
            writes _ (content-insert temporary [] d.files) (
              becomes-IsPending faults path old Q keep _ d
                (elsewhere faults path old Q keep temporary apart [] d.files) h))))
    | inr s ↦ rw s (
        let (still, w) = becomes-IsPending faults path old Q keep d.files d refl h in
        (w, inl still))
  ]
