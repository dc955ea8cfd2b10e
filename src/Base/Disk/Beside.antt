-- ===== src/Base/Disk/Beside.antt =====
-- A new file that is written beside its place and moved there, with a `finally` that removes it: the
-- file in the place is never seen in part.
use mathlib.Core.Path.{◌≡◌, refl, ap, ◌∙◌}
use mathlib.Core.Logic.{◌⊎◌, inl, inr}
use mathlib.Core.Bool.{false}
use mathlib.Core.List.{List, []}
use mathlib.Core.Option.{Option, none, some}
use native.Mathlib.Omega.{arith}
use pi_homelab.Base.Equality.{◌==◌, ==_sym, text_eq, Bool-cases}
use pi_homelab.Base.Text.{Text}
use pi_homelab.Base.Dict.{lookup, insert, erase, lookup-insert, lookup-erase}
use pi_homelab.Base.Disk.{Files, Disk, Faults, Done, done, os_error, Act, before, ◌>>◌}
use pi_homelab.Base.Disk.{outcome, try_finally, content, call, write_all, replace}
use pi_homelab.Base.Disk.{unlink_if_there}
use pi_homelab.Base.Disk.Whole.{Always, concat, IsPending, content_found, content-insert}
use pi_homelab.Base.Disk.Whole.{becomes-IsPending, unlink-Preserves, elsewhere}
use pi_homelab.Base.Disk.Whole.{write_all-Preserves, content-write_all, Done-cases}

-- The file holds what it held, or the whole of the new text.
abbrev pub IsWhole : Option Text → Text → Option Text → Type 0
IsWhole old text held = (held ≡ old) ⊎ (held ≡ some text)

-- The new text with no other file left behind, or, where an error is raised, what was there.
abbrev pub IsSettled : Text → Text → Option Text → Text → Done → Disk → Type 0
IsSettled path temporary old text done d =
    (lookup path d.files ≡ some text) × (lookup temporary d.files ≡ none)
IsSettled path temporary old text os_error d = lookup path d.files ≡ old

abbrev pub IsPublished :
    Text → Text → Option Text → (Option Text → Type 0) → Text → Done × Disk → Type 0
IsPublished path temporary old Q text (r, d) =
    Always (λ fs. Q (lookup path fs)) d.seen × IsSettled path temporary old text r d

module _ (faults : Faults) (path temporary : Text) (old : Option Text) (Q : Option Text → Type 0)
    (keep : Q old) (text : Text) (new : Q (some text)) (apart : path == temporary ≡ false) where
  abbrev pub Pending : Disk → Type 0
  Pending d = IsPending faults path old Q keep d

  -- Once it is moved.
  abbrev pub IsMoved : Disk → Type 0
  IsMoved d =
      (lookup path d.files ≡ some text)
      × (lookup temporary d.files ≡ none)
      × Always (λ fs. Q (lookup path fs)) d.seen

  moved : Files → Files
  moved fs = insert path (content temporary fs) (erase temporary fs)

  lookup-moved :
      (fs : Files)
      → content temporary fs ≡ text
      → (lookup path (moved fs) ≡ some text) × (lookup temporary (moved fs) ≡ none)
  unfolding moved
  lookup-moved fs c = (
    content_found path _ (erase temporary fs) ∙ ap some c,
    lookup-insert temporary path _ (erase temporary fs)
        ∙ (rw (==_sym temporary path, apart) (lookup-erase temporary temporary fs ∙ ground arith)),
  )

  -- What `replace` has left, by its outcome.
  abbrev pub AfterMove : Done → Disk → Type 0
  AfterMove done d = IsMoved d
  AfterMove os_error d = Pending d

  replace-AfterMove :
      (d : Disk)
      → content temporary d.files ≡ text
      → Pending d
      → let (r, d') = replace faults temporary path d in AfterMove r d'
  unfolding moved
  replace-AfterMove d c (h, w) = elim (Bool-cases (faults.succeeds d.calls)) [
    | inl s ↦ let (there, gone) = lookup-moved d.files c in rw s (there, gone, (rw there new, w))
    | inr s ↦ rw s (becomes-IsPending faults path old Q keep d.files d refl (h, w))
  ]

  -- Before the move: what was written so far, if nothing failed.
  abbrev pub IsWritten : Done × Disk → Type 0
  IsWritten (r, d) = Pending d × (r ≡ done → content temporary d.files ≡ text)

  -- A call that changes no file: closing it, or its mode.
  pub keep-IsWritten :
      (r : Done) (d : Disk) → IsWritten (r, d) → IsWritten (before r (call faults (λ fs. fs)) d)
  keep-IsWritten os_error d h = h
  keep-IsWritten done d (h, c) = elim (Bool-cases (faults.succeeds d.calls)) [
    | inl s ↦ rw s (becomes-IsPending faults path old Q keep d.files d refl h, λ _. c refl)
    | inr s ↦ rw s (becomes-IsPending faults path old Q keep d.files d refl h, λ _. c refl)
  ]

  pub closed-IsWritten :
      (r : Done) (d : Disk)
      → IsWritten (r, d)
      → IsWritten (let (c, d') = call faults (λ fs. fs) d in (outcome r c, d'))
  closed-IsWritten done d (h, c) = elim (Bool-cases (faults.succeeds d.calls)) [
    | inl s ↦ rw s (becomes-IsPending faults path old Q keep d.files d refl h, λ _. c refl)
    | inr s ↦ rw s (becomes-IsPending faults path old Q keep d.files d refl h, λ _. c refl)
  ]
  closed-IsWritten os_error d (h, c) = elim (Bool-cases (faults.succeeds d.calls)) [
    | inl s ↦ rw s (becomes-IsPending faults path old Q keep d.files d refl h, c)
    | inr s ↦ rw s (becomes-IsPending faults path old Q keep d.files d refl h, λ e. ground arith)
  ]

  pub write_all-IsWritten :
      (texts : List Text) (d : Disk)
      → concat texts ≡ text
      → content temporary d.files ≡ []
      → Pending d
      → IsWritten (write_all faults temporary texts d)
  write_all-IsWritten texts d e c h = (
    write_all-Preserves faults path old Q keep temporary apart texts d h,
    λ r. content-write_all faults temporary texts d r ∙ (rw c e),
  )

  pub move-AfterMove :
      (r : Done) (d : Disk)
      → IsWritten (r, d)
      → let (r', d') = before r (replace faults temporary path) d in AfterMove r' d'
  move-AfterMove os_error d (h, c) = h
  move-AfterMove done d (h, c) = replace-AfterMove d (c refl) h

  cleanup-IsPublished :
      (r : Done) (d : Disk)
      → AfterMove r d
      → IsPublished path temporary old Q text
          (let (c, d') = unlink_if_there faults temporary d in (outcome r c, d'))
  cleanup-IsPublished done d (there, gone, w) = rw gone (w, (there, gone))
  cleanup-IsPublished os_error d h =
      let (e, w) = unlink-Preserves faults path old Q keep temporary apart d h in
      elim (Done-cases (unlink_if_there faults temporary d).0) [
        | inl c ↦ rw c (w, e)
        | inr c ↦ rw c (w, e)
      ]

  body-IsPublished :
      (stage : Act) (d : Disk)
      → IsWritten (stage d)
      → IsPublished path temporary old Q text (
          try_finally (stage >> replace faults temporary path) (unlink_if_there faults temporary) d)
  body-IsPublished stage d h = cleanup-IsPublished _ _ (move-AfterMove _ _ h)

  -- The stage writes the new file, and what it leaves is moved to its place.
  pub beside-IsPublished :
      (stage : Act)
      → ((d : Disk) → content temporary d.files ≡ [] → Pending d → IsWritten (stage d))
      → (d : Disk) → Pending d
      → IsPublished path temporary old Q text (
          (call faults (insert temporary [])
              >> try_finally
                  (stage >> replace faults temporary path)
                  (unlink_if_there faults temporary))
            d)
  beside-IsPublished stage writes d h = elim (Bool-cases (faults.succeeds d.calls)) [
    | inl s ↦ rw s (
        body-IsPublished stage _ (
          writes _ (content-insert temporary [] d.files) (
            becomes-IsPending faults path old Q keep _ d
              (elsewhere faults path old Q keep temporary apart [] d.files) h)))
    | inr s ↦
        rw s
          (let (still, w) = becomes-IsPending faults path old Q keep d.files d refl h in (w, still))
  ]
