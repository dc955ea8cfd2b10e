-- ===== src/Runner/Files/Ordered.antt =====
-- The heartbeat is never ahead of the status.
use pi_homelab.Base.{ℕ, Option, some, ◌≡◌, refl, ap, ◌∙◌, ◌⊎◌, inl, inr, arith}
use pi_homelab.Base.{◌==◌, ==_sym, text_eq, false, Bool-cases, take}
use pi_homelab.Base.Text.{Text, codes}
use pi_homelab.Base.Dict.{lookup, insert, erase, lookup-insert, lookup-erase}
use pi_homelab.Base.Json.{Value}
use pi_homelab.Base.Disk.{Files, Disk, Faults, Done, done, os_error, before, start, content}
use pi_homelab.Base.Disk.{call, replace, text_or}
use pi_homelab.Base.Disk.Whole.{Always, content_found}
use pi_homelab.Runner.World.{Status}
use pi_homelab.Runner.Report.{status_value, heartbeat_text}
use pi_homelab.Runner.Files.{write_text, write_files, status_path, temporary_path, heartbeat_path}
use pi_homelab.Runner.Files.Writing.{
  append_apart, Holds, call-Holds, write_text-Holds, write_text_done,
}

module _ (dumps : Value → Text) (dir : Text) (st : Status) (fs0 : Files) where
  -- What the heartbeat was, or all or the beginning of the new one.
  abbrev pub IsBeat : Option Text → Type 0
  IsBeat held =
      (held ≡ lookup (heartbeat_path dir) fs0)
      ⊎ (held ≡ some (heartbeat_text st))
      ⊎ ((n : ℕ) × (held ≡ some (take n (heartbeat_text st))))

  -- Both files are as they were.
  abbrev pub IsBefore : Files → Type 0
  IsBefore fs =
      (lookup (status_path dir) fs ≡ lookup (status_path dir) fs0)
      × (lookup (heartbeat_path dir) fs ≡ lookup (heartbeat_path dir) fs0)

  -- The status is the new one, as a whole.
  abbrev pub IsAfter : Files → Type 0
  IsAfter fs =
      (lookup (status_path dir) fs ≡ some (dumps (status_value st)))
      × IsBeat (lookup (heartbeat_path dir) fs)

  abbrev pub IsOrdered : Files → Type 0
  IsOrdered fs = IsBefore fs ⊎ IsAfter fs

  abbrev pub Ends : Done → Disk → Type 0
  Ends done d =
      (lookup (status_path dir) d.files ≡ some (dumps (status_value st)))
      × (lookup (heartbeat_path dir) d.files ≡ some (heartbeat_text st))
  Ends os_error d = IsOrdered d.files

  status_temporary : status_path dir == temporary_path dir ≡ false
  unfolding text_eq
  status_temporary =
      append_apart dir (codes "/gh-runner/status.json") (codes "/gh-runner/status.json.tmp") refl

  heartbeat_temporary : heartbeat_path dir == temporary_path dir ≡ false
  unfolding text_eq
  heartbeat_temporary =
      append_apart dir (codes "/gh-runner/heartbeat") (codes "/gh-runner/status.json.tmp") refl

  heartbeat_status : heartbeat_path dir == status_path dir ≡ false
  unfolding text_eq
  heartbeat_status =
      append_apart dir (codes "/gh-runner/heartbeat") (codes "/gh-runner/status.json") refl

  elsewhere :
      (path other t : Text) (fs : Files)
      → path == other ≡ false
      → lookup path (insert other t fs) ≡ lookup path fs
  elsewhere path other t fs apart = lookup-insert path other t fs ∙ (rw apart refl)

  temporary-IsBefore :
      (t : Text) (fs : Files) → IsBefore fs → IsBefore (insert (temporary_path dir) t fs)
  temporary-IsBefore t fs (s, h) = (
    elsewhere (status_path dir) (temporary_path dir) t fs status_temporary ∙ s,
    elsewhere (heartbeat_path dir) (temporary_path dir) t fs heartbeat_temporary ∙ h,
  )

  moved-IsAfter :
      (fs : Files)
      → content (temporary_path dir) fs ≡ dumps (status_value st)
      → IsBefore fs
      → IsAfter (
          insert
            (status_path dir)
            (content (temporary_path dir) fs)
            (erase (temporary_path dir) fs))
  moved-IsAfter fs c (s, h) = (
    content_found (status_path dir) _ (erase (temporary_path dir) fs) ∙ ap some c,
    inl (
        elsewhere (heartbeat_path dir) (status_path dir) _ (erase (temporary_path dir) fs)
          heartbeat_status
        ∙ lookup-erase (heartbeat_path dir) (temporary_path dir) fs
        ∙ (rw heartbeat_temporary h)),
  )

  beat-IsAfter :
      (t : Text) (fs : Files)
      → IsBeat (some t)
      → IsAfter fs
      → IsAfter (insert (heartbeat_path dir) t fs)
  beat-IsAfter t fs b (s, h) = (
    elsewhere (status_path dir) (heartbeat_path dir) t fs
          (==_sym (status_path dir) (heartbeat_path dir) ∙ heartbeat_status)
        ∙ s,
    (rw (content_found (heartbeat_path dir) t fs) b),
  )

  module _ (faults : Faults) where
    -- Up to the move: nothing is changed, and the temporary file is the new status if nothing failed.
    IsPrepared : Done → Disk → Type 0
    IsPrepared r d =
        Holds IsBefore IsOrdered d
        × (r ≡ done → lookup (temporary_path dir) d.files ≡ some (dumps (status_value st)))

    prepared :
        (r : Done) (d : Disk)
        → Holds IsBefore IsOrdered d
        → let (r', d') =
            before r (write_text faults (temporary_path dir) (dumps (status_value st))) d in
          IsPrepared r' d'
    unfolding IsPrepared
    prepared os_error d h = (h, λ e. ground arith)
    prepared done d h = (
      write_text-Holds faults IsBefore IsOrdered (λ fs b. inl b) (temporary_path dir)
          (dumps (status_value st)) (λ n. temporary-IsBefore _) (temporary-IsBefore _) d h,
      write_text_done faults (temporary_path dir) (dumps (status_value st)) d,
    )

    -- Behind the move.
    IsMoved : Done → Disk → Type 0
    IsMoved r d = Holds IsOrdered IsOrdered d × (r ≡ done → IsAfter d.files)

    move :
        (r : Done) (d : Disk)
        → IsPrepared r d
        → let (r', d') = before r (replace faults (temporary_path dir) (status_path dir)) d in
          IsMoved r' d'
    unfolding IsPrepared IsMoved
    move os_error d ((h, w), t) = ((inl h, w), λ e. ground arith)
    move done d ((h, w), t) =
        let held : content (temporary_path dir) d.files ≡ dumps (status_value st) =
          ap text_or (t refl) in
        let after = moved-IsAfter d.files held h in
        elim (Bool-cases (faults.succeeds d.calls)) [
          | inl s ↦ rw s ((inr after, (inr after, w)), λ e. after)
          | inr s ↦ rw s ((inl h, (inl h, w)), λ e. ground arith)
        ]

    beaten :
        (r : Done) (d : Disk)
        → IsMoved r d
        → let (r', d') = before r (write_text faults (heartbeat_path dir) (heartbeat_text st)) d in
          Always IsOrdered d'.seen × Ends r' d'
    unfolding IsMoved
    beaten os_error d ((h, w), t) = (w, h)
    beaten done d ((h, w), t) =
        let (after, seen) =
          write_text-Holds faults IsAfter IsOrdered (λ fs a. inr a) (heartbeat_path dir)
            (heartbeat_text st) (λ n fs. beat-IsAfter _ fs (inr (inr (n, refl))))
            (λ fs. beat-IsAfter _ fs (inr (inl refl))) d (t refl, w) in
        (seen, ends _ _ after (write_text_done faults (heartbeat_path dir) (heartbeat_text st) d))
      where
        ends :
            (r : Done) (d : Disk)
            → IsAfter d.files
            → (r ≡ done → lookup (heartbeat_path dir) d.files ≡ some (heartbeat_text st))
            → Ends r d
        ends done d (s, b) k = (s, k refl)
        ends os_error d a k = inr a

-- Whatever calls fail and however much of a failed write is left behind: after each call of
-- write_status either both files are as they were, or the status is the new one as a whole and the
-- heartbeat is the old one, the new one or a beginning of the new one; where it returns both are new.
pub write_files-Ends :
    (faults : Faults) (dumps : Value → Text) (dir : Text) (st : Status) (fs : Files)
    → let (r, d) = write_files faults dumps dir st (start fs) in
      Always (IsOrdered dumps dir st fs) d.seen × Ends dumps dir st fs r d
unfolding write_files
write_files-Ends faults dumps dir st fs = beaten dumps dir st fs faults _ _ (
    move dumps dir st fs faults _ _ (
      prepared dumps dir st fs faults (call faults (λ gs. gs) (start fs)).0
        (call faults (λ gs. gs) (start fs)).1
        (call-Holds faults (IsBefore dumps dir st fs) (IsOrdered dumps dir st fs) (λ gs b. inl b)
          (λ gs. gs) (start fs) (λ gs b. b) ((refl, refl), tt))))
