-- ===== src/NfsMount/Publish/Pass.antt =====
-- The shared file while a pass of `supervise` publishes, and at its end.
use pi_homelab.Base.{List, Option, none, some, ◌≡◌, refl, sym, ap, ◌∙◌, ◌⊎◌, inl, inr}
use pi_homelab.Base.{◌==◌, text_eq, false, Bool-cases, Option-cases, arith}
use mathlib.Core.Option.{some-injective}
use pi_homelab.Base.Text.{Text}
use pi_homelab.Base.Dict.{lookup}
use pi_homelab.Base.Json.{Value}
use pi_homelab.Base.Disk.{Files, Disk, Faults, Done, done, os_error, start}
use pi_homelab.Base.Disk.Whole.{Always, IsPending, becomes-IsPending}
use pi_homelab.Base.Disk.Beside.{IsSettled}
use pi_homelab.NfsMount.Publish.{Published, loaded, write_status, publish, write_loaded}
use pi_homelab.NfsMount.Publish.{publish_pass, status_file, shared_status}
use pi_homelab.NfsMount.Publish.Safe.{text_of, write_status-pending, write_status-Preserves}

module _ (dump : Value → List Text) (loads : Text → Option Value) (faults : Faults) where
  -- The whole text of the value that a file holds.
  abbrev IsCopy : Option Text → Option Text → Type 0
  IsCopy source held =
      (status : Value) × (loaded loads source ≡ some status) × (held ≡ some (text_of dump status))

  -- What the child leaves of the shared file.
  abbrev IsCopied : Text → Option Text → Option Text → Done → Disk → Type 0
  IsCopied temporary source old done d =
      IsCopy source (lookup shared_status d.files) × (lookup temporary d.files ≡ none)
  IsCopied temporary source old os_error d = lookup shared_status d.files ≡ old

  module _ (temporary : Text) (apart : shared_status == temporary ≡ false) (old : Option Text)
      (Q : Option Text → Type 0) (keep : Q old) where
    settled-IsCopied :
        (source : Option Text) (status : Value) (r : Done) (d : Disk)
        → loaded loads source ≡ some status
        → IsSettled shared_status temporary old (text_of dump status) r d
        → IsCopied temporary source old r d
    settled-IsCopied source status done d h (there, gone) = ((status, h, there), gone)
    settled-IsCopied source status os_error d h s = s

    abbrev Copied : Option Text → Done × Disk → Type 0
    Copied source (r, d) =
        Always (λ fs. Q (lookup shared_status fs)) d.seen × IsCopied temporary source old r d

    write_loaded-Copied :
        (source : Option Text) (d : Disk)
        → ((status : Value) → loaded loads source ≡ some status → Q (some (text_of dump status)))
        → IsPending faults shared_status old Q keep d
        → Copied source (write_loaded dump loads faults temporary (loaded loads source) d)
    write_loaded-Copied source d new (h, w) = elim (Option-cases (loaded loads source)) [
      | inl n ↦ rw n (w, h)
      | inr (status, l) ↦
          let (seen, settled) =
            write_status-pending dump loads faults shared_status temporary apart status old Q keep
              (new status l) d (h, w) in
          rw l (seen, settled-IsCopied source status _ _ l settled)
    ]

    pub publish-Copied :
        (source : Text) (d : Disk)
        → ((status : Value)
            → loaded loads (lookup source d.files) ≡ some status
            → Q (some (text_of dump status)))
        → IsPending faults shared_status old Q keep d
        → Copied (lookup source d.files) (publish dump loads faults source temporary d)
    unfolding publish
    publish-Copied source d new h = elim (Bool-cases (faults.succeeds d.calls)) [
      | inl s ↦ rw s (
          write_loaded-Copied (lookup source d.files) _ new
            (becomes-IsPending faults shared_status old Q keep d.files d refl h))
      | inr s ↦ rw s (
          let (still, w) = becomes-IsPending faults shared_status old Q keep d.files d refl h in
          (w, still))
    ]

  module _ (local_temporary shared_temporary : Text) (status : Value) (fs : Files) where
    -- What the shared file held, or a whole copy of what the local file held, or the whole new status.
    abbrev pub IsSeen : Option Text → Type 0
    IsSeen held =
        (held ≡ lookup shared_status fs)
        ⊎ IsCopy (lookup status_file fs) held
        ⊎ (held ≡ some (text_of dump status))

    abbrev pub passed : Published
    passed = publish_pass dump loads faults local_temporary shared_temporary status (start fs)

    module _ (reads_back : loads (text_of dump status) ≡ some status) where
      -- The child reads the new status or what the local file held.
      copy-IsSeen :
          (r : Done) (d : Disk)
          → IsSettled status_file local_temporary (lookup status_file fs) (text_of dump status) r d
          → (u : Value) → loaded loads (lookup status_file d.files) ≡ some u
          → IsSeen (some (text_of dump u))
      copy-IsSeen done d (there, gone) u l =
          let same : u ≡ status = some-injective _ _ (sym (rw there at l) ∙ reads_back) in
          inr (inr (ap (λ v. some (text_of dump v)) same))
      copy-IsSeen os_error d same u l = inr (inl (u, (rw same at l), refl))

      copied-text_of :
          (r c : Done) (d e : Disk)
          → r ≡ done
          → c ≡ done
          → IsSettled status_file local_temporary (lookup status_file fs) (text_of dump status) r d
          → IsCopied shared_temporary (lookup status_file d.files) (lookup shared_status fs) c e
          → (lookup shared_status e.files ≡ some (text_of dump status))
            × (lookup shared_temporary e.files ≡ none)
      copied-text_of done done d e _ _ (there, _) ((u, l, held), gone) =
          let same : u ≡ status = some-injective _ _ (sym (rw there at l) ∙ reads_back) in
          (held ∙ ap (λ v. some (text_of dump v)) same, gone)
      copied-text_of done os_error d e _ c s t = ground arith
      copied-text_of os_error c d e r _ s t = ground arith

      module _ (local : status_file == local_temporary ≡ false)
          (apart : shared_status == local_temporary ≡ false)
          (shared : shared_status == shared_temporary ≡ false) where
        -- What is left by the supervisor's own write.
        abbrev pub first : Done × Disk
        first = write_status dump loads faults status_file local_temporary status (start fs)

        pub first-IsSettled :
            IsSettled status_file local_temporary
              (lookup status_file fs)
              (text_of dump status)
              first.0
              first.1
        first-IsSettled =
            (write_status-pending dump loads faults status_file local_temporary local status
              (lookup status_file fs) (λ _. Unit {0}) tt tt (start fs) (refl, tt)).1

        publish-first :
            Copied shared_temporary shared
              (lookup shared_status fs)
              IsSeen
              (inl refl)
              (lookup status_file first.1.files)
              (publish dump loads faults status_file shared_temporary first.1)
        unfolding text_eq
        publish-first =
            publish-Copied shared_temporary shared (lookup shared_status fs) IsSeen (inl refl)
              status_file _ (copy-IsSeen _ _ first-IsSettled)
              (write_status-Preserves dump loads faults shared_status status_file local_temporary
                refl apart (lookup shared_status fs) IsSeen (inl refl) status (start fs) (refl, tt))

        -- If `json.loads` reads back the status and the temporary files have names of their own, then
        -- whatever calls fail, after each call of a pass the shared file holds what it held before, the
        -- new status as a whole, or as a whole the status that the local file held before.
        pub publish_pass-IsSeen : Always (λ gs. IsSeen (lookup shared_status gs)) passed.disk.seen
        unfolding publish_pass
        publish_pass-IsSeen = publish-first.0

        pub lookup-publish_pass :
            passed.written ≡ done
            → passed.child ≡ done
            → (lookup shared_status passed.disk.files ≡ some (text_of dump status))
              × (lookup shared_temporary passed.disk.files ≡ none)
        unfolding publish_pass
        lookup-publish_pass r c = copied-text_of _ _ _ _ r c first-IsSettled publish-first.1
