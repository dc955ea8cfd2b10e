-- ===== src/Runner/Files/Writing.antt =====
-- Writing a file in its place.
use pi_homelab.Base.{ℕ, [], ◌∷◌, ◌++◌, some, ◌≡◌, refl, inl, inr, arith}
use pi_homelab.Base.{◌==◌, text_eq, false, Bool-cases, take}
use pi_homelab.Base.Text.{Text}
use pi_homelab.Base.Dict.{lookup, insert}
use pi_homelab.Base.Disk.{Files, Disk, Faults, Done, done, os_error, content, becomes}
use pi_homelab.Base.Disk.{call, write_all, outcome}
use pi_homelab.Base.Disk.Whole.{Always, content-insert, content_found}
use pi_homelab.Runner.Files.{write_text}

pub append_apart : (dir a b : Text) → a == b ≡ false → (dir ++ a) == (dir ++ b) ≡ false
append_apart [] a b h = h
append_apart (c ∷ dir) a b h = ground (arith, append_apart dir a b h)

-- A property of the files now, and a weaker one at all times before.
abbrev pub Holds : (P R : Files → Type 0) → Disk → Type 0
Holds P R d = P d.files × Always R d.seen

module _ (faults : Faults) (P R : Files → Type 0) (weaken : (fs : Files) → P fs → R fs) where
  becomes-Holds : (fs : Files) (d : Disk) → P fs → Holds P R d → Holds P R (becomes fs d)
  becomes-Holds fs d p (h, w) = (p, (weaken fs p, w))

  pub call-Holds :
      (change : Files → Files) (d : Disk)
      → ((fs : Files) → P fs → P (change fs))
      → Holds P R d
      → Holds P R (call faults change d).1
  call-Holds change d k (h, w) = elim (Bool-cases (faults.succeeds d.calls)) [
    | inl s ↦ rw s (becomes-Holds (change d.files) d (k d.files h) (h, w))
    | inr s ↦ rw s (becomes-Holds d.files d h (h, w))
  ]

  close-Holds : (d : Disk) → Holds P R d → Holds P R (call faults (λ fs. fs) d).1
  close-Holds d h = call-Holds (λ fs. fs) d (λ fs p. p) h

  module _ (path text : Text)
      (part : (n : ℕ) (fs : Files) → P fs → P (insert path (take n text) fs))
      (full : (fs : Files) → P fs → P (insert path text fs)) where
    write-Holds :
        (d : Disk)
        → content path d.files ≡ []
        → Holds P R d
        → Holds P R (write_all faults path (text ∷ []) d).1
    unfolding write_all
    write-Holds d c (h, w) = elim (Bool-cases (faults.succeeds d.calls)) [
      | inl s ↦ rw (s, c) (becomes-Holds (insert path text d.files) d (full d.files h) (h, w))
      | inr s ↦
          rw (s, c)
            (becomes-Holds (insert path (take (faults.torn d.calls) text) d.files) d
              (part _ d.files h) (h, w))
    ]

    pub write_text-Holds : (d : Disk) → Holds P R d → Holds P R (write_text faults path text d).1
    unfolding write_text
    write_text-Holds d (h, w) = elim (Bool-cases (faults.succeeds d.calls)) [
      | inl s ↦ rw s (
          close-Holds _ (
            write-Holds _ (content-insert path [] d.files)
              (becomes-Holds (insert path [] d.files) d (part 0 d.files h) (h, w))))
      | inr s ↦ rw s (becomes-Holds d.files d h (h, w))
    ]

not_done : os_error ≡ done → ⊥
not_done h = cc

module _ (faults : Faults) where
  call_files : (d : Disk) → (call faults (λ fs. fs) d).1.files ≡ d.files
  call_files d = elim (Bool-cases (faults.succeeds d.calls)) [
    | inl s ↦ rw s refl
    | inr s ↦ rw s refl
  ]

  outcome_done : (r c : Done) → outcome r c ≡ done → r ≡ done
  outcome_done r done h = h
  outcome_done r os_error h = absurd (not_done h)

  module _ (path text : Text) where
    write_done :
        (d : Disk)
        → content path d.files ≡ []
        → (write_all faults path (text ∷ []) d).0 ≡ done
        → lookup path (write_all faults path (text ∷ []) d).1.files ≡ some text
    unfolding write_all
    write_done d c h = elim (Bool-cases (faults.succeeds d.calls)) [
      | inl s ↦ rw (s, c) (content_found path text d.files)
      | inr s ↦ absurd (not_done (rw s at h))
    ]

    close_done :
        (r : Done) (d : Disk)
        → (r ≡ done → lookup path d.files ≡ some text)
        → (let (c, d') = call faults (λ fs. fs) d in outcome r c) ≡ done
        → lookup path (call faults (λ fs. fs) d).1.files ≡ some text
    close_done r d k h = rw (call_files d) (k (outcome_done r (call faults (λ fs. fs) d).0 h))

    pub write_text_done :
        (d : Disk)
        → (write_text faults path text d).0 ≡ done
        → lookup path (write_text faults path text d).1.files ≡ some text
    unfolding write_text
    write_text_done d h = elim (Bool-cases (faults.succeeds d.calls)) [
      | inl s ↦ rw s (
          close_done (write_all faults path (text ∷ []) (becomes (insert path [] d.files) d)).0
            (write_all faults path (text ∷ []) (becomes (insert path [] d.files) d)).1
            (write_done (becomes (insert path [] d.files) d) (content-insert path [] d.files))
            (rw s at h))
      | inr s ↦ absurd (not_done (rw s at h))
    ]
