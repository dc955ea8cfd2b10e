-- ===== src/NfsMount/Probe.antt =====
-- `probe_file`, which a child runs, and what `health` makes of its exit status.
use pi_homelab.Base.{◌≡◌, refl, ◌∙◌, Bool, true, false, not, ◌&&◌, List, [], ◌∷◌}
use pi_homelab.Base.{◌==◌, text_eq, nat_eq, all, length, take, if◌then◌else◌, arith}
use pi_homelab.Base.Text.{Text, codes, starts_with}
use pi_homelab.Base.Int.{ℤ, pos}
use pi_homelab.NfsMount.Decide.{MountState, hung, unknown, is_healthy, Reason, nfsstat_failed}
use pi_homelab.NfsMount.Listing.{mount_status}
use pi_homelab.NfsMount.World.{Command, Completed, World, Trace, M, pure, failed}
use pi_homelab.NfsMount.Recovery.{probe_reason, is_blocked, read_probe, probe_all, health}

abbrev pub probe_content : Text
probe_content = codes "homelab-nfs-v1\n"

-- The error numbers that count as a fault of the mount, and the others.
pub data Errno : Type 0 where
  eio estale etimedout other : Errno

-- What opening and reading a file gives: a `FileNotFoundError`, another `OSError`, or its bytes.
pub data Probe : Type 0 where
  missing : Probe
  denied : Errno → Probe
  bytes : Text → Probe

-- `handle.read(len(PROBE_CONTENT))` gives at most so many bytes.
unfoldable pub probe_file : Probe → ℤ
probe_file missing = pos 2
probe_file (denied other) = pos 5
probe_file (denied e) = pos 4
probe_file (bytes s) = if take (length probe_content) s == probe_content then pos 0 else pos 3

abbrev pub holds : Probe → Bool
holds (bytes s) = starts_with s probe_content
holds _ = false

take-starts_with : (s k : Text) → take (length k) s == k ≡ starts_with s k
unfolding starts_with
take-starts_with s [] = ground arith
take-starts_with [] (c ∷ k) = ground arith
take-starts_with (d ∷ s) (c ∷ k) = ground (arith, take-starts_with s k)

zero_or_three :
    (b : Bool) (r : Completed) → r.returncode ≡ (if b then pos 0 else pos 3) → not (failed r) ≡ b
zero_or_three true r h = rw h refl
zero_or_three false r h = rw h refl

read_ok_holds : (p : Probe) (r : Completed) → r.returncode ≡ probe_file p → not (failed r) ≡ holds p
unfolding probe_file
read_ok_holds missing r h = rw h refl
read_ok_holds (denied Errno.eio) r h = rw h refl
read_ok_holds (denied Errno.estale) r h = rw h refl
read_ok_holds (denied Errno.etimedout) r h = rw h refl
read_ok_holds (denied Errno.other) r h = rw h refl
read_ok_holds (bytes s) r h =
    zero_or_three (take (length probe_content) s == probe_content) r h
    ∙ take-starts_with s probe_content

when_read :
    (b : Bool) (why : Reason) (rest : M (MountState × Reason)) (t : Trace)
    → is_healthy
        ((if not b then pure (if is_blocked why then hung else unknown, why) else rest) t).0.0
      ≡ (b && is_healthy (rest t).0.0)
when_read true why rest t = refl
when_read false why rest t = ground arith

when_mounted :
    (f : Bool) (s : MountState) (a b : Reason) (rest : M (MountState × Reason)) (t : Trace)
    → is_healthy
        ((if f then pure (unknown, a) else (if not (is_healthy s) then pure (s, b) else rest))
          t).0.0
      ≡ (not f && is_healthy s && is_healthy (rest t).0.0)
when_mounted true s a b rest t = refl
when_mounted false s a b rest t = ground arith

module _ (w : World) (files : Text → Probe) where
  -- The child's exit status is that of `probe_file`, for files that stay as they are.
  abbrev pub Answers : Type 0
  Answers =
      (t : Trace) (path : Text)
      → (w.answer t (Command.read_probe_child path)).returncode ≡ probe_file (files path)

  probe_all-holds :
      (probes : List Text) (t : Trace)
      → Answers
      → is_healthy (probe_all w probes t).0.0 ≡ all (λ path. holds (files path)) probes
  unfolding probe_all read_probe
  probe_all-holds [] t h = refl
  probe_all-holds (path ∷ probes) t h =
      let r = w.answer t (Command.read_probe_child path) in
      let t' = (Command.read_probe_child path, r) ∷ t in
      when_read (not (failed r)) (probe_reason r) (probe_all w probes) t'
      ∙ rw (read_ok_holds (files path) r (h t path), probe_all-holds probes t' h) refl

  -- If each probe's child ends in time, with the exit status of probe_file: health is healthy exactly
  -- where nfsstat succeeds and reports the target healthy and each probe starts with the content.
  pub health-holds :
      (target : Text) (probes : List Text) (status : Completed) (t : Trace)
      → Answers
      → is_healthy (health w target probes status t).0.0 ≡ (
          not (failed status)
          && is_healthy (mount_status status.stdout target)
          && all (λ path. holds (files path)) probes)
  unfolding health
  health-holds target probes status t h =
      when_mounted (failed status) (mount_status status.stdout target) nfsstat_failed _
        (probe_all w probes) t
      ∙ rw (probe_all-holds probes t h) refl
