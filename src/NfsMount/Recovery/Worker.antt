-- ===== src/NfsMount/Recovery/Worker.antt =====
-- The worker that reads the main share is stopped before the share is unmounted, and is started
-- again after a stop.
use pi_homelab.Base.{
  ◌≡◌, refl, ◌∙◌, Bool, true, false, not, ◌&&◌, ◌||◌, Option, none, some, [], ◌∷◌,
}
use pi_homelab.Base.{◌==◌, ==_self, text_eq, if◌then◌else◌, arith}
use pi_homelab.Base.Text.{Text, codes, is_infix}
use pi_homelab.NfsMount.Decide.{Action}
use pi_homelab.NfsMount.World.{Command, World, Trace, failed}
use pi_homelab.NfsMount.Recovery.{mount_empty, unmount, recover_share, prepare, resume, Readiness}
use pi_homelab.NfsMount.Recovery.{carry_on, recover_with_worker, is_srv, is_recover, label_of}

-- The newest word of launchctl allows to unmount the share: the worker was stopped, or is not there.
abbrev pub is_clear : Trace → Bool
is_clear [] = false
is_clear ((Command.launchctl_bootout _, r) ∷ _) = not (failed r)
is_clear ((Command.launchctl_print _, r) ∷ _) =
    failed r && is_infix (codes "Could not find service") r.stderr
is_clear ((Command.launchctl_bootstrap _, _) ∷ _) = false
is_clear (_ ∷ t) = is_clear t

-- Each unmount of the main share was allowed so.
abbrev pub unmounts_clear : Trace → Bool
unmounts_clear [] = true
unmounts_clear ((Command.umount target, _) ∷ t) =
    (not (is_srv target) || is_clear t) && unmounts_clear t
unmounts_clear ((Command.diskutil_unmount target, _) ∷ t) =
    (not (is_srv target) || is_clear t) && unmounts_clear t
unmounts_clear (_ ∷ t) = unmounts_clear t

-- Takes a debt of the label off.
abbrev settle : Text → Option Text → Option Text
settle label none = none
settle label (some l) = if l == label then none else some l

-- The worker that was stopped and not started since, by its label.
abbrev pub owed : Trace → Option Text
owed [] = none
owed ((Command.launchctl_bootout label, r) ∷ t) = if failed r then owed t else some label
owed ((Command.launchctl_bootstrap domain, _) ∷ t) = settle (label_of domain) (owed t)
owed (_ ∷ t) = owed t

module _ (w : World) where
  mount_empty-owed :
      (source target : Text) (t : Trace) → owed (mount_empty w source target t).1 ≡ owed t
  unfolding mount_empty
  mount_empty-owed source target t = ground arith

  unmount-owed : (target : Text) (t : Trace) → owed (unmount w target t).1 ≡ owed t
  unfolding unmount
  unmount-owed target t = ground arith

  recover_share-owed :
      (source target : Text) (action : Action) (t : Trace)
      → owed (recover_share w source target action t).1 ≡ owed t
  unfolding recover_share
  recover_share-owed source target action t = ground (
    arith,
    unmount-owed target t,
    mount_empty-owed source target t,
    mount_empty-owed source target (unmount w target t).1,
  )

  -- What the preparation owes is what it hands on.
  abbrev debt : Readiness → Option Text
  debt Readiness.refused = none
  debt (Readiness.ready none) = none
  debt (Readiness.ready (some domain)) = some (label_of domain)

  prepare-owed :
      (target : Text) (action : Action) (t : Trace)
      → owed t ≡ none
      → owed (prepare w target action t).1 ≡ debt (prepare w target action t).0
  unfolding prepare
  prepare-owed target action t h = ground arith

  resume-owed :
      (domain : Option Text) (t : Trace)
      → owed t ≡ debt (Readiness.ready domain)
      → owed (resume w domain t).1 ≡ none
  unfolding resume
  resume-owed none t h = h
  resume-owed (some domain) t h = ground (arith, ==_self (label_of domain))

  carry_on-owed :
      (source target : Text) (action : Action) (r : Readiness) (t : Trace)
      → owed t ≡ debt r
      → owed (carry_on w source target action r t).1 ≡ none
  unfolding carry_on
  carry_on-owed source target action Readiness.refused t h = h
  carry_on-owed source target action (Readiness.ready domain) t h =
      resume-owed domain _ (recover_share-owed source target action t ∙ h)

  -- If no stopped worker is waiting before it, then however a recovery ends, a worker that it stopped
  -- was told to start again under the same label.
  pub recover_with_worker-owed :
      (source target : Text) (action : Action) (t : Trace)
      → owed t ≡ none
      → owed (recover_with_worker w source target action t).1 ≡ none
  unfolding recover_with_worker
  recover_with_worker-owed source target action t h =
      carry_on-owed source target action _ _ (prepare-owed target action t h)

  -- What has to hold before `umount` may be called.
  abbrev allows : Text → Action → Readiness → Trace → Bool
  allows target action Readiness.refused t = true
  allows target action (Readiness.ready domain) t =
      not (is_srv target) || not (is_recover action) || is_clear t

  prepare-allows :
      (target : Text) (action : Action) (t : Trace)
      → allows target action (prepare w target action t).0 (prepare w target action t).1 ≡ true
  unfolding prepare
  prepare-allows target action t = ground arith

  prepare-unmounts_clear :
      (target : Text) (action : Action) (t : Trace)
      → unmounts_clear (prepare w target action t).1 ≡ unmounts_clear t
  unfolding prepare
  prepare-unmounts_clear target action t = ground arith

  unmount-unmounts_clear :
      (target : Text) (t : Trace)
      → (not (is_srv target) || is_clear t) ≡ true
      → unmounts_clear t ≡ true
      → unmounts_clear (unmount w target t).1 ≡ true
  unfolding unmount
  unmount-unmounts_clear target t c h = ground arith

  mount_empty-unmounts_clear :
      (source target : Text) (t : Trace)
      → unmounts_clear (mount_empty w source target t).1 ≡ unmounts_clear t
  unfolding mount_empty
  mount_empty-unmounts_clear source target t = ground arith

  resume-unmounts_clear :
      (domain : Option Text) (t : Trace) → unmounts_clear (resume w domain t).1 ≡ unmounts_clear t
  unfolding resume
  resume-unmounts_clear none t = refl
  resume-unmounts_clear (some domain) t = refl

  recover_share-unmounts_clear :
      (source target : Text) (action : Action) (t : Trace)
      → (not (is_srv target) || not (is_recover action) || is_clear t) ≡ true
      → unmounts_clear t ≡ true
      → unmounts_clear (recover_share w source target action t).1 ≡ true
  unfolding recover_share
  recover_share-unmounts_clear source target action t c h = ground (
    arith,
    unmount-unmounts_clear target t,
    mount_empty-unmounts_clear source target t,
    mount_empty-unmounts_clear source target (unmount w target t).1,
  )

  carry_on-unmounts_clear :
      (source target : Text) (action : Action) (r : Readiness) (t : Trace)
      → allows target action r t ≡ true
      → unmounts_clear t ≡ true
      → unmounts_clear (carry_on w source target action r t).1 ≡ true
  unfolding carry_on
  carry_on-unmounts_clear source target action Readiness.refused t c h = h
  carry_on-unmounts_clear source target action (Readiness.ready domain) t c h =
      resume-unmounts_clear domain _ ∙ recover_share-unmounts_clear source target action t c h

  -- Whatever the system answers, a recovery unmounts the main share only while the newest answer of
  -- launchctl says that the worker was stopped or that there is no such service, if that held of the
  -- unmounts before it.
  pub recover_with_worker-unmounts_clear :
      (source target : Text) (action : Action) (t : Trace)
      → unmounts_clear t ≡ true
      → unmounts_clear (recover_with_worker w source target action t).1 ≡ true
  unfolding recover_with_worker
  recover_with_worker-unmounts_clear source target action t h =
      carry_on-unmounts_clear source target action _ _ (prepare-allows target action t)
        (prepare-unmounts_clear target action t ∙ h)
