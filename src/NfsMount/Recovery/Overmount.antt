-- ===== src/NfsMount/Recovery/Overmount.antt =====
-- A share is never mounted over one that is there.
use pi_homelab.Base.{◌≡◌, refl, ◌∙◌, Bool, true, false, not, ◌&&◌, Option, none, some, [], ◌∷◌}
use pi_homelab.Base.{◌==◌, ==_self, contains, text_eq, arith}
use pi_homelab.Base.Text.{Text}
use pi_homelab.Base.Dict.{keys}
use pi_homelab.NfsMount.Decide.{Action}
use pi_homelab.NfsMount.Listing.{sources_of}
use pi_homelab.NfsMount.World.{Command, World, Trace, failed}
use pi_homelab.NfsMount.Recovery.{mount_empty, unmount, recover_share, prepare, resume, Readiness}
use pi_homelab.NfsMount.Recovery.{carry_on, recover_with_worker}

-- The newest two commands made the mount point, behind a listing without the target.
abbrev pub follows_check : Text → Trace → Bool
follows_check target ((Command.mkdir t, made) ∷ (Command.mount_list, listing) ∷ _) =
    t == target
    && not (failed made)
    && not (failed listing)
    && not (contains (keys (sources_of listing.stdout)) target)
follows_check target _ = false

-- Each mount of the trace was checked so.
abbrev pub is_guarded : Trace → Bool
is_guarded [] = true
is_guarded ((Command.mount_nfs source target, _) ∷ t) = follows_check target t && is_guarded t
is_guarded (_ ∷ t) = is_guarded t

module _ (w : World) where
  mount_empty-is_guarded :
      (source target : Text) (t : Trace)
      → is_guarded t ≡ true
      → is_guarded (mount_empty w source target t).1 ≡ true
  unfolding mount_empty
  mount_empty-is_guarded source target t g = ground (arith, ==_self target)

  unmount-is_guarded :
      (target : Text) (t : Trace) → is_guarded (unmount w target t).1 ≡ is_guarded t
  unfolding unmount
  unmount-is_guarded target t = ground arith

  recover_share-is_guarded :
      (source target : Text) (action : Action) (t : Trace)
      → is_guarded t ≡ true
      → is_guarded (recover_share w source target action t).1 ≡ true
  unfolding recover_share
  recover_share-is_guarded source target action t g = ground (
    arith,
    unmount-is_guarded target t,
    mount_empty-is_guarded source target t g,
    mount_empty-is_guarded source target (unmount w target t).1,
  )

  prepare-is_guarded :
      (target : Text) (action : Action) (t : Trace)
      → is_guarded (prepare w target action t).1 ≡ is_guarded t
  unfolding prepare
  prepare-is_guarded target action t = ground arith

  resume-is_guarded :
      (domain : Option Text) (t : Trace) → is_guarded (resume w domain t).1 ≡ is_guarded t
  unfolding resume
  resume-is_guarded none t = refl
  resume-is_guarded (some domain) t = refl

  carry_on-is_guarded :
      (source target : Text) (action : Action) (r : Readiness) (t : Trace)
      → is_guarded t ≡ true
      → is_guarded (carry_on w source target action r t).1 ≡ true
  unfolding carry_on
  carry_on-is_guarded source target action Readiness.refused t g = g
  carry_on-is_guarded source target action (Readiness.ready domain) t g =
      resume-is_guarded domain _ ∙ recover_share-is_guarded source target action t g

  -- Whatever the system answers, each mount that a recovery starts comes directly behind a mkdir
  -- that succeeded and a mount listing that succeeded and does not show the target, if that held of
  -- the mounts before it.
  pub recover_with_worker-is_guarded :
      (source target : Text) (action : Action) (t : Trace)
      → is_guarded t ≡ true
      → is_guarded (recover_with_worker w source target action t).1 ≡ true
  unfolding recover_with_worker
  recover_with_worker-is_guarded source target action t g =
      carry_on-is_guarded source target action _ _ (prepare-is_guarded target action t ∙ g)
