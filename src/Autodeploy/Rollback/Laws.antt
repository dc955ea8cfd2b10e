-- ===== src/Autodeploy/Rollback/Laws.antt =====
-- What a rollback restores.
use pi_homelab.Base.{◌+◌, ◌≡◌, refl, Bool, true, false, List, []}
use pi_homelab.Base.{◌∷◌, ◌++◌, contains, text_eq, take, filter, all, arith}
use pi_homelab.Base.{==_self, contains-append}
use pi_homelab.Base.Text.{Text, strip, nonempty}
use pi_homelab.Autodeploy.Rollback.{index, rollback_targets}

pub filter-all : {A : Type 0} (p : A → Bool) (xs : List A) → all p xs ≡ true → filter p xs ≡ xs
filter-all p [] h = refl
filter-all p (x ∷ xs) h = ground (arith, filter-all p xs)

take-index :
    (done rest : List Text) (t : Text)
    → contains done t ≡ false
    → take (index (done ++ t ∷ rest) t + 1) (done ++ t ∷ rest) ≡ done ++ t ∷ []
unfolding index
take-index [] rest t h = rw ==_self
take-index (d ∷ done) rest t h = ground (arith, take-index done rest t)

-- With the failing target named, none of the names empty and the failing one without spaces at its
-- ends, the targets up to and including its first place are restored, and
-- none behind it.
pub rollback_targets_failed :
    (done rest : List Text) (failed : Text)
    → all nonempty (done ++ failed ∷ rest) ≡ true
    → contains done failed ≡ false
    → strip failed ≡ failed
    → nonempty failed ≡ true
    → rollback_targets (done ++ failed ∷ rest) failed ≡ done ++ failed ∷ []
unfolding rollback_targets
rollback_targets_failed done rest failed named fresh tidy some_name =
    rw
      (
        filter-all nonempty (done ++ failed ∷ rest) named,
        tidy,
        some_name,
        contains-append done (failed ∷ rest) failed,
        fresh,
        ==_self failed,
      )
      (take-index done rest failed fresh)

-- With no failing target known, or one that was not planned, every named target is restored.
pub rollback_targets_unknown :
    (targets : List Text) (failed : Text)
    → contains (filter nonempty targets) (strip failed) ≡ false
    → rollback_targets targets failed ≡ filter nonempty targets
unfolding rollback_targets
rollback_targets_unknown targets failed h = rw h (ground arith)
