-- ===== src/SourceId/Content.antt =====
-- The bytes that are hashed determine the files.
use pi_homelab.Base.{
  Bool, true, not, ◌&&◌, List, [], ◌∷◌, ◌++◌, ◌≡◌, refl, sym, ap, ◌∙◌, ◌↔◌, eqb, all, map, arith,
}
use pi_homelab.Base.Text.{Text}
use pi_homelab.SourceId.{Parts, Tree, joined, fed, inputs, hashed}

-- A file by its path and its bytes.
abbrev pub entry : (Parts → Text) → Parts → Text × Text
entry content path = (joined path, content path)

abbrev pub no_nul : Text → Bool
no_nul text = all (λ c. not (eqb c 0)) text

-- Neither the path nor the bytes hold a NUL.
abbrev pub is_clean : (Parts → Text) → Parts → Bool
is_clean content path = no_nul (joined path) && no_nul (content path)

-- The files of the build, in the order of their paths.
abbrev pub files : Tree → List (Text × Text)
files tree = map (entry tree.content) (inputs tree)

-- The first NUL ends a text without one.
up_to_nul :
    (a b s t : Text)
    → no_nul a ≡ true
    → no_nul b ≡ true
    → a ++ 0 ∷ s ≡ b ++ 0 ∷ t
    → (a ≡ b) × (s ≡ t)
up_to_nul [] [] s t p q h = (refl, cc)
up_to_nul [] (d ∷ b) s t p q h = ground arith
up_to_nul (c ∷ a) [] s t p q h = ground arith
up_to_nul (c ∷ a) (d ∷ b) s t p q h =
    let (same, rest) = up_to_nul a b s t (ground arith) (ground arith) cc in (cc, rest)

not_empty : (a s : Text) → [] ≡ a ++ 0 ∷ s → ⊥
not_empty [] s h = cc
not_empty (c ∷ a) s h = cc

fed-files :
    (content other : Parts → Text) (paths others : List Parts)
    → all (is_clean content) paths ≡ true
    → all (is_clean other) others ≡ true
    → fed content paths ≡ fed other others
    → map (entry content) paths ≡ map (entry other) others
unfolding fed
fed-files content other [] [] c d h = refl
fed-files content other [] (q ∷ others) c d h = absurd (not_empty (joined q) _ h)
fed-files content other (p ∷ paths) [] c d h = absurd (not_empty (joined p) _ (sym h))
fed-files content other (p ∷ paths) (q ∷ others) c d h =
    let (path, more) = up_to_nul (joined p) (joined q) _ _ (ground arith) (ground arith) h in
    let (text, rest) = up_to_nul (content p) (other q) _ _ (ground arith) (ground arith) more in
    let later = fed-files content other paths others (ground arith) (ground arith) rest in cc

-- The bytes for files.
fed_entries : List (Text × Text) → Text
fed_entries [] = []
fed_entries ((path, text) ∷ entries) = path ++ 0 ∷ (text ++ 0 ∷ fed_entries entries)

fed-entries :
    (content : Parts → Text) (paths : List Parts)
    → fed_entries (map (entry content) paths) ≡ fed content paths
unfolding fed fed_entries
fed-entries content [] = refl
fed-entries content (p ∷ paths) =
    ap (λ rest. joined p ++ 0 ∷ (content p ++ 0 ∷ rest)) (fed-entries content paths)

-- If no path and no file of two trees holds a NUL, the bytes that are hashed for them are the same
-- exactly where their Go files, go.mod and go.sum have the same paths and the same bytes.
pub hashed-files :
    (a b : Tree)
    → all (is_clean a.content) (inputs a) ≡ true
    → all (is_clean b.content) (inputs b) ≡ true
    → (hashed a ≡ hashed b) ↔ (files a ≡ files b)
unfolding hashed
hashed-files a b c d = (
  fed-files a.content b.content (inputs a) (inputs b) c d,
  λ same.
      sym (fed-entries a.content (inputs a))
      ∙ ap fed_entries same
      ∙ fed-entries b.content (inputs b),
)
