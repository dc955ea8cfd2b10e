-- ===== src/SourceId/Tests.antt =====
-- A small tree, listed in two orders.
use pi_homelab.Base.{◌≡◌, refl, ◌↔◌, not, true, [], ◌∷◌, ◌==◌, all, text_eq}
use mathlib.Core.List.{Permᴰ}
use pi_homelab.Base.Text.{codes, ends_with}
use pi_homelab.SourceId.{Parts, Tree, inputs, hashed, joined, name_of}
use pi_homelab.SourceId.Content.{is_clean, files, hashed-files}
use pi_homelab.SourceId.Order.{hashed-Perm}

abbrev go_mod : Parts
go_mod = codes "go.mod" ∷ []

abbrev main_go : Parts
main_go = codes "cmd" ∷ codes "main.go" ∷ []

abbrev readme : Parts
readme = codes "README.md" ∷ []

abbrev tree : Tree
tree = record {
  listed = go_mod ∷ readme ∷ (codes "cmd" ∷ []) ∷ main_go ∷ [];
  is_file = λ path. not (name_of path == codes "cmd");
  content = λ path. codes "x";
}

-- The same files elsewhere, and another readme.
abbrev other : Tree
other = record tree { listed = readme ∷ main_go ∷ go_mod ∷ [] }

order : inputs tree ≡ main_go ∷ go_mod ∷ []
unfolding inputs text_eq ends_with
order = refl

clean : all (is_clean tree.content) (inputs tree) ≡ true
unfolding inputs joined text_eq ends_with
clean = refl

clean_other : all (is_clean other.content) (inputs other) ≡ true
unfolding inputs joined text_eq ends_with
clean_other = refl

hashed-files_example : (hashed tree ≡ hashed other) ↔ (files tree ≡ files other)
hashed-files_example = hashed-files tree other clean clean_other

hashed-Perm_example :
    hashed (record tree { listed = readme ∷ go_mod ∷ (codes "cmd" ∷ []) ∷ main_go ∷ [] })
    ≡ hashed tree
hashed-Perm_example =
    hashed-Perm tree (readme ∷ go_mod ∷ (codes "cmd" ∷ []) ∷ main_go ∷ []) (Permᴰ.swap refl refl)
