-- ===== src/SourceId.antt =====
-- The identity of the Go build input, scripts/go-source-id.py, up to the bytes that are hashed. A tree
-- is what `rglob` lists, in any order, with the files among it and their bytes. Names that are no
-- UTF-8, at which `encode` raises, are left out.
pub mod Content
pub mod Order
mod Tests
use pi_homelab.Base.{
  ℕ, Bool, true, false, ◌&&◌, ◌||◌, List, [], ◌∷◌, ◌++◌, ◌==◌, ltb, eqb, filter, text_eq,
}
use pi_homelab.Base.{if◌then◌else◌, length}
use pi_homelab.Base.Text.{Text, codes, ends_with}

-- The names of a path below the root, as the bytes of their UTF-8, whose order is that of the texts.
abbrev pub Parts : Type 0
Parts = List Text

pub record Tree : Type 0 where
  pub listed : List Parts
  pub is_file : Parts → Bool
  pub content : Parts → Text

-- `path.name`
abbrev pub name_of : Parts → Text
name_of [] = []
name_of (name ∷ []) = name
name_of (first ∷ second ∷ parts) = name_of (second ∷ parts)

-- `path.suffix == ".go"`: a name that is nothing else has no suffix.
unfoldable pub has_go_suffix : Text → Bool
has_go_suffix name = ends_with name (codes ".go") && ltb 3 (length name)

unfoldable pub is_input : Tree → Parts → Bool
unfolding has_go_suffix
is_input tree path =
    let name = name_of path in
    tree.is_file path && (has_go_suffix name || (name == codes "go.mod" || name == codes "go.sum"))

-- `a <= b` of texts, and of paths, which compare by their parts.
unfoldable pub text_le : Text → Text → Bool
text_le [] b = true
text_le (c ∷ a) [] = false
text_le (c ∷ a) (d ∷ b) = ltb c d || (eqb c d && text_le a b)

unfoldable pub path_le : Parts → Parts → Bool
unfolding text_le
path_le [] q = true
path_le (a ∷ p) [] = false
path_le (a ∷ p) (b ∷ q) = if a == b then path_le p q else text_le a b

unfoldable pub insert_path : Parts → List Parts → List Parts
unfolding path_le
insert_path p [] = p ∷ []
insert_path p (q ∷ paths) =
    let rest = insert_path p paths in if path_le p q then p ∷ q ∷ paths else q ∷ rest

-- `sorted`
unfoldable pub sorted : List Parts → List Parts
unfolding insert_path
sorted [] = []
sorted (p ∷ paths) = insert_path p (sorted paths)

-- `str(path.relative_to(root))`
unfoldable pub joined : Parts → Text
joined [] = codes "."
joined (name ∷ []) = name
joined (first ∷ second ∷ parts) = first ++ b'/' ∷ joined (second ∷ parts)

-- What `digest.update` is given for the paths.
unfoldable pub fed : (Parts → Text) → List Parts → Text
unfolding joined
fed content [] = []
fed content (p ∷ paths) = joined p ++ 0 ∷ (content p ++ 0 ∷ fed content paths)

-- The files that are hashed, in their order.
unfoldable pub inputs : Tree → List Parts
unfolding is_input sorted
inputs tree = filter (is_input tree) (sorted tree.listed)

unfoldable pub hashed : Tree → Text
unfolding inputs fed
hashed tree = fed tree.content (inputs tree)
