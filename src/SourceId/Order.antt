-- ===== src/SourceId/Order.antt =====
-- The order in which `rglob` lists a tree does not matter.
use pi_homelab.Base.{true, ◌||◌, List, [], ◌∷◌, ◌≡◌, refl, sym, ap, ◌∙◌, arith}
use pi_homelab.Base.{==_sym, text_eq, filter}
use mathlib.Core.List.{Permᴰ}
use pi_homelab.Base.Text.{Text}
use pi_homelab.SourceId.{
  Parts, Tree, text_le, path_le, insert_path, sorted, inputs, is_input, hashed, fed,
}

text_le_total : (a b : Text) → (text_le a b || text_le b a) ≡ true
unfolding text_le
text_le_total [] b = refl
text_le_total (c ∷ a) [] = refl
text_le_total (c ∷ a) (d ∷ b) = ground (arith, text_le_total a b)

text_le_trans : (a b c : Text) → text_le a b ≡ true → text_le b c ≡ true → text_le a c ≡ true
unfolding text_le
text_le_trans [] b c p q = refl
text_le_trans (x ∷ a) [] c p q = ground arith
text_le_trans (x ∷ a) (y ∷ b) [] p q = ground arith
text_le_trans (x ∷ a) (y ∷ b) (z ∷ c) p q = ground (arith, text_le_trans a b c)

text_le_antisym : (a b : Text) → text_le a b ≡ true → text_le b a ≡ true → a ≡ b
unfolding text_le
text_le_antisym [] [] p q = refl
text_le_antisym [] (d ∷ b) p q = ground arith
text_le_antisym (c ∷ a) [] p q = ground arith
text_le_antisym (c ∷ a) (d ∷ b) p q = ground (arith, text_le_antisym a b)

path_le_total : (p q : Parts) → (path_le p q || path_le q p) ≡ true
unfolding path_le
path_le_total [] q = refl
path_le_total (a ∷ p) [] = refl
path_le_total (a ∷ p) (b ∷ q) = ground (arith, path_le_total p q, text_le_total a b, ==_sym a b)

path_le_antisym : (p q : Parts) → path_le p q ≡ true → path_le q p ≡ true → p ≡ q
unfolding path_le
path_le_antisym [] [] h k = refl
path_le_antisym [] (b ∷ q) h k = ground arith
path_le_antisym (a ∷ p) [] h k = ground arith
path_le_antisym (a ∷ p) (b ∷ q) h k =
    ground (arith, path_le_antisym p q, text_le_antisym a b, ==_sym a b)

path_le_trans : (p q r : Parts) → path_le p q ≡ true → path_le q r ≡ true → path_le p r ≡ true
unfolding path_le
path_le_trans [] q r h k = refl
path_le_trans (a ∷ p) [] r h k = ground arith
path_le_trans (a ∷ p) (b ∷ q) [] h k = ground arith
path_le_trans (a ∷ p) (b ∷ q) (c ∷ r) h k =
    ground
      (arith, path_le_trans p q r, text_le_trans a b c, text_le_antisym a b, text_le_antisym b c)

insert_path-insert_path :
    (p q : Parts) (paths : List Parts)
    → insert_path p (insert_path q paths) ≡ insert_path q (insert_path p paths)
unfolding insert_path
insert_path-insert_path p q [] = ground (arith, path_le_total p q, path_le_antisym p q)
insert_path-insert_path p q (r ∷ paths) = ground (
  arith,
  insert_path-insert_path p q paths,
  path_le_total p q,
  path_le_antisym p q,
  path_le_trans p q r,
  path_le_trans q p r,
  path_le_total p r,
  path_le_total q r,
  path_le_trans q r p,
  path_le_trans p r q,
)

sorted-Perm : {paths others : List Parts} → Permᴰ paths others → sorted paths ≡ sorted others
unfolding sorted
sorted-Perm Permᴰ.nil = refl
sorted-Perm (Permᴰ.cons e h) = rw (e, sorted-Perm h) refl
sorted-Perm (Permᴰ.swap {a = a} {b = b} {l = l} e f) =
    insert_path-insert_path a b (sorted l) ∙ (rw (e, f) refl)
sorted-Perm (Permᴰ.trans h k) = sorted-Perm h ∙ sorted-Perm k

-- The bytes that are hashed for a tree do not depend on the order in which it is listed.
pub hashed-Perm :
    (tree : Tree) (others : List Parts)
    → Permᴰ tree.listed others
    → hashed (record tree { listed = others }) ≡ hashed tree
unfolding hashed inputs
hashed-Perm tree others h =
    ap (λ paths. fed tree.content (filter (is_input tree) paths)) (sym (sorted-Perm h))
