-- ===== src/Base/Result.antt =====
-- Python's exceptions as values, and the outcomes of reading a file.
use pi_homelab.Base.Text.{Text}

pub data Exception : Type 0 where
  type_error value_error overflow_error unicode_error index_error recursion_error : Exception

pub data Result {ℓ} (A : Type ℓ) : Type ℓ where
  ok : A → Result A
  raise : Exception → Result A

infixl 5 ◌>>=◌
abbrev pub ◌>>=◌ {ℓ κ} : {A : Type ℓ} {B : Type κ} → Result A → (A → Result B) → Result B
ok a >>= f = f a
raise e >>= f = raise e

-- `open(path).read()`: an `OSError`, bytes that are no UTF-8, or the text.
pub data Read : Type 0 where
  unreadable : Read
  undecodable : Read
  contents : Text → Read
