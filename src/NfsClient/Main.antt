-- ===== src/NfsClient/Main.antt =====
-- `main`: the file as the Pi reads it, and what is printed. What `json.loads` reads of a text and how
-- a number is shown are given.
use pi_homelab.Base.{ℕ, Option, none, some}
use pi_homelab.Base.Text.{Text}
use pi_homelab.Base.Json.{Value, null}
use pi_homelab.NfsClient.Render.{render}

-- The value of a text that is read; no file, and a text that is no JSON, read as None.
abbrev pub value_or_null : Option Value → Value
value_or_null none = null
value_or_null (some value) = value

abbrev pub value_of : (Text → Option Value) → Option Text → Value
value_of loads none = null
value_of loads (some text) = value_or_null (loads text)

-- What is printed, from what `read_text` returns, none where it raises.
unfoldable pub main : (show : Value → Text) (loads : Text → Option Value) → Option Text → ℕ → Text
main show loads held now = render show (value_of loads held) now
