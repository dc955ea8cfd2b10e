-- ===== src/Autodeploy/State.antt =====
-- `_load`, `needs_deploy`, `ci_passed` and the transitions of state.json. The state is the dict of
-- the file, with whatever other keys it holds.
pub mod Laws
use pi_homelab.Base.{Bool, true, false, not, ◌&&◌, Option, none, some, List, [], ◌∷◌, ◌==◌}
use pi_homelab.Base.{text_eq, if◌then◌else◌}
use pi_homelab.Base.Text.{Text, codes, strip, lower, nonempty}
use pi_homelab.Base.Dict.{Dict, lookup, insert}
use pi_homelab.Base.Int.{ℤ, pos, ◌+ℤ◌}
use pi_homelab.Base.Json.{Value, int, str, int_of, Loaded, loaded_object}
use pi_homelab.Base.Result.{Result, ok, raise, ◌>>=◌, unicode_error}
use pi_homelab.Base.Result.{Read, unreadable, undecodable, contents}

abbrev pub State : Type 0
State = Dict Text Value

abbrev pub seen_sha : Text
seen_sha = codes "seen_sha"

abbrev pub failed_sha : Text
failed_sha = codes "failed_sha"

abbrev pub last_good_sha : Text
last_good_sha = codes "last_good_sha"

abbrev pub last_deploy_sha : Text
last_deploy_sha = codes "last_deploy_sha"

abbrev pub last_deploy_ts : Text
last_deploy_ts = codes "last_deploy_ts"

abbrev pub last_deploy_result : Text
last_deploy_result = codes "last_deploy_result"

abbrev pub fail_count : Text
fail_count = codes "fail_count"

-- Bytes that are no UTF-8 raise a `UnicodeDecodeError`, which the handler does not name.
unfoldable pub load : (Text → Loaded) → Read → Result State
unfolding loaded_object
load loads unreadable = ok []
load loads undecodable = raise unicode_error
load loads (contents text) = loaded_object (loads text)

-- `text == value`, for a value that may be missing or no text.
unfoldable pub is_text : Option Value → Text → Bool
is_text (some (str s)) text = text == s
is_text _ text = false

unfoldable pub needs_deploy : State → Text → Bool
unfolding is_text
needs_deploy state origin_head =
    let head = strip origin_head in
    if not (nonempty head)
    then false
    else if is_text (lookup failed_sha state) head
    then false
    else not (is_text (lookup seen_sha state) head)

unfoldable pub on_attempt : State → Text → State
on_attempt state sha = insert seen_sha (str (strip sha)) state

unfoldable pub ci_passed : Text → Bool
unfolding lower strip
ci_passed conclusion = lower (strip conclusion) == codes "success"

unfoldable pub on_success : State → Text → ℤ → State
on_success state sha now = insert failed_sha (str []) (
    insert last_deploy_result (str (codes "ok")) (
      insert last_deploy_ts (int now)
        (insert last_deploy_sha (str sha) (insert last_good_sha (str sha) state))))

-- `int(state.get("fail_count", 0))`
unfoldable pub count_of : Option Value → Result ℤ
count_of none = ok (pos 0)
count_of (some v) = int_of v

-- A count that `int` refuses raises, and nothing is printed.
unfoldable pub on_fail : State → Text → ℤ → Result State
unfolding count_of
on_fail state sha now = do
  count ← count_of (lookup fail_count state)
  ok (
      insert fail_count (int (count +ℤ pos 1)) (
        insert last_deploy_result (str (codes "rolled_back")) (
          insert last_deploy_ts (int now)
            (insert last_deploy_sha (str sha) (insert failed_sha (str sha) state)))))
