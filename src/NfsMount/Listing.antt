-- ===== src/NfsMount/Listing.antt =====
-- `mount_status`, and the listing that `mounted_sources` reads.
use pi_homelab.Base.{Bool, true, false, not, ◌&&◌, ◌||◌, Option, none, some, List, [], ◌∷◌}
use pi_homelab.Base.{◌==◌, text_eq, eqb, if◌then◌else◌}
use pi_homelab.Base.Text.{Text, codes, strip, starts_with, is_infix, is_space, before, after}
use pi_homelab.Base.Text.{splitlines}
use pi_homelab.Base.Dict.{Dict, insert}
use pi_homelab.NfsMount.Decide.{MountState, healthy, hung, unknown}

-- What the flags of the target say.
unfoldable pub flags_status : Text → MountState
flags_status flags =
    if is_infix (codes "not responding") flags
    then hung
    else if flags == codes "0x0"
    then healthy
    else unknown

-- The loop over the lines, from `in_target` on.
unfoldable pub status_from : Text → Bool → List Text → MountState
unfolding flags_status
status_from target in_target [] = unknown
status_from target in_target (line ∷ lines) =
    elim (is_infix (codes " from ") line && not (starts_with line (codes " "))) [
      | true ↦ status_from target (before (codes " from ") line == target) lines
      | false ↦ elim (in_target && is_infix (codes "Status flags:") line) [
        | true ↦ flags_status (strip (after (codes "Status flags:") line))
        | false ↦ status_from target in_target lines
      ]
    ]

unfoldable pub mount_status : Text → Text → MountState
unfolding status_from splitlines
mount_status output target = status_from target false (splitlines output)

-- The leading characters that are no spaces, and the rest.
unfoldable pub word : Text → Text
unfolding is_space
word [] = []
word (c ∷ s) = if is_space c then [] else c ∷ word s

unfoldable pub after_word : Text → Text
unfolding is_space
after_word [] = []
after_word (c ∷ s) = if is_space c then c ∷ s else after_word s

-- `\S+:\S+` on a word: a colon that is neither its first nor its last character.
unfoldable pub has_colon : Text → Bool
has_colon [] = false
has_colon (c ∷ []) = false
has_colon (c ∷ d ∷ []) = false
has_colon (c ∷ d ∷ e ∷ s) = eqb d b':' || has_colon (d ∷ e ∷ s)

-- `(.+) \(nfs[,)]`: the text before the last mark, not empty.
unfoldable pub before_mark : Text → Option Text
before_mark [] = none
before_mark (c ∷ s) = elim (before_mark s) [
  | some t ↦ some (c ∷ t)
  | none ↦
      if starts_with s (codes " (nfs,") || starts_with s (codes " (nfs)")
      then some (c ∷ [])
      else none
]

-- One line of `mount` through the regular expression: the target of a source.
unfoldable pub mount_line : Text → Option (Text × Text)
unfolding word after_word has_colon before_mark
mount_line line =
    let source = word line in
    if has_colon source && starts_with (after_word line) (codes " on ")
    then elim (before_mark (after (codes " on ") (after_word line))) [
      | none ↦ none
      | some target ↦ some (target, source)
    ]
    else none

-- `sources[match[2]] = match[1]` over the lines.
unfoldable pub sources_from : Dict Text Text → List Text → Dict Text Text
unfolding mount_line
sources_from sources [] = sources
sources_from sources (line ∷ lines) =
    sources_from
      (elim (mount_line line) [ none ↦ sources | some (t, source) ↦ insert t source sources ]) lines

unfoldable pub sources_of : Text → Dict Text Text
unfolding sources_from splitlines
sources_of stdout = sources_from [] (splitlines stdout)
