-- ===== src/KernelScan/Main/Refinement.antt =====
-- The runs over their files do what the sequence of scans does over the values they publish.
use pi_homelab.Base.{◌≡◌, refl, ◌∙◌, ◌^◌, ◌<◌, true, Option, some, List, []}
use pi_homelab.Base.{◌∷◌, length}
use pi_homelab.Base.Text.{Text, nonempty}
use pi_homelab.Base.Unlines.{is_plain}
use pi_homelab.Base.Result.{Result, ok}
use pi_homelab.KernelScan.Scan.{scan}
use pi_homelab.KernelScan.Prom.{Totals, render_prom}
use pi_homelab.KernelScan.Parse.{Published, parse_prom}
use pi_homelab.KernelScan.Parse.RoundTrip.{published, parse_prom-render_prom}
use pi_homelab.KernelScan.Parse.Plain.{plain_boot}
use pi_homelab.KernelScan.Carry.{carry_forward, totals, publish}
use pi_homelab.KernelScan.Main.{Run, main, scan_with_boot, main_all}
use pi_homelab.KernelScan.Main.Totals.{IsExact, parse_prom-IsFull, listed-full, scan_full}
use pi_homelab.KernelScan.Main.Totals.{scan_exact, carry_forward-full, carry_forward-exact}

-- The boot id is not empty and holds no quote and no line end, the time holds no line end, and there
-- are fewer lines than a double can count.
abbrev pub IsSane : Run → Type 0
IsSane r =
    (nonempty r.boot ≡ true)
    × (plain_boot (some r.boot) ≡ true)
    × (is_plain r.now ≡ true)
    × (length r.lines < 2 ^ 53)

-- The text of a run, which is read back as what the scan publishes.
abbrev pub Writes : Result Text → Published → Type 0
Writes r q = (text : Text) × (r ≡ ok text) × (parse_prom text ≡ ok q)

publish-IsExact :
    (p : Published) (boot : Text) (lines : List Text)
    → IsExact p
    → length lines < 2 ^ 53
    → IsExact (publish p boot lines)
unfolding publish
publish-IsExact p boot lines e h = (scan_exact lines h, carry_forward-exact p (some boot) e)

same_published :
    (boot : Option Text) {c d l m : Totals}
    → c ≡ d
    → l ≡ m
    → ◌≡◌ {A = Result Published} (ok (published boot c l)) (ok (published boot d m))
same_published boot p q = cc

main-publish :
    (r : Run) (previous : Text) (p : Published)
    → IsSane r
    → IsExact p
    → parse_prom previous ≡ ok p
    → Writes (main r.now (some r.boot) (some previous) r.lines) (publish p r.boot r.lines)
unfolding main scan_with_boot publish
main-publish r previous p (n, b, t, l) e h =
    let counts = totals (scan r.lines) in
    let carried = carry_forward p (some r.boot) in
    (
      render_prom counts r.now (some r.boot) (some carried),
      rw (n, h) refl,
      parse_prom-render_prom counts r.now (some r.boot) (some carried) (scan_exact r.lines l)
            (carry_forward-exact p (some r.boot) e) b t
          ∙ same_published (some r.boot) (listed-full counts (scan_full r.lines)) (
              listed-full carried
                (carry_forward-full p (some r.boot) (parse_prom-IsFull previous p h))),
    )

abbrev pub publish_runs : Published → List Run → Published
publish_runs p [] = p
publish_runs p (r ∷ rs) = publish_runs (publish p r.boot r.lines) rs

abbrev pub AllSane : List Run → Type 0
AllSane [] = Unit {0}
AllSane (r ∷ rs) = IsSane r × AllSane rs

-- From a file that can be read and holds no total of 2 ^ 53 or more, every sequence of sane runs
-- succeeds, each behind the file that the last one wrote, and the last file is read back as what the
-- scans, one after another, publish.
pub main_all-publish_runs :
    (rs : List Run) (previous : Text) (p : Published)
    → AllSane rs
    → IsExact p
    → parse_prom previous ≡ ok p
    → Writes (main_all previous rs) (publish_runs p rs)
unfolding main_all
main_all-publish_runs [] previous p s e h = (previous, refl, h)
main_all-publish_runs (r ∷ rs) previous p (s, ss) e h =
    let (text, done, reads) = main-publish r previous p s e h in
    rw done (
      main_all-publish_runs rs text (publish p r.boot r.lines) ss
        (publish-IsExact p r.boot r.lines e (s.3)) reads)
