-- ===== src/Diff/Tests.antt =====
-- Two states with one key changed, one gone and one new.
use wll.Base.{ℕ, ◌≡◌, eq_nat, eq_string, [], ◌∷◌, refl}
use wll.Base.Maps
use wll.Base.Maps.{BTreeMap}
use wll.Diff.State.{diff_states}
use wll.Diff.State.Patched.{patch, AllTrue, diff_states-patch}

abbrev before : BTreeMap ℕ
before = ("a", 1) ∷ ("b", 2) ∷ ("c", 3) ∷ []

abbrev after : BTreeMap ℕ
after = ("a", 1) ∷ ("c", 4) ∷ ("d", 5) ∷ []

diff_states-patch_example :
    (Maps.get "c" (patch (diff_states before after).changes before) ≡ Maps.get "c" after)
    × AllTrue before after (diff_states before after).changes
diff_states-patch_example =
    diff_states-patch before after "c" ((refl, (refl, tt)), ((refl, tt), (tt, tt)))
      ((refl, (refl, tt)), ((refl, tt), (tt, tt)))
