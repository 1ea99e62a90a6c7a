-- ===== src/Utilities/DependencySort/Met.antt =====
-- How many of a handler's dependencies the handlers dequeued so far have met.
use azure_client_tools.Base.{
  ℕ, ◌+◌, ◌≤◌, ◌<◌, ◌≡◌, refl, List, [], ◌∷◌, ◌++◌, arith, Text, text_eq_iff, count, count-append,
  length, Map,
}
use azure_client_tools.Utilities.DependencySort.{entry}

abbrev pub NoRepeats : List Text → Type 0
NoRepeats r = (a : Text) → count a r ≤ 1

-- Each text of the first list stands in the second.
abbrev pub Covers : List Text → List Text → Type 0
Covers ds r = (a : Text) → 0 < count a ds → 0 < count a r

unfoldable pub met : List Text → List Text → ℕ
met ds [] = 0
met ds (a ∷ r) = count a ds + met ds r

pub met-append : (ds r : List Text) (u : Text) → met ds (r ++ u ∷ []) ≡ met ds r + count u ds
unfolding met
met-append ds [] u = omega arith
met-append ds (a ∷ r) u = omega (arith, met-append ds r u)

met-nil : (r : List Text) → met [] r ≡ 0
unfolding met count
met-nil [] = refl
met-nil (a ∷ r) = omega (arith, met-nil r)

met-cons : (d : Text) (ds r : List Text) → met (d ∷ ds) r ≡ count d r + met ds r
unfolding met count
met-cons d ds [] = omega arith
met-cons d ds (a ∷ r) = ground (arith, met-cons d ds r, text_eq_iff a d, text_eq_iff d a)

pub met_le : (ds r : List Text) → NoRepeats r → met ds r ≤ length ds
met_le [] r n = omega (arith, met-nil r)
met_le (d ∷ ds) r n = omega (arith, met-cons d ds r, met_le ds r n, n d)

Covers-tail : (d : Text) (ds r : List Text) → Covers (d ∷ ds) r → Covers ds r
Covers-tail d ds r c a h = unfold count in c a (ground arith)

pub met_full : (ds r : List Text) → NoRepeats r → met ds r ≡ length ds → Covers ds r
unfolding count
met_full [] r n e a h = absurd (omega arith)
met_full (d ∷ ds) r n e a h = ground (
  arith,
  met-cons d ds r,
  met_le ds r n,
  n d,
  text_eq_iff a d,
  met_full ds r n (omega (arith, met-cons d ds r, met_le ds r n, n d)) a,
)

pub met_of_Covers : (ds r : List Text) → NoRepeats r → Covers ds r → met ds r ≡ length ds
unfolding count
met_of_Covers [] r n c = met-nil r
met_of_Covers (d ∷ ds) r n c =
    ground (
      arith,
      met-cons d ds r,
      n d,
      c d,
      text_eq_iff d d,
      met_of_Covers ds r n (Covers-tail d ds r c),
    )

-- Behind the handlers of `seen`, each handler of the list comes after all that it depends on.
abbrev pub IsOrdered : Map (List Text) → List Text → List Text → Type 0
IsOrdered m seen [] = Unit
IsOrdered m seen (h ∷ hs) = Covers (entry h m) seen × IsOrdered m (seen ++ h ∷ []) hs

pub IsOrdered-append :
    (m : Map (List Text)) (u : Text) (seen hs : List Text)
    → IsOrdered m seen hs
    → Covers (entry u m) (seen ++ hs)
    → IsOrdered m seen (hs ++ u ∷ [])
unfolding count
IsOrdered-append m u seen [] o c = (λ a h. omega (arith, c a h, count-append a seen []), tt)
IsOrdered-append m u seen (h ∷ hs) o c = (
  o.0,
  IsOrdered-append m u (seen ++ h ∷ []) hs o.1 (λ a p. omega (
    arith,
    c a p,
    count-append a seen (h ∷ hs),
    count-append a (seen ++ h ∷ []) hs,
    count-append a seen (h ∷ []),
  )),
)
