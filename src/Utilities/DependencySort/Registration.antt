-- ===== src/Utilities/DependencySort/Registration.antt =====
-- What SetDependenciesMap keeps of the two maps of DependencySort.
use azure_client_tools.Base.{
  ◌+◌, ◌≡◌, refl, inl, inr, Bool-cases, List, [], ◌∷◌, ◌++◌, arith, Text, text_eq, text_eq_iff, Map,
  lookup, insert, keys, lookup-insert, lookup_absent, insert-HasDistinctKeys, HasDistinctKeys,
  count, count-append, if◌then◌else◌,
}
use azure_client_tools.Utilities.DependencySort.{
  DependencySort, entry, empty, push_dependents, set_dependencies_map,
}

pub entry-insert :
    (i k : Text) (v : List Text) (m : Map (List Text))
    → entry i (insert k v m) ≡ (if text_eq i k then v else entry i m)
entry-insert i k v m = elim (Bool-cases (text_eq i k)) [
  | inl e ↦ rw (lookup-insert, e)
  | inr e ↦ rw (lookup-insert, e)
]

-- The two maps state one relation: `h` stands under its dependency `a` as often as `a` is listed
-- for `h`.
abbrev pub IsConsistent : DependencySort → Type 0
IsConsistent s = (h a : Text) → count h (entry a s.d_map) ≡ count a (entry h s.dependency_map)

count-push_dependents :
    (h a handler : Text) (ds : List Text) (m : Map (List Text))
    → count h (entry a (push_dependents handler ds m))
      ≡ count h (entry a m) + (if text_eq h handler then count a ds else 0)
unfolding push_dependents count
count-push_dependents h a handler [] m = ground arith
count-push_dependents h a handler (d ∷ ds) m =
    let m' = insert d (entry d m ++ handler ∷ []) m in
    ground (
      arith,
      count-push_dependents h a handler ds m',
      entry-insert a d (entry d m ++ handler ∷ []) m,
      count-append h (entry d m) (handler ∷ []),
      text_eq_iff a d,
    )

pub empty-IsConsistent : IsConsistent empty
unfolding empty count lookup
empty-IsConsistent h a = refl

entry_absent :
    (h : Text) (m : Map (List Text)) → count h (keys m) ≡ 0 → (a : Text) → count a (entry h m) ≡ 0
unfolding count
entry_absent h m e a = rw (lookup_absent h m e)

pub set_dependencies_map-IsConsistent :
    (handler : Text) (ds : List Text) (s : DependencySort)
    → count handler (keys s.dependency_map) ≡ 0
    → IsConsistent s
    → IsConsistent (set_dependencies_map handler ds s)
unfolding set_dependencies_map
set_dependencies_map-IsConsistent handler ds s fresh c h a = ground (
  arith,
  count-push_dependents h a handler ds s.d_map,
  entry-insert h handler ds s.dependency_map,
  c h a,
  text_eq_iff h handler,
  entry_absent handler s.dependency_map fresh a,
)

pub set_dependencies_map-HasDistinctKeys :
    (handler : Text) (ds : List Text) (s : DependencySort)
    → HasDistinctKeys s.dependency_map
    → HasDistinctKeys (set_dependencies_map handler ds s).dependency_map
unfolding set_dependencies_map
set_dependencies_map-HasDistinctKeys handler ds s d =
    insert-HasDistinctKeys handler ds s.dependency_map d
