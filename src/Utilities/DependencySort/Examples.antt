-- ===== src/Utilities/DependencySort/Examples.antt =====
-- SortDependency on two handlers: "a" depends on "b".
use azure_client_tools.Base.{
  ◌≡◌, refl, List, [], ◌∷◌, some, arith, Text, codes, HasDistinctKeys, count, lookup, insert,
  text_eq, text_lt,
}
use azure_client_tools.Utilities.DependencySort.{
  DependencySort, Sorted, ok, circular_dependency, empty, set_dependencies_map, sort_dependency,
}
use azure_client_tools.Utilities.DependencySort.Registration.{
  IsConsistent, empty-IsConsistent, set_dependencies_map-IsConsistent,
  set_dependencies_map-HasDistinctKeys,
}
use azure_client_tools.Utilities.DependencySort.Order.{
  IsInvocationOrder, sort_dependency_ends, sort_dependency_sound, sort_dependency_complete,
}

abbrev one_handler : DependencySort
one_handler = set_dependencies_map (codes "a") (codes "b" ∷ []) empty

abbrev two_handlers : DependencySort
two_handlers = set_dependencies_map (codes "b") [] one_handler

two_handlers_order : sort_dependency two_handlers ≡ some (ok (codes "b" ∷ codes "a" ∷ []))
unfolding sort_dependency set_dependencies_map empty insert lookup text_eq text_lt
two_handlers_order = refl

abbrev circle : DependencySort
circle = set_dependencies_map (codes "b") (codes "a" ∷ []) one_handler

circle_throws : sort_dependency circle ≡ some circular_dependency
unfolding sort_dependency set_dependencies_map empty insert lookup text_eq text_lt
circle_throws = refl

one_handler-IsConsistent : IsConsistent one_handler
one_handler-IsConsistent =
    set_dependencies_map-IsConsistent (codes "a") (codes "b" ∷ []) empty
      (unfold empty count in refl) empty-IsConsistent

two_handlers-IsConsistent : IsConsistent two_handlers
two_handlers-IsConsistent =
    set_dependencies_map-IsConsistent (codes "b") [] one_handler
      (unfold empty count set_dependencies_map insert text_eq text_lt in refl)
      one_handler-IsConsistent

two_handlers-HasDistinctKeys : HasDistinctKeys two_handlers.dependency_map
two_handlers-HasDistinctKeys = set_dependencies_map-HasDistinctKeys (codes "b") [] one_handler (
    set_dependencies_map-HasDistinctKeys (codes "a") (codes "b" ∷ []) empty
      (λ k. unfold empty count in omega arith))

sort_dependency_ends_example : (r : Sorted) × (sort_dependency two_handlers ≡ some r)
sort_dependency_ends_example =
    sort_dependency_ends two_handlers two_handlers-IsConsistent two_handlers-HasDistinctKeys

sort_dependency_sound_example :
    IsInvocationOrder two_handlers.dependency_map (codes "b" ∷ codes "a" ∷ [])
sort_dependency_sound_example =
    sort_dependency_sound two_handlers two_handlers-IsConsistent two_handlers-HasDistinctKeys
      (codes "b" ∷ codes "a" ∷ []) two_handlers_order

sort_dependency_complete_example :
    (out : List Text) × (sort_dependency two_handlers ≡ some (ok out))
sort_dependency_complete_example =
    sort_dependency_complete two_handlers two_handlers-IsConsistent two_handlers-HasDistinctKeys
      (codes "b" ∷ codes "a" ∷ [])
      (sort_dependency_sound two_handlers two_handlers-IsConsistent two_handlers-HasDistinctKeys
        (codes "b" ∷ codes "a" ∷ []) two_handlers_order)
