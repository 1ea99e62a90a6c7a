-- ===== src/Host/Sequence.antt =====
-- The sequence that HandlerInvokeSequence computes for the handlers of the registry.
use azure_client_tools.Base.{
  ◌+◌, ◌≤◌, ◌<◌, ◌≡◌, refl, sym, subst, ◌∙◌, ◌⊎◌, inl, inr, List, [], ◌∷◌, ◌++◌, some, arith, Text,
  text_eq, text_eq_refl, Map, lookup, keys, count, lookup_absent, count-insert_fresh,
  HasDistinctKeys, if◌then◌else◌, ok, err,
}
use azure_client_tools.Utilities.DependencySort.{
  DependencySort, Sorted, circular_dependency, empty, set_dependencies_map, sort_dependency, entry,
}
use azure_client_tools.Utilities.DependencySort.Registration.{
  IsConsistent, empty-IsConsistent, set_dependencies_map-IsConsistent, entry-insert,
}
use azure_client_tools.Utilities.DependencySort.Met.{Covers, IsOrdered}
use azure_client_tools.Utilities.DependencySort.Order.{
  IsInvocationOrder, sort_dependency_ends, sort_dependency_sound, sort_dependency_complete,
}
use azure_client_tools.Reporting.{Exception}
use azure_client_tools.Host.{RawHandlerInfo, AzureRawHost}
use azure_client_tools.Host.Registry.{invalid_dependency, set_dependencies, handler_invoke_sequence}

entry_of_none : (a : Text) (m : Map (List Text)) → count a (keys m) ≡ 0 → entry a m ≡ []
entry_of_none a m e = rw (lookup_absent a m e)

module _ {H : Type 0} where
  -- The dependencies that the registry holds for each handler.
  unfoldable pub dependencies_of : Map (RawHandlerInfo H) → Map (List Text)
  dependencies_of [] = []
  dependencies_of ((k, info) ∷ m) = (k, info.dependencies) ∷ dependencies_of m

  pub count-dependencies_of :
      (a : Text) (m : Map (RawHandlerInfo H))
      → count a (keys (dependencies_of m)) ≡ count a (keys m)
  unfolding dependencies_of count
  count-dependencies_of a [] = refl
  count-dependencies_of a ((k, info) ∷ m) = ground (arith, count-dependencies_of a m)

  -- What the calls of SetDependenciesMap for the handlers of `m` make of a state that knows none of
  -- them.
  record Holds (m : Map (RawHandlerInfo H)) (s s' : DependencySort) : Type 0 where
    consistent : IsConsistent s'
    handlers :
        (a : Text)
        → count a (keys s'.dependency_map) ≡ count a (keys s.dependency_map) + count a (keys m)
    old : (a : Text) → count a (keys m) ≡ 0 → entry a s'.dependency_map ≡ entry a s.dependency_map
    new :
        (a : Text) → 0 < count a (keys m) → entry a s'.dependency_map ≡ entry a (dependencies_of m)

  set_dependencies-Holds :
      (m : Map (RawHandlerInfo H)) (s : DependencySort)
      → IsConsistent s
      → ((a : Text) → count a (keys s.dependency_map) + count a (keys m) ≤ 1)
      → Holds m s (set_dependencies m s)
  unfolding set_dependencies count dependencies_of lookup
  set_dependencies-Holds [] s c d = record {
    consistent = c;
    handlers = λ a. omega arith;
    old = λ a h. refl;
    new = λ a h. absurd (omega arith);
  }
  set_dependencies-Holds ((k, info) ∷ m) s c d =
      let fresh : count k (keys s.dependency_map) ≡ 0 = ground (arith, d k, text_eq_refl k) in
      let s₁ = set_dependencies_map k info.dependencies s in
      let grown : (a : Text)
          → count a (keys s₁.dependency_map)
            ≡ (if text_eq a k then 1 else 0) + count a (keys s.dependency_map) =
        λ a.
          unfold set_dependencies_map in
          count-insert_fresh a k info.dependencies s.dependency_map fresh in
      let entries : (a : Text)
          → entry a s₁.dependency_map
            ≡ (if text_eq a k then info.dependencies else entry a s.dependency_map) =
        λ a. unfold set_dependencies_map in entry-insert a k info.dependencies s.dependency_map in
      let rest =
        set_dependencies-Holds m s₁
          (set_dependencies_map-IsConsistent k info.dependencies s fresh c)
          (λ a. omega (arith, grown a, d a)) in
      record {
        consistent = rest.consistent;
        handlers = λ a. omega (arith, rest.handlers a, grown a);
        old = λ a h. ground (arith, rest.old a, entries a);
        new = λ a h. ground (arith, rest.old a, rest.new a, entries a, d a);
      }

  registered-Holds :
      (m : Map (RawHandlerInfo H)) → HasDistinctKeys m → Holds m empty (set_dependencies m empty)
  registered-Holds m d =
      set_dependencies-Holds m empty empty-IsConsistent
        (λ a. unfold empty count in omega (arith, d a))

  registered_entries :
      (m : Map (RawHandlerInfo H)) (d : HasDistinctKeys m) (a : Text)
      → entry a (set_dependencies m empty).dependency_map ≡ entry a (dependencies_of m)
  unfolding empty lookup
  registered_entries m d a = ground (
    arith,
    (registered-Holds m d).old a,
    (registered-Holds m d).new a,
    count-dependencies_of a m,
    entry_of_none a (dependencies_of m),
  )

  registered-HasDistinctKeys :
      (m : Map (RawHandlerInfo H))
      → HasDistinctKeys m
      → HasDistinctKeys (set_dependencies m empty).dependency_map
  registered-HasDistinctKeys m d a =
      unfold empty count in omega (arith, (registered-Holds m d).handlers a, d a)

IsOrdered-entries :
    (m n : Map (List Text)) (seen hs : List Text)
    → ((a : Text) → entry a m ≡ entry a n)
    → IsOrdered m seen hs
    → IsOrdered n seen hs
IsOrdered-entries m n seen [] e o = tt
IsOrdered-entries m n seen (h ∷ hs) e o =
    (subst (λ ds. Covers ds seen) (e h) o.0, IsOrdered-entries m n (seen ++ h ∷ []) hs e o.1)

IsInvocationOrder-same :
    (m n : Map (List Text)) (out : List Text)
    → ((a : Text) → entry a m ≡ entry a n)
    → ((a : Text) → count a (keys m) ≡ count a (keys n))
    → IsInvocationOrder m out
    → IsInvocationOrder n out
IsInvocationOrder-same m n out e k v = record {
  handlers = λ a. v.handlers a ∙ k a;
  ordered = IsOrdered-entries m n [] out e v.ordered;
}

module _ {H V : Type 0} (h : AzureRawHost H V) (distinct : HasDistinctKeys h.raw_handler_map) where
  sorted : DependencySort
  sorted = set_dependencies h.raw_handler_map empty

  wanted : Map (List Text)
  wanted = dependencies_of h.raw_handler_map

  same_keys : (a : Text) → count a (keys sorted.dependency_map) ≡ count a (keys wanted)
  same_keys a =
      unfold sorted wanted empty count in
      omega (
        arith,
        (registered-Holds h.raw_handler_map distinct).handlers a,
        count-dependencies_of a h.raw_handler_map,
      )

  same_entries : (a : Text) → entry a sorted.dependency_map ≡ entry a wanted
  unfolding sorted wanted
  same_entries a = registered_entries h.raw_handler_map distinct a

  consistent : IsConsistent sorted
  unfolding sorted
  consistent = (registered-Holds h.raw_handler_map distinct).consistent

  sorted-HasDistinctKeys : HasDistinctKeys sorted.dependency_map
  unfolding sorted
  sorted-HasDistinctKeys = registered-HasDistinctKeys h.raw_handler_map distinct

  -- For a host that holds each handler under one key, HandlerInvokeSequence ends. If it returns,
  -- only the sequence of the host has changed, and it is an invocation order of the registered
  -- handlers: each of them once, behind those that it depends on. It throws only if the handlers
  -- have no such order.
  pub handler_invoke_sequence_orders :
      ((h' : AzureRawHost H V) × (handler_invoke_sequence h ≡ some (ok h'))
        × (h' ≡ record h { raw_handler_sequence = h'.raw_handler_sequence })
        × IsInvocationOrder (dependencies_of h.raw_handler_map) h'.raw_handler_sequence)
      ⊎ ((e : Exception) × (handler_invoke_sequence h ≡ some (err e))
          × ((o : List Text) → ¬ IsInvocationOrder (dependencies_of h.raw_handler_map) o))
  unfolding handler_invoke_sequence sorted wanted
  handler_invoke_sequence_orders =
      let (r, e) = sort_dependency_ends sorted consistent sorted-HasDistinctKeys in by_result r e
    where
      by_result :
          (r : Sorted)
          → sort_dependency sorted ≡ some r
          → ((h' : AzureRawHost H V) × (handler_invoke_sequence h ≡ some (ok h'))
              × (h' ≡ record h { raw_handler_sequence = h'.raw_handler_sequence })
              × IsInvocationOrder (dependencies_of h.raw_handler_map) h'.raw_handler_sequence)
            ⊎ ((e : Exception) × (handler_invoke_sequence h ≡ some (err e))
                × ((o : List Text) → ¬ IsInvocationOrder (dependencies_of h.raw_handler_map) o))
      by_result (Sorted.ok out) e = inl (
        record h { raw_handler_sequence = out },
        rw e,
        refl,
        IsInvocationOrder-same sorted.dependency_map wanted out same_entries same_keys
            (sort_dependency_sound sorted consistent sorted-HasDistinctKeys out e),
      )
      by_result circular_dependency e = inr (
        invalid_dependency,
        rw e,
        λ o v.
            let (out, f) = sort_dependency_complete sorted consistent sorted-HasDistinctKeys o (
              IsInvocationOrder-same wanted sorted.dependency_map o (λ a. sym (same_entries a))
                (λ a. sym (same_keys a)) v) in
            cc,
      )
