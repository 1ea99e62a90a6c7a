-- ===== src/Utilities/DependencySort/Order.antt =====
-- The result of SortDependency is an order in which every handler follows its dependencies, and the
-- exception is thrown only where there is none.
use azure_client_tools.Base.{
  ℕ, suc, ◌≤◌, ◌<◌, ◌≡◌, refl, sym, subst, ap, ◌∙◌, List, [], ◌∷◌, ◌++◌, some, arith, Text,
  text_eq_iff, Map, keys, count, count-append, length, length-Within, Within-full, if◌then◌else◌,
  ◌==◌, HasDistinctKeys,
}
use azure_client_tools.Utilities.DependencySort.{
  DependencySort, Sorted, ok, circular_dependency, entry, sort_dependency, initial_counts,
  initial_queue, drain, check_count,
}
use azure_client_tools.Utilities.DependencySort.Registration.{IsConsistent}
use azure_client_tools.Utilities.DependencySort.Start.{count_of-initial_counts, count-initial_queue}
use azure_client_tools.Utilities.DependencySort.Met.{
  met, met_of_Covers, NoRepeats, Covers, IsOrdered,
}
use azure_client_tools.Utilities.DependencySort.Loop.{Inv, Finished, drain-Finished}

-- The list holds each handler once, behind all that it depends on.
pub record IsInvocationOrder (m : Map (List Text)) (out : List Text) : Type 0 where
  pub handlers : (a : Text) → count a out ≡ count a (keys m)
  pub ordered : IsOrdered m [] out

length-keys : (m : Map (List Text)) → length (keys m) ≡ length m
length-keys [] = refl
length-keys ((h, ds) ∷ m) = ap suc (length-keys m)

checked :
    (size : ℕ) (d out : List Text)
    → some (if length d == size then ok d else circular_dependency) ≡ some (ok out)
    → (length d ≡ size) × (d ≡ out)
checked size d out e = ground arith

module _ (s : DependencySort) (consistent : IsConsistent s)
    (distinct : HasDistinctKeys s.dependency_map) where
  start-Inv :
      Inv s.dependency_map
        (initial_counts s.dependency_map)
        (initial_queue (initial_counts s.dependency_map))
        []
  unfolding met count
  start-Inv = record {
    counts = λ h. ground (arith, count_of-initial_counts h s.dependency_map);
    queues = λ h. ground (arith, count-initial_queue h s.dependency_map distinct);
  }

  drained :
      (out : List Text) × (drain
          (length s.dependency_map)
          s.d_map
          (initial_counts s.dependency_map)
          (initial_queue (initial_counts s.dependency_map))
          []
        ≡ some out)
      × Finished s consistent distinct out
  drained =
      drain-Finished s consistent distinct (length s.dependency_map)
        (initial_counts s.dependency_map) (initial_queue (initial_counts s.dependency_map)) []
        start-Inv tt (omega (arith, length-keys s.dependency_map))

  sort_dependency-drained :
      sort_dependency s
      ≡ some (
          if length drained.0 == length s.dependency_map then ok drained.0 else circular_dependency)
  unfolding sort_dependency
  sort_dependency-drained = ap (check_count (length s.dependency_map)) drained.1

  -- In a state where the two maps agree and no handler is registered twice, SortDependency ends:
  -- one round for each handler is enough.
  pub sort_dependency_ends : (r : Sorted) × (sort_dependency s ≡ some r)
  sort_dependency_ends = (_, sort_dependency-drained)

  out-le : (a : Text) → count a drained.0 ≤ count a (keys s.dependency_map)
  out-le a = unfold count in ground (arith, drained.2.inv.queues a)

  -- In a state where the two maps agree and no handler is registered twice: if SortDependency
  -- returns a list, this is an invocation order: it holds each registered handler exactly once,
  -- and each handler stands behind all the handlers that it depends on.
  pub sort_dependency_sound :
      (out : List Text) → sort_dependency s ≡ some (ok out) → IsInvocationOrder s.dependency_map out
  sort_dependency_sound out e =
      let (full, same) =
        checked (length s.dependency_map) drained.0 out (sym sort_dependency-drained ∙ e) in
      subst (IsInvocationOrder s.dependency_map) same (record {
        handlers = λ a. sym (
            Within-full drained.0 (keys s.dependency_map) out-le
              (full ∙ sym (length-keys s.dependency_map)) a);
        ordered = drained.2.ordered;
      })

  out-NoRepeats : NoRepeats drained.0
  out-NoRepeats a = omega (arith, out-le a, distinct a)

  -- A handler whose dependencies have all been dequeued has been dequeued.
  out_closed :
      (h : Text)
      → 0 < count h (keys s.dependency_map)
      → Covers (entry h s.dependency_map) drained.0
      → 0 < count h drained.0
  out_closed h reg c =
      unfold count in
      ground (
        arith,
        drained.2.inv.queues h,
        met_of_Covers (entry h s.dependency_map) drained.0 out-NoRepeats c,
      )

  out_holds :
      (seen hs : List Text)
      → IsOrdered s.dependency_map seen hs
      → ((a : Text) → 0 < count a hs → 0 < count a (keys s.dependency_map))
      → Covers seen drained.0
      → Covers hs drained.0
  unfolding count
  out_holds seen [] o reg c a p = absurd (omega arith)
  out_holds seen (h ∷ hs) o reg c a p =
      let h_in = out_closed h (reg h (ground (arith, text_eq_iff h h))) (λ b q. c b (o.0 b q)) in
      let rest =
        out_holds (seen ++ h ∷ []) hs o.1 (λ b q. reg b (omega arith))
          (λ b q. ground (arith, h_in, text_eq_iff b h, c b, count-append b seen (h ∷ []))) in
      ground (arith, h_in, rest a, text_eq_iff a h)

  -- In a state where the two maps agree and no handler is registered twice: if the handlers can be
  -- put in an invocation order at all, SortDependency returns a list; the exception for circular
  -- dependencies is thrown only where there is no such order.
  pub sort_dependency_complete :
      (o : List Text)
      → IsInvocationOrder s.dependency_map o
      → (out : List Text) × (sort_dependency s ≡ some (ok out))
  sort_dependency_complete o v = (drained.0, sort_dependency-drained ∙ full)
    where
      holds : Covers o drained.0
      holds =
          out_holds [] o v.ordered (λ a p. omega (arith, v.handlers a))
            (λ a p. absurd (unfold count in omega arith))

      within : (a : Text) → count a (keys s.dependency_map) ≤ count a drained.0
      within a = ground (arith, v.handlers a, holds a, distinct a)

      full :
          some (
            if length drained.0 == length s.dependency_map
            then ok drained.0
            else circular_dependency)
          ≡ some (ok drained.0)
      full = ground (
        arith,
        length-Within (keys s.dependency_map) drained.0 within,
        length-Within drained.0 (keys s.dependency_map) out-le,
        length-keys s.dependency_map,
      )
