-- ===== src/Utilities/DependencySort/Start.antt =====
-- The counts and the queue with which SortDependency begins.
use azure_client_tools.Base.{
  pos, ◌≤◌, ◌≡◌, refl, List, [], ◌∷◌, arith, Text, Map, lookup, keys, count, length, if◌then◌else◌,
  ◌==◌, HasDistinctKeys,
}
use azure_client_tools.Utilities.DependencySort.{count_of, entry, initial_counts, initial_queue}

pub count_of-initial_counts :
    (h : Text) (m : Map (List Text)) → count_of h (initial_counts m) ≡ pos (length (entry h m))
unfolding initial_counts lookup
count_of-initial_counts h [] = refl
count_of-initial_counts h ((j, ds) ∷ m) = ground (arith, count_of-initial_counts h m)

count-initial_queue-le :
    (h : Text) (m : Map (List Text)) → count h (initial_queue (initial_counts m)) ≤ count h (keys m)
unfolding initial_counts initial_queue count
count-initial_queue-le h [] = omega arith
count-initial_queue-le h ((j, ds) ∷ m) = ground (arith, count-initial_queue-le h m)

HasDistinctKeys-tail :
    (j : Text) (ds : List Text) (m : Map (List Text))
    → HasDistinctKeys ((j, ds) ∷ m)
    → HasDistinctKeys m
HasDistinctKeys-tail j ds m d k = unfold count in ground (arith, d k)

pub count-initial_queue :
    (h : Text) (m : Map (List Text))
    → HasDistinctKeys m
    → count h (initial_queue (initial_counts m))
      ≡ (if length (entry h m) == 0 then count h (keys m) else 0)
unfolding initial_counts initial_queue count lookup
count-initial_queue h [] d = refl
count-initial_queue h ((j, ds) ∷ m) d = ground (
  arith,
  d h,
  count-initial_queue-le h m,
  count-initial_queue h m (HasDistinctKeys-tail j ds m d),
)
