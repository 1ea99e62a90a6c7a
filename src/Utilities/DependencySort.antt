-- ===== src/Utilities/DependencySort.antt =====
-- code/Utilities/DependencySort.h and DependencySort.cpp: the order in which handlers are invoked.
-- The proofs are in the modules below this one.
--
-- `int` counts are integers; they do not overflow, since no handler has 2^31 dependencies. The
-- empty entries that reading `_dMap[u]` adds are not kept: they read like missing ones.
pub mod Registration
pub mod Visit
pub mod Met
pub mod Start
pub mod Loop
pub mod Order
pub mod Examples
use azure_client_tools.Base.{
  ℕ, zero, suc, ◌≡◌, refl, Bool, true, false, List, [], ◌∷◌, ◌++◌, Option, none, some, Text, Map,
  lookup, insert, text_eq, text_lt, keys, length, ◌==◌, if◌then◌else◌, count, codes, ℤ, pos, negsuc,
}

pub record DependencySort : Type 0 where
  -- handler to dependencies
  pub dependency_map : Map (List Text)
  -- handler to dependents
  pub d_map : Map (List Text)

pub data Sorted : Type 0 where
  ok : List Text → Sorted
  -- DM_ERROR_PLUGIN_HANDLER_INVALID_DEPENDENCY
  circular_dependency : Sorted

unfoldable pub empty : DependencySort
empty = record { dependency_map = []; d_map = [] }

-- `m[k]` for a vector: empty where the key is missing.
abbrev pub or_empty : Option (List Text) → List Text
or_empty none = []
or_empty (some xs) = xs

abbrev pub entry : Text → Map (List Text) → List Text
entry k m = or_empty (lookup k m)

-- `for (auto& a : dependency) _dMap[a].push_back(handler);`
unfoldable pub push_dependents : Text → List Text → Map (List Text) → Map (List Text)
push_dependents handler [] m = m
push_dependents handler (a ∷ as') m =
    push_dependents handler as' (insert a (entry a m ++ handler ∷ []) m)

unfoldable pub set_dependencies_map : Text → List Text → DependencySort → DependencySort
unfolding push_dependents
set_dependencies_map handler dependency s = record {
  dependency_map = insert handler dependency s.dependency_map;
  d_map = push_dependents handler dependency s.d_map;
}

-- The number of dependencies of each handler.
unfoldable pub initial_counts : Map (List Text) → Map ℤ
initial_counts [] = []
initial_counts ((h, ds) ∷ m) = (h, pos (length ds)) ∷ initial_counts m

abbrev pub is_zero : ℤ → Bool
is_zero (pos n) = n == 0
is_zero (negsuc n) = false

unfoldable pub initial_queue : Map ℤ → List Text
initial_queue [] = []
initial_queue ((h, n) ∷ m) = if is_zero n then h ∷ initial_queue m else initial_queue m

unfoldable pub decrement : ℤ → ℤ
decrement (pos zero) = negsuc zero
decrement (pos (suc n)) = pos n
decrement (negsuc n) = negsuc (suc n)

-- `dependencies[k]`: a missing count reads as 0.
abbrev pub or_zero : Option ℤ → ℤ
or_zero none = pos 0
or_zero (some n) = n

abbrev pub count_of : Text → Map ℤ → ℤ
count_of h m = or_zero (lookup h m)

-- What the loop over the dependents of a dequeued handler changes.
pub record Pending : Type 0 where
  pub dependencies : Map ℤ
  pub queue : List Text

unfoldable pub visit_one : Text → Pending → Pending
visit_one h p =
    let n = decrement (count_of h p.dependencies) in
    record {
      dependencies = insert h n p.dependencies;
      queue = if is_zero n then p.queue ++ h ∷ [] else p.queue;
    }

unfoldable pub visit : List Text → Pending → Pending
visit [] p = p
visit (h ∷ hs) p = visit hs (visit_one h p)

-- `while (!q.empty())`, with fuel; `cnt` is the length of `result`.
unfoldable pub drain : ℕ → Map (List Text) → Map ℤ → List Text → List Text → Option (List Text)
drain fuel d_map dependencies [] result = some result
drain zero d_map dependencies (u ∷ q) result = none
drain (suc fuel) d_map dependencies (u ∷ q) result =
    let p = visit (entry u d_map) (record { dependencies = dependencies; queue = q }) in
    drain fuel d_map p.dependencies p.queue (result ++ u ∷ [])

abbrev pub check_count : ℕ → Option (List Text) → Option Sorted
check_count size none = none
check_count size (some result) =
    some (if length result == size then ok result else circular_dependency)

-- `none` means that the fuel ran out. Each handler is queued once at most, so one round for each
-- handler is enough.
unfoldable pub sort_dependency : DependencySort → Option Sorted
unfolding drain visit visit_one decrement initial_counts initial_queue
sort_dependency s =
    let dependencies = initial_counts s.dependency_map in
    let size = length s.dependency_map in
    check_count size (drain size s.d_map dependencies (initial_queue dependencies) [])
