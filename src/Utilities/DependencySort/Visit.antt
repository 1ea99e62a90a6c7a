-- ===== src/Utilities/DependencySort/Visit.antt =====
-- What the loop over the dependents of a dequeued handler does to the counts and the queue.
use azure_client_tools.Base.{
  ℤ, pos, ℕ, zero, suc, ◌+◌, ◌-◌, ◌≤◌, ◌≡◌, inl, inr, Bool-cases, List, [], ◌∷◌, arith, Text,
  text_eq, text_eq_iff, Map, insert, lookup-insert, count, count-append, if◌then◌else◌, ltb, ◌==◌,
  ◌&&◌,
}
use azure_client_tools.Utilities.DependencySort.{Pending, count_of, decrement, visit, visit_one}

count_of-insert :
    (i k : Text) (v : ℤ) (m : Map ℤ)
    → count_of i (insert k v m) ≡ (if text_eq i k then v else count_of i m)
count_of-insert i k v m = elim (Bool-cases (text_eq i k)) [
  | inl e ↦ rw (lookup-insert, e)
  | inr e ↦ rw (lookup-insert, e)
]

-- A handler that waits for `k` dependencies and stands `n` times in the list of dependents is
-- queued if it stands there for all that it still waits for.
abbrev pub queued : ℕ → ℕ → ℕ
queued k n = if ltb 0 k && k == n then 1 else 0

pub record Visited (h : Text) (k n : ℕ) (p q : Pending) : Type 0 where
  pub counts : count_of h q.dependencies ≡ pos (k - n)
  pub queues : count h q.queue ≡ count h p.queue + queued k n

visit_one-Visited :
    (h d : Text) (k : ℕ) (p : Pending)
    → count_of h p.dependencies ≡ pos k
    → count h (d ∷ []) ≤ k
    → Visited h k (count h (d ∷ [])) p (visit_one d p)
unfolding visit_one count decrement
visit_one-Visited h d zero p e le = ground (
  arith,
  count_of-insert h d (decrement (count_of d p.dependencies)) p.dependencies,
  count-append h p.queue (d ∷ []),
)
visit_one-Visited h d (suc k) p e le = ground (
  arith,
  text_eq_iff h d,
  count_of-insert h d (decrement (count_of d p.dependencies)) p.dependencies,
  count-append h p.queue (d ∷ []),
)

pub visit-Visited :
    (h : Text) (k : ℕ) (ds : List Text) (p : Pending)
    → count_of h p.dependencies ≡ pos k
    → count h ds ≤ k
    → Visited h k (count h ds) p (visit ds p)
unfolding visit count
visit-Visited h k [] p e le = record { counts = ground arith; queues = ground arith }
visit-Visited h k (d ∷ ds) p e le =
    let one = visit_one-Visited h d k p e (omega arith) in
    let rest = visit-Visited h (k - count h (d ∷ [])) ds (visit_one d p) one.counts (omega arith) in
    record {
      counts = ground (arith, rest.counts);
      queues = ground (arith, rest.queues, one.queues);
    }
