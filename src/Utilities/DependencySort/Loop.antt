-- ===== src/Utilities/DependencySort/Loop.antt =====
-- The loop of SortDependency keeps its invariant and ends within its fuel.
use azure_client_tools.Base.{
  ℤ, pos, ℕ, zero, suc, ◌+◌, ◌-◌, ◌≤◌, ◌<◌, ◌≡◌, refl, ap, ◌∙◌, List, [], ◌∷◌, ◌++◌, some, arith,
  Text, text_eq_iff, Map, keys, count, count-append, length, length-append, length-Within,
  lookup_absent, if◌then◌else◌, ◌==◌, HasDistinctKeys,
}
use azure_client_tools.Utilities.DependencySort.{
  DependencySort, Pending, count_of, entry, visit, drain,
}
use azure_client_tools.Utilities.DependencySort.Registration.{IsConsistent}
use azure_client_tools.Utilities.DependencySort.Visit.{visit-Visited, Visited, queued}
use azure_client_tools.Utilities.DependencySort.Met.{
  met, met-append, met_le, met_full, NoRepeats, IsOrdered, IsOrdered-append,
}

-- The dependencies of `h` that `result` has not met.
abbrev pub remaining : Map (List Text) → Text → List Text → ℕ
remaining m h result = length (entry h m) - met (entry h m) result

pub record Inv (m : Map (List Text)) (c : Map ℤ) (q r : List Text) : Type 0 where
  pub counts : (h : Text) → count_of h c ≡ pos (remaining m h r)
  pub queues :
      (h : Text) → count h r + count h q ≡ (if remaining m h r == 0 then count h (keys m) else 0)

entry_registered : (h : Text) (m : Map (List Text)) → 0 < length (entry h m) → 0 < count h (keys m)
entry_registered h m p = ground (arith, lookup_absent h m)

queues-le :
    (m : Map (List Text)) (c : Map ℤ) (q r : List Text)
    → HasDistinctKeys m
    → Inv m c q r
    → (a : Text) → count a r + count a q ≤ 1
queues-le m c q r d v a = ground (arith, v.queues a, d a)

module _ (s : DependencySort) (consistent : IsConsistent s)
    (distinct : HasDistinctKeys s.dependency_map) where
  abbrev after_visit : Text → Map ℤ → List Text → Pending
  after_visit u c q = visit (entry u s.d_map) (record { dependencies = c; queue = q })

  dequeued-NoRepeats :
      (u : Text) (c : Map ℤ) (q r : List Text)
      → Inv s.dependency_map c (u ∷ q) r
      → NoRepeats (r ++ u ∷ [])
  unfolding count
  dequeued-NoRepeats u c q r v a =
      omega (arith, queues-le s.dependency_map c (u ∷ q) r distinct v a, count-append a r (u ∷ []))

  abbrev waits : Text → List Text → ℕ
  waits h r = remaining s.dependency_map h r

  -- `h` stands among the dependents of `u` at most as often as it still waits.
  dependents-le-waits :
      (u h : Text) (c : Map ℤ) (q r : List Text)
      → Inv s.dependency_map c (u ∷ q) r
      → (count h (entry u s.d_map) ≤ waits h r)
        × (waits h r - count h (entry u s.d_map) ≡ waits h (r ++ u ∷ []))
  dependents-le-waits u h c q r v =
      let le = met_le (entry h s.dependency_map) (r ++ u ∷ []) (dequeued-NoRepeats u c q r v) in
      let e = met-append (entry h s.dependency_map) r u in
      (omega (arith, le, e, consistent h u), omega (arith, le, e, consistent h u))

  visited :
      (u h : Text) (c : Map ℤ) (q r : List Text)
      → Inv s.dependency_map c (u ∷ q) r
      → Visited h
          (waits h r)
          (count h (entry u s.d_map))
          (record { dependencies = c; queue = q })
          (after_visit u c q)
  visited u h c q r v =
      visit-Visited h (waits h r) (entry u s.d_map) (record { dependencies = c; queue = q })
        (v.counts h) (dependents-le-waits u h c q r v).0

  step-queues :
      (u h : Text) (c : Map ℤ) (q r : List Text) (n k k' : ℕ)
      → n ≤ k
      → k - n ≡ k'
      → (0 < k → count h (keys s.dependency_map) ≡ 1)
      → count h (after_visit u c q).queue ≡ count h q + queued k n
      → count h r + count h (u ∷ q) ≡ (if k == 0 then count h (keys s.dependency_map) else 0)
      → count h (r ++ u ∷ []) + count h (after_visit u c q).queue
        ≡ (if k' == 0 then count h (keys s.dependency_map) else 0)
  unfolding count
  step-queues u h c q r n k k' le e reg vq iq = ground (arith, count-append h r (u ∷ []))

  waiting_registered :
      (h : Text) (r : List Text) → 0 < waits h r → count h (keys s.dependency_map) ≡ 1
  waiting_registered h r p =
      omega (arith, distinct h, entry_registered h s.dependency_map (omega arith))

  step-Inv :
      (u : Text) (c : Map ℤ) (q r : List Text)
      → Inv s.dependency_map c (u ∷ q) r
      → Inv s.dependency_map
          (after_visit u c q).dependencies
          (after_visit u c q).queue
          (r ++ u ∷ [])
  step-Inv u c q r v = record {
    counts = λ h. (visited u h c q r v).counts ∙ ap pos (dependents-le-waits u h c q r v).1;
    queues = λ h.
        let (le, e) = dependents-le-waits u h c q r v in
        step-queues u h c q r (count h (entry u s.d_map)) (waits h r) (waits h (r ++ u ∷ [])) le e
          (waiting_registered h r) (visited u h c q r v).queues (v.queues h);
  }

  -- A dequeued handler waits for nothing, so all that it depends on has been dequeued before.
  dequeued-Covers :
      (u : Text) (c : Map ℤ) (q r : List Text)
      → Inv s.dependency_map c (u ∷ q) r
      → (a : Text) → 0 < count a (entry u s.dependency_map)
      → 0 < count a r
  dequeued-Covers u c q r v = met_full (entry u s.dependency_map) r no_repeats all_met
    where
      no_repeats : NoRepeats r
      no_repeats a = omega (arith, queues-le s.dependency_map c (u ∷ q) r distinct v a)

      all_met : met (entry u s.dependency_map) r ≡ length (entry u s.dependency_map)
      all_met =
          unfold count in
          ground
            (arith, v.queues u, text_eq_iff u u, met_le (entry u s.dependency_map) r no_repeats)

  pub record Finished (out : List Text) : Type 0 where
    pub left : Map ℤ
    pub inv : Inv s.dependency_map left [] out
    pub ordered : IsOrdered s.dependency_map [] out

  queued-within :
      (c : Map ℤ) (q r : List Text)
      → Inv s.dependency_map c q r
      → length r + length q ≤ length (keys s.dependency_map)
  queued-within c q r v = omega (
    arith,
    length-append r q,
    length-Within (r ++ q) (keys s.dependency_map)
        (λ a. ground (arith, count-append a r q, v.queues a)),
  )

  pub drain-Finished :
      (fuel : ℕ) (c : Map ℤ) (q r : List Text)
      → Inv s.dependency_map c q r
      → IsOrdered s.dependency_map [] r
      → length (keys s.dependency_map) ≤ fuel + length r
      → (out : List Text) × (drain fuel s.d_map c q r ≡ some out) × Finished out
  unfolding drain
  drain-Finished fuel c [] r v o enough = (r, refl, record { left = c; inv = v; ordered = o })
  drain-Finished zero c (u ∷ q) r v o enough = absurd (omega (arith, queued-within c (u ∷ q) r v))
  drain-Finished (suc fuel) c (u ∷ q) r v o enough =
      drain-Finished fuel (after_visit u c q).dependencies (after_visit u c q).queue (r ++ u ∷ [])
        (step-Inv u c q r v)
        (IsOrdered-append s.dependency_map u [] r o (dequeued-Covers u c q r v))
        (omega (arith, length-append r (u ∷ [])))
