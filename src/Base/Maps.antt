-- ===== src/Base/Maps.antt =====
-- `std::map<std::string, V>` as an association list in the order of its keys.
use Prim.Native.Nat.{ℕ, suc, ◌+◌, ◌≤◌, ◌<◌}
use mathlib.Core.Path.{◌≡◌, refl}
use mathlib.Core.Bool.{Bool, true, false}
use mathlib.Core.Logic.{inl, inr}
use mathlib.Core.List.{List, [], ◌∷◌}
use mathlib.Core.Option.{Option, none, some}
use native.Mathlib.Omega.{arith}
use azure_client_tools.Base.Tests.{if◌then◌else◌, Bool-cases}
use azure_client_tools.Base.Lists.{length}
use azure_client_tools.Base.Texts.{Text, text_eq, text_lt, text_eq_iff, text_eq_refl}

abbrev pub Map {ℓ} : Type ℓ → Type ℓ
Map V = List (Text × V)

-- How often a text stands in a list.
unfoldable pub count : Text → List Text → ℕ
count a [] = 0
count a (x ∷ xs) = (if text_eq a x then 1 else 0) + count a xs

module _ {ℓ} {V : Type ℓ} where
  abbrev pub keys : Map V → List Text
  keys [] = []
  keys ((j, w) ∷ m) = j ∷ keys m

  -- `find`.
  unfoldable pub lookup : Text → Map V → Option V
  lookup k [] = none
  lookup k ((j, w) ∷ m) = if text_eq k j then some w else lookup k m

  unfoldable pub contains : Text → Map V → Bool
  contains k [] = false
  contains k ((j, w) ∷ m) = if text_eq k j then true else contains k m

  unfoldable pub replace : Text → V → Map V → Map V
  replace k v [] = []
  replace k v ((j, w) ∷ m) = if text_eq k j then (j, v) ∷ m else (j, w) ∷ replace k v m

  -- A new key goes before the first larger one.
  unfoldable pub place : Text → V → Map V → Map V
  place k v [] = (k, v) ∷ []
  place k v ((j, w) ∷ m) = if text_lt k j then (k, v) ∷ (j, w) ∷ m else (j, w) ∷ place k v m

  -- `m[k] = v`.
  unfoldable pub insert : Text → V → Map V → Map V
  unfolding contains replace place
  insert k v m = if contains k m then replace k v m else place k v m

  -- `erase`.
  unfoldable pub erase : Text → Map V → Map V
  erase k [] = []
  erase k ((j, w) ∷ m) = if text_eq k j then m else (j, w) ∷ erase k m

  lookup-replace :
      (i k : Text) (v : V) (m : Map V)
      → contains k m ≡ true
      → lookup i (replace k v m) ≡ (if text_eq i k then some v else lookup i m)
  unfolding lookup replace contains
  lookup-replace i k v [] h = cc
  lookup-replace i k v ((j, w) ∷ m) h =
      ground (arith, text_eq_iff i k, text_eq_iff i j, text_eq_iff k j, lookup-replace i k v m)

  lookup-place :
      (i k : Text) (v : V) (m : Map V)
      → contains k m ≡ false
      → lookup i (place k v m) ≡ (if text_eq i k then some v else lookup i m)
  unfolding lookup place contains
  lookup-place i k v [] h = refl
  lookup-place i k v ((j, w) ∷ m) h =
      ground (arith, text_eq_iff i k, text_eq_iff i j, text_eq_iff k j, lookup-place i k v m)

  -- A read after a write.
  pub lookup-insert :
      (i k : Text) (v : V) (m : Map V)
      → lookup i (insert k v m) ≡ (if text_eq i k then some v else lookup i m)
  unfolding insert
  lookup-insert i k v m = elim (Bool-cases (contains k m)) [
    | inl h ↦ rw h (lookup-replace i k v m h)
    | inr h ↦ rw h (lookup-place i k v m h)
  ]

  count-replace :
      (i k : Text) (v : V) (m : Map V) → count i (keys (replace k v m)) ≡ count i (keys m)
  unfolding count replace
  count-replace i k v [] = refl
  count-replace i k v ((j, w) ∷ m) = ground (arith, count-replace i k v m)

  count-place :
      (i k : Text) (v : V) (m : Map V)
      → count i (keys (place k v m)) ≡ (if text_eq i k then 1 else 0) + count i (keys m)
  unfolding count place
  count-place i k v [] = refl
  count-place i k v ((j, w) ∷ m) = ground (arith, count-place i k v m)

  pub contains-count : (k : Text) (m : Map V) → contains k m ≡ true → 0 < count k (keys m)
  unfolding count contains
  contains-count k [] h = cc
  contains-count k ((j, w) ∷ m) h = ground (arith, contains-count k m)

  pub count-contains : (k : Text) (m : Map V) → contains k m ≡ false → count k (keys m) ≡ 0
  unfolding count contains
  count-contains k [] h = refl
  count-contains k ((j, w) ∷ m) h = ground (arith, count-contains k m)

  pub lookup_absent : (k : Text) (m : Map V) → count k (keys m) ≡ 0 → lookup k m ≡ none
  unfolding count lookup
  lookup_absent k [] h = refl
  lookup_absent k ((j, w) ∷ m) h = ground (arith, lookup_absent k m)

  pub lookup_present :
      (k : Text) (m : Map V) → 0 < count k (keys m) → (v : V) × (lookup k m ≡ some v)
  unfolding count lookup
  lookup_present k [] h = absurd (omega arith)
  lookup_present k ((j, w) ∷ m) h = elim (Bool-cases (text_eq k j)) [
    | inl e ↦ (w, rw e)
    | inr e ↦ rw e (lookup_present k m (ground arith))
  ]

  pub count-insert_fresh :
      (i k : Text) (v : V) (m : Map V)
      → count k (keys m) ≡ 0
      → count i (keys (insert k v m)) ≡ (if text_eq i k then 1 else 0) + count i (keys m)
  unfolding insert
  count-insert_fresh i k v m e =
      ground (arith, contains-count k m, count-place i k v m, count-replace i k v m)

  length-replace : (k : Text) (v : V) (m : Map V) → length (replace k v m) ≡ length m
  unfolding replace
  length-replace k v [] = refl
  length-replace k v ((j, w) ∷ m) = ground (arith, length-replace k v m)

  length-place : (k : Text) (v : V) (m : Map V) → length (place k v m) ≡ suc (length m)
  unfolding place
  length-place k v [] = refl
  length-place k v ((j, w) ∷ m) = ground (arith, length-place k v m)

  contains_nonempty : (k : Text) (m : Map V) → contains k m ≡ true → 0 < length m
  unfolding contains
  contains_nonempty k [] h = cc
  contains_nonempty k ((j, w) ∷ m) h = omega arith

  pub length-insert :
      (k : Text) (v : V) (m : Map V)
      → (length m ≤ length (insert k v m)) × (0 < length (insert k v m))
  unfolding insert
  length-insert k v m =
      ground (arith, length-replace k v m, length-place k v m, contains_nonempty k m)

  -- No key stands twice.
  abbrev pub HasDistinctKeys : Map V → Type 0
  HasDistinctKeys m = (k : Text) → count k (keys m) ≤ 1

  pub insert-HasDistinctKeys :
      (k : Text) (v : V) (m : Map V) → HasDistinctKeys m → HasDistinctKeys (insert k v m)
  unfolding insert
  insert-HasDistinctKeys k v m d i = elim (Bool-cases (contains k m)) [
    | inl h ↦ rw h (omega (arith, count-replace i k v m, d i))
    | inr h ↦ rw h (ground (arith, count-place i k v m, d i, count-contains k m h, text_eq_iff i k))
  ]

  replace_same : (k : Text) (v : V) (m : Map V) → lookup k m ≡ some v → replace k v m ≡ m
  unfolding lookup replace
  replace_same k v [] h = cc
  replace_same k v ((j, w) ∷ m) h = ground (arith, replace_same k v m)

  contains_present : (k : Text) (v : V) (m : Map V) → lookup k m ≡ some v → contains k m ≡ true
  unfolding lookup contains
  contains_present k v [] h = cc
  contains_present k v ((j, w) ∷ m) h = ground (arith, contains_present k v m)

  -- To write again what is there changes nothing.
  pub insert_same : (k : Text) (v : V) (m : Map V) → lookup k m ≡ some v → insert k v m ≡ m
  unfolding insert
  insert_same k v m h = rw (contains_present k v m h) (replace_same k v m h)

  -- A read after an erasure, in a map where no key stands twice.
  pub lookup-erase :
      (i k : Text) (m : Map V)
      → HasDistinctKeys m
      → lookup i (erase k m) ≡ (if text_eq i k then none else lookup i m)
  unfolding lookup erase count
  lookup-erase i k [] d = ground arith
  lookup-erase i k ((j, w) ∷ m) d =
      let fresh : count j (keys m) ≡ 0 = ground (arith, d j, text_eq_refl j) in
      let rest = lookup-erase i k m (λ a. ground (arith, d a)) in
      ground
        (arith, text_eq_iff i j, text_eq_iff k j, text_eq_iff i k, lookup_absent j m fresh, rest)
