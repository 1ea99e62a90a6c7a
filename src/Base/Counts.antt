-- ===== src/Base/Counts.antt =====
-- Lists of texts compared by how often each text stands in them.
use Prim.Native.Nat.{suc, ◌+◌, ◌≤◌, ◌<◌}
use mathlib.Core.Path.{◌≡◌, refl}
use mathlib.Core.List.{List, [], ◌∷◌, ◌++◌}
use native.Mathlib.Omega.{arith}
use azure_client_tools.Base.Tests.{if◌then◌else◌}
use azure_client_tools.Base.Lists.{length}
use azure_client_tools.Base.Texts.{Text, text_eq, text_eq_iff, text_eq_refl}
use azure_client_tools.Base.Maps.{count}

pub count-append : (a : Text) (xs ys : List Text) → count a (xs ++ ys) ≡ count a xs + count a ys
unfolding count
count-append a [] ys = omega arith
count-append a (x ∷ xs) ys = omega (arith, count-append a xs ys)

-- The list with the first occurrence of a text taken out.
unfoldable pub remove : Text → List Text → List Text
remove a [] = []
remove a (x ∷ xs) = if text_eq a x then xs else x ∷ remove a xs

length-remove :
    (a : Text) (xs : List Text) → 0 < count a xs → length xs ≡ suc (length (remove a xs))
unfolding count remove
length-remove a [] h = absurd (omega arith)
length-remove a (x ∷ xs) h = ground (arith, length-remove a xs)

count-remove :
    (b a : Text) (xs : List Text)
    → 0 < count a xs
    → count b xs ≡ (if text_eq b a then 1 else 0) + count b (remove a xs)
unfolding count remove
count-remove b a [] h = absurd (omega arith)
count-remove b a (x ∷ xs) h =
    ground (arith, text_eq_iff a x, text_eq_iff b a, text_eq_iff b x, count-remove b a xs)

-- Each text stands in the first list at most as often as in the second.
abbrev pub Within : List Text → List Text → Type 0
Within xs ys = (a : Text) → count a xs ≤ count a ys

Within-head : (x : Text) (xs ys : List Text) → Within (x ∷ xs) ys → 0 < count x ys
unfolding count
Within-head x xs ys h = ground (arith, h x, text_eq_refl x)

Within-remove : (x : Text) (xs ys : List Text) → Within (x ∷ xs) ys → Within xs (remove x ys)
Within-remove x xs ys h a =
    unfold count in ground (arith, h a, count-remove a x ys (Within-head x xs ys h))

pub length-Within : (xs ys : List Text) → Within xs ys → length xs ≤ length ys
length-Within [] ys h = omega arith
length-Within (x ∷ xs) ys h = omega (
  arith,
  length-Within xs (remove x ys) (Within-remove x xs ys h),
  length-remove x ys (Within-head x xs ys h),
)

-- Lists of one length, the first within the second, hold the same texts.
pub Within-full :
    (xs ys : List Text)
    → Within xs ys
    → length xs ≡ length ys
    → (a : Text) → count a ys ≡ count a xs
unfolding count
Within-full [] [] h e a = refl
Within-full [] (y ∷ ys) h e a = absurd (omega arith)
Within-full (x ∷ xs) ys h e a = omega (
  arith,
  count-remove a x ys (Within-head x xs ys h),
  Within-full xs (remove x ys) (Within-remove x xs ys h)
      (omega (arith, length-remove x ys (Within-head x xs ys h))) a,
)
