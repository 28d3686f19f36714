-- ===== src/Prelude/Sorting.antt =====
-- `sorted` on texts: insertion by code points, which keeps equal texts.
use Prim.Native.Nat.{Ordering, suc}
use Prim.Native.String.{String, compare}
use mathlib.Core.Path.{◌≡◌, refl}
use mathlib.Core.Bool.{Bool, true, false, ◌||◌}
use mathlib.Core.List.{List, [], ◌∷◌}
use native.Mathlib.Omega.{arith}
use text.Mathlib.Text.{◌==◌}
use comm_guard.Prelude.Tests.{if◌then◌else◌}
use comm_guard.Prelude.Lists.{contains, length, is_empty}

text_leb : String → String → Bool
text_leb a b = elim (compare a b) [ Ordering.gt ↦ false | _ ↦ true ]

unfoldable pub insert_sorted : String → List String → List String
unfolding text_leb
insert_sorted a [] = a ∷ []
insert_sorted a (x ∷ xs) = if text_leb a x then a ∷ x ∷ xs else x ∷ insert_sorted a xs

unfoldable pub sorted : List String → List String
unfolding insert_sorted
sorted [] = []
sorted (x ∷ xs) = insert_sorted x (sorted xs)

-- `sorted(set(texts))`: duplicates are dropped first.
unfoldable pub distinct : List String → List String
unfolding contains
distinct [] = []
distinct (x ∷ xs) = let rest = distinct xs in if contains rest x then rest else x ∷ rest

contains-insert_sorted :
    (a b : String) (xs : List String) → contains (insert_sorted a xs) b ≡ (b == a || contains xs b)
unfolding insert_sorted contains
contains-insert_sorted a b [] = refl
contains-insert_sorted a b (x ∷ xs) = ground (arith, contains-insert_sorted a b xs)

pub contains-sorted : (xs : List String) (b : String) → contains (sorted xs) b ≡ contains xs b
unfolding sorted contains
contains-sorted [] b = refl
contains-sorted (x ∷ xs) b =
    ground (arith, contains-insert_sorted x b (sorted xs), contains-sorted xs b)

length-insert_sorted :
    (a : String) (xs : List String) → length (insert_sorted a xs) ≡ suc (length xs)
unfolding insert_sorted
length-insert_sorted a [] = refl
length-insert_sorted a (x ∷ xs) = ground (arith, length-insert_sorted a xs)

pub length-sorted : (xs : List String) → length (sorted xs) ≡ length xs
unfolding sorted
length-sorted [] = refl
length-sorted (x ∷ xs) = ground (arith, length-insert_sorted x (sorted xs), length-sorted xs)

is_empty-insert_sorted : (a : String) (xs : List String) → is_empty (insert_sorted a xs) ≡ false
unfolding insert_sorted
is_empty-insert_sorted a [] = refl
is_empty-insert_sorted a (x ∷ xs) = ground arith

pub is_empty-sorted : (xs : List String) → is_empty (sorted xs) ≡ is_empty xs
unfolding sorted
is_empty-sorted [] = refl
is_empty-sorted (x ∷ xs) = is_empty-insert_sorted x (sorted xs)

nil-contains : (xs : List String) (a : String) → contains xs a ≡ true → is_empty xs ≡ false
unfolding contains
nil-contains [] a h = cc
nil-contains (x ∷ xs) a h = refl

pub is_empty-distinct : (xs : List String) → is_empty (distinct xs) ≡ is_empty xs
unfolding distinct
is_empty-distinct [] = refl
is_empty-distinct (x ∷ xs) = ground (arith, nil-contains (distinct xs) x)
