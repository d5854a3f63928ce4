-- ===== src/Text/Sets.antt =====
-- `sorted(set(...))` over texts: an insertion sort that drops repetitions.
use Prim.Native.Nat.{Ordering}
use Prim.Native.String.{compare}
use project_g_one.Prelude.{◌≡◌, refl, String, ◌||◌, List, [], ◌∷◌, arith, ◌==◌, eq_iff, contains}

-- Into a sorted list with no repetition.
insert_text : String → List String → List String
insert_text s [] = s ∷ []
insert_text s (t ∷ ts) =
    let rest = insert_text s ts in
    elim (compare s t) [ Ordering.lt ↦ s ∷ t ∷ ts | Ordering.eq ↦ t ∷ ts | Ordering.gt ↦ t ∷ rest ]

unfoldable pub sorted_set : List String → List String
unfolding insert_text
sorted_set [] = []
sorted_set (s ∷ ss) = insert_text s (sorted_set ss)

sorted_set_example : sorted_set ("vpn" ∷ "audit" ∷ "vpn" ∷ []) ≡ "audit" ∷ "vpn" ∷ []
unfolding sorted_set
sorted_set_example = refl

contains-insert_text :
    (x s : String) (ts : List String) → contains x (insert_text s ts) ≡ ((x == s) || contains x ts)
unfolding insert_text
contains-insert_text x s [] = refl
contains-insert_text x s (t ∷ ts) =
    ground (arith, contains-insert_text x s ts, eq_iff s t, eq_iff x s, eq_iff x t)

-- Sorting keeps the members.
pub contains-sorted_set :
    (x : String) (ss : List String) → contains x (sorted_set ss) ≡ contains x ss
unfolding sorted_set
contains-sorted_set x [] = refl
contains-sorted_set x (s ∷ ss) =
    ground (arith, contains-insert_text x s (sorted_set ss), contains-sorted_set x ss)
