-- ===== src/Base/Sorting.antt =====
-- `sorted` on strings, by the order of their code points.
use Prim.Native.Nat.{Ordering}
use Prim.Native.String.{String, compare}
use mathlib.Core.Path.{◌≡◌, refl}
use mathlib.Core.Bool.{Bool, true, false, ◌||◌}
use mathlib.Core.List.{List, [], ◌∷◌}
use native.Mathlib.Omega.{arith}
use scope_proof.Base.Logic.{if◌then◌else◌}
use scope_proof.Base.Equality.{◌==◌, string_eq}
use scope_proof.Base.Lists.{contains, nodup}

abbrev pub str_leb : String → String → Bool
str_leb s t = elim (compare s t) [ Ordering.gt ↦ false | _ ↦ true ]

unfoldable pub insert_sorted : String → List String → List String
insert_sorted s [] = s ∷ []
insert_sorted s (t ∷ ts) =
    let rest = insert_sorted s ts in if str_leb s t then s ∷ t ∷ ts else t ∷ rest

unfoldable pub sorted : List String → List String
unfolding insert_sorted
sorted [] = []
sorted (s ∷ ss) = insert_sorted s (sorted ss)

pub contains-insert_sorted :
    (s : String) (ts : List String) (a : String)
    → contains (insert_sorted s ts) a ≡ (a == s || contains ts a)
unfolding insert_sorted
contains-insert_sorted s [] a = refl
contains-insert_sorted s (t ∷ ts) a = ground (arith, contains-insert_sorted s ts a)

-- Sorting keeps the members.
pub contains-sorted : (ss : List String) (a : String) → contains (sorted ss) a ≡ contains ss a
unfolding sorted
contains-sorted [] a = refl
contains-sorted (s ∷ ss) a =
    ground (arith, contains-insert_sorted s (sorted ss) a, contains-sorted ss a)

insert_sorted-nodup :
    (s : String) (ts : List String)
    → nodup ts ≡ true
    → contains ts s ≡ false
    → nodup (insert_sorted s ts) ≡ true
unfolding insert_sorted
insert_sorted-nodup s [] h n = refl
insert_sorted-nodup s (t ∷ ts) h n =
    ground (arith, contains-insert_sorted s ts t, insert_sorted-nodup s ts)

pub sorted-nodup : (ss : List String) → nodup ss ≡ true → nodup (sorted ss) ≡ true
unfolding sorted
sorted-nodup [] h = refl
sorted-nodup (s ∷ ss) h =
    ground (arith, insert_sorted-nodup s (sorted ss), sorted-nodup ss, contains-sorted ss s)
