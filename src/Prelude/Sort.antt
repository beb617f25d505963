-- ===== src/Prelude/Sort.antt =====
-- `sort` of a list of texts, by their order as UTF-8 bytes (which is that of their code points).
use Prim.Native.Nat.{Ordering}
use Prim.Native.String.{String, compare}
use mathlib.Core.Bool.{Bool, true, false}
use mathlib.Core.List.{List, [], ◌∷◌}
use geser_desk.Prelude.Tests.{if◌then◌else◌}

abbrev pub str_leb : String → String → Bool
str_leb s t = elim (compare s t) [ Ordering.gt ↦ false | _ ↦ true ]

abbrev pub str_ltb : String → String → Bool
str_ltb s t = elim (compare s t) [ Ordering.lt ↦ true | _ ↦ false ]

unfoldable pub insert_sorted : String → List String → List String
insert_sorted s [] = s ∷ []
insert_sorted s (t ∷ ts) = if str_leb s t then s ∷ t ∷ ts else t ∷ insert_sorted s ts

unfoldable pub sort : List String → List String
unfolding insert_sorted
sort [] = []
sort (s ∷ ss) = insert_sorted s (sort ss)
