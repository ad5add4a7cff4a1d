-- ===== src/Tests/ScanTests.antt =====
-- A scan for records whose integer at offset 4 is at least 258, on a record that holds 515 there.
use database_management_syst.Common.{ℕ, ◌≡◌, refl, List, [], ◌∷◌, arith, some, to_int32}
use database_management_syst.HeapFile.{Filter, integer, gte}
use database_management_syst.HeapFile.Match.{Sign, unordered, word, slice, match_rec}
use database_management_syst.HeapFile.Compare.{compare_ℤ, InRange, match_rec-compare_ℤ}

abbrev no_float : List ℕ → List ℕ → Sign
no_float a b = unordered

abbrev at_least : Filter
at_least = record { offset = 4; length = 4; type = integer; value = 2 ∷ 1 ∷ 0 ∷ 0 ∷ []; op = gte }

abbrev rec : List ℕ
rec = 9 ∷ 9 ∷ 9 ∷ 9 ∷ 3 ∷ 2 ∷ 0 ∷ 0 ∷ []

in_range : InRange (word (slice rec 4 4)) (word (2 ∷ 1 ∷ 0 ∷ 0 ∷ []))
unfolding word slice
in_range = (omega arith, omega arith)

match_rec-compare_ℤ_example :
    match_rec no_float (some at_least) rec
    ≡ compare_ℤ gte (to_int32 (word (slice rec 4 4))) (to_int32 (word (2 ∷ 1 ∷ 0 ∷ 0 ∷ [])))
match_rec-compare_ℤ_example =
    match_rec-compare_ℤ no_float at_least rec refl (omega arith) (omega arith) in_range
