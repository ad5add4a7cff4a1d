-- ===== src/Tests/JoinTests.antt =====
-- Three tuples of one integer each, of which two are the same.
use database_management_syst.Common.{ℕ, ◌≡◌, refl, List, [], ◌∷◌, pos}
use database_management_syst.Page.{Rid}
use database_management_syst.HeapFile.{integer}
use database_management_syst.Common.{bytes_eq}
use database_management_syst.JoinTable.{Attr, construct, lookup}
use database_management_syst.JoinTable.Lookup.{insert_all, joined, lookup-insert_all}

abbrev float_value : List ℕ → ℕ → ℕ
float_value bytes htsize = 0

abbrev rid : ℕ → Rid
rid i = record { page_no = pos 7; slot_no = pos i }

abbrev tuples : List (Rid × List ℕ)
tuples =
    (rid 0, 1 ∷ 0 ∷ 0 ∷ 0 ∷ []) ∷ (rid 1, 2 ∷ 0 ∷ 0 ∷ 0 ∷ []) ∷ (rid 2, 1 ∷ 0 ∷ 0 ∷ 0 ∷ []) ∷ []

abbrev attr : Attr
attr = record { offset = 0; len = 4; type = integer }

lookup-insert_all_example :
    lookup bytes_eq float_value
      (1 ∷ 0 ∷ 0 ∷ 0 ∷ [])
      (insert_all bytes_eq float_value tuples (construct 5 attr))
    ≡ joined attr (1 ∷ 0 ∷ 0 ∷ 0 ∷ []) tuples
lookup-insert_all_example =
    lookup-insert_all bytes_eq float_value 4 attr tuples (1 ∷ 0 ∷ 0 ∷ 0 ∷ []) refl
