-- ===== src/Tests/LoadTests.antt =====
-- A file of five bytes, loaded into a relation of records of two bytes.
use database_management_syst.Common.{ℕ, arith, List, [], ◌∷◌}
use database_management_syst.Load.{load_records}
use database_management_syst.Load.Records.{Loaded, insert_row, load_records-Loaded}

abbrev bytes : List ℕ
bytes = 1 ∷ 2 ∷ 3 ∷ 4 ∷ 5 ∷ []

abbrev rows : List (List ℕ)
rows = (9 ∷ 9 ∷ []) ∷ []

load_records-Loaded_example : Loaded 2 rows bytes (load_records insert_row 2 6 bytes rows)
load_records-Loaded_example = load_records-Loaded 2 6 bytes rows (omega arith) (omega arith)
