-- ===== src/Print/Columns.antt =====
-- How the columns of UT_Print's table stand under each other.
use database_management_syst.Common.{
  length-append, ℕ, zero, suc, ◌+◌, ◌-◌, ◌≤◌, ◌≡◌, refl, List, [], ◌∷◌, length, take, drop,
  replicate, arith, to_int32,
}
use database_management_syst.HeapFile.Match.{slice, word}
use database_management_syst.Catalog.{AttrDesc, c_string}
use database_management_syst.Print.{
  int_text, padded, column, shown_name, name_line, dash_line, cell_as, record_line, compute_width,
  column_width,
}

length-replicate : (n x : ℕ) → length (replicate n x) ≡ n
length-replicate zero x = refl
length-replicate (suc n) x = omega (arith, length-replicate n x)

length-take_le : (n : ℕ) (xs : List ℕ) → length (take n xs) ≤ n
length-take_le zero xs = omega arith
length-take_le (suc n) [] = omega arith
length-take_le (suc n) (x ∷ xs) = omega (arith, length-take_le n xs)

length-padded : (w : ℕ) (text : List ℕ) → length text ≤ w → length (padded w text) ≡ w
unfolding padded
length-padded w text h = omega (
  arith,
  length-append text (replicate (w - length text) 32),
  length-replicate (w - length text) 32,
)

length-column : (w : ℕ) (bytes : List ℕ) → length (column w bytes) ≡ w
unfolding column
length-column w bytes =
    length-padded w (take w (c_string bytes)) (length-take_le w (c_string bytes))

module _ (float_text : List ℕ → List ℕ) (rec : List ℕ) where
  -- A number of the record is not longer than its column.
  abbrev Fits : ℕ → ℕ → ℕ → Type 0
  Fits zero offset w = Unit {0}
  Fits (suc zero) offset w = length (int_text (to_int32 (word (slice rec offset 4)))) ≤ w
  Fits (suc (suc zero)) offset w = length (float_text (slice rec offset 4)) ≤ w
  Fits (suc (suc (suc n))) offset w = Unit {0}

  abbrev pub AllFit : List AttrDesc → List ℕ → Type 0
  AllFit (d ∷ ds) (w ∷ ws) = Fits d.attr_type d.attr_offset w × AllFit ds ws
  AllFit _ _ = Unit {0}

  length-cell_as :
      (type offset w : ℕ) → Fits type offset w → length (cell_as float_text type offset w rec) ≡ w
  unfolding cell_as
  length-cell_as zero offset w fits = length-column w (drop offset rec)
  length-cell_as (suc zero) offset w fits = length-padded w _ fits
  length-cell_as (suc (suc zero)) offset w fits = length-padded w _ fits
  length-cell_as (suc (suc (suc n))) offset w fits = length-column w (drop offset rec)

  -- The lines of a table: that of the names, that of the dashes, and that of the record.
  record_line-dash_line :
      (unset : ℕ) (attrs : List AttrDesc)
      → AllFit attrs (compute_width unset attrs)
      → length (record_line float_text attrs (compute_width unset attrs) rec)
        ≡ length (dash_line (compute_width unset attrs))
  unfolding compute_width record_line dash_line
  record_line-dash_line unset [] fits = refl
  record_line-dash_line unset (d ∷ attrs) (fits, rest) =
      let w = column_width unset d in
      let ws = compute_width unset attrs in
      omega (
        arith,
        length-append (cell_as float_text d.attr_type d.attr_offset w rec)
            (32 ∷ 32 ∷ record_line float_text attrs ws rec),
        length-append (replicate w 45) (32 ∷ 32 ∷ dash_line ws),
        length-cell_as d.attr_type d.attr_offset w fits,
        length-replicate w 45,
        record_line-dash_line unset attrs rest,
      )

  name_line-dash_line :
      (unset : ℕ) (attrs : List AttrDesc)
      → length (name_line attrs (compute_width unset attrs)) + length attrs
        ≡ length (dash_line (compute_width unset attrs))
  unfolding compute_width name_line dash_line
  name_line-dash_line unset [] = refl
  name_line-dash_line unset (d ∷ attrs) =
      let w = column_width unset d in
      let ws = compute_width unset attrs in
      omega (
        arith,
        length-append (column w (shown_name d)) (32 ∷ name_line attrs ws),
        length-append (replicate w 45) (32 ∷ 32 ∷ dash_line ws),
        length-column w (shown_name d),
        length-replicate w 45,
        name_line-dash_line unset attrs,
      )

  -- With the widths of UT_computeWidth, the line of a record whose numbers are not longer than
  -- their columns is as long as the line of dashes, whatever strings it has. The line of the names
  -- is shorter than that by one for each attribute.
  pub compute_width-lines :
      (unset : ℕ) (attrs : List AttrDesc)
      → AllFit attrs (compute_width unset attrs)
      → let ws = compute_width unset attrs in
        (length (record_line float_text attrs ws rec) ≡ length (dash_line ws))
        × (length (name_line attrs ws) + length attrs ≡ length (dash_line ws))
  compute_width-lines unset attrs fits =
      (record_line-dash_line unset attrs fits, name_line-dash_line unset attrs)
