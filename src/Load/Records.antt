-- ===== src/Load/Records.antt =====
-- The records that UT_Load makes of the bytes of a file.
use mathlib.Core.List.{append-nil, append_assoc, flatten}
use database_management_syst.Common.{
  ℕ, zero, suc, ◌+◌, ◌<◌, ◌≡◌, refl, sym, ap, ◌∙◌, inl, inr, true, false, Bool-cases, Option, some,
  List, [], ◌∷◌, ◌++◌, ◌==◌, length, take, drop, arith,
}
use database_management_syst.Status.{Res, ok}
use database_management_syst.Monad.{M, ◌>>=◌}
use database_management_syst.Load.{load_records}

-- A relation that is the list of its records.
abbrev pub insert_row : List ℕ → M (List (List ℕ)) (Unit {0})
insert_row rec rows = (ok tt, rows ++ rec ∷ [])

abbrev pub AllLong : ℕ → List (List ℕ) → Type 0
AllLong width [] = Unit {0}
AllLong width (x ∷ xs) = (length x ≡ width) × AllLong width xs

take-drop : (n : ℕ) (xs : List ℕ) → take n xs ++ drop n xs ≡ xs
take-drop zero xs = refl
take-drop (suc n) [] = refl
take-drop (suc n) (x ∷ xs) = ap (λ z. x ∷ z) (take-drop n xs)

take-short : (n : ℕ) (xs : List ℕ) → (length (take n xs) == n) ≡ false → length xs < n
take-short zero xs h = absurd (ground arith)
take-short (suc n) [] h = omega arith
take-short (suc n) (x ∷ xs) h = omega (arith, take-short n xs (ground (arith, h)))

length-drop : (n : ℕ) (xs : List ℕ) → length (take n xs) + length (drop n xs) ≡ length xs
length-drop zero xs = omega arith
length-drop (suc n) [] = omega arith
length-drop (suc n) (x ∷ xs) = omega (arith, length-drop n xs)

-- What the loop has done: OK, records of the width behind those of before, and fewer bytes left
-- over than a record has.
pub record Loaded (width : ℕ) (rows : List (List ℕ)) (bytes : List ℕ)
    (outcome : Res (Option (Unit {0})) × List (List ℕ)) : Type 0 where
  pub status : outcome.0 ≡ ok (some tt)
  pub records : List (List ℕ)
  pub rest : List ℕ
  pub added : outcome.1 ≡ rows ++ records
  pub all : flatten records ++ rest ≡ bytes
  pub long : AllLong width records
  pub short : length rest < width

module _ (width : ℕ) where
  load_records-end :
      (fuel : ℕ) (bytes : List ℕ) (rows : List (List ℕ))
      → (length (take width bytes) == width) ≡ false
      → load_records insert_row width (suc fuel) bytes rows ≡ (ok (some tt), rows)
  unfolding load_records
  load_records-end fuel bytes rows h = rw h refl

  load_records-step :
      (fuel : ℕ) (bytes : List ℕ) (rows : List (List ℕ))
      → (length (take width bytes) == width) ≡ true
      → load_records insert_row width (suc fuel) bytes rows
        ≡ load_records insert_row width fuel (drop width bytes) (rows ++ take width bytes ∷ [])
  unfolding load_records ◌>>=◌
  load_records-step fuel bytes rows h = rw h refl

  Loaded-end :
      (rows : List (List ℕ)) (bytes : List ℕ)
      → length bytes < width
      → Loaded width rows bytes (ok (some tt), rows)
  unfolding flatten
  Loaded-end rows bytes h = record {
    status = refl;
    records = [];
    rest = bytes;
    added = sym (append-nil rows);
    all = refl;
    long = tt;
    short = h;
  }

  Loaded-step :
      (rows : List (List ℕ)) (bytes : List ℕ) (outcome : Res (Option (Unit {0})) × List (List ℕ))
      → length (take width bytes) ≡ width
      → Loaded width (rows ++ take width bytes ∷ []) (drop width bytes) outcome
      → Loaded width rows bytes outcome
  unfolding flatten
  Loaded-step rows bytes outcome h l =
      let piece = take width bytes in
      record {
        status = l.status;
        records = piece ∷ l.records;
        rest = l.rest;
        added = l.added ∙ append_assoc rows (piece ∷ []) l.records;
        all =
            append_assoc piece (flatten l.records) l.rest
            ∙ ap (λ z. piece ++ z) l.all
            ∙ take-drop width bytes;
        long = (h, l.long);
        short = l.short;
      }

  -- UT_Load's loop into a relation that is a list of records, with records of one or more bytes and
  -- more fuel than the file has bytes: it ends with OK, and behind the records of before it has put
  -- records of the width of the relation, which one after another are the bytes of the file, but
  -- for fewer bytes at its end than a record has.
  pub load_records-Loaded :
      (fuel : ℕ) (bytes : List ℕ) (rows : List (List ℕ))
      → 0 < width
      → length bytes < fuel
      → Loaded width rows bytes (load_records insert_row width fuel bytes rows)
  load_records-Loaded zero bytes rows w h = absurd (omega arith)
  load_records-Loaded (suc fuel) bytes rows w h =
      elim (Bool-cases (length (take width bytes) == width)) [
        | inl full ↦
            let whole : length (take width bytes) ≡ width = ground (arith, full) in
            let ih =
              load_records-Loaded fuel (drop width bytes) (rows ++ take width bytes ∷ []) w
                (omega (arith, length-drop width bytes, whole)) in
            rw (load_records-step fuel bytes rows full) (Loaded-step rows bytes _ whole ih)
        | inr short ↦
            rw (load_records-end fuel bytes rows short)
              (Loaded-end rows bytes (take-short width bytes short))
      ]
