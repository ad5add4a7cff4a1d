-- ===== src/Sort.antt =====
-- sort.cpp and sort.h: a file sorted on one attribute, as runs that are merged while they are read.
pub mod Build
pub mod Merge
pub mod Bytes
pub mod Least
pub mod Pick
pub mod Refresh
pub mod Drain
pub mod Filled
use database_management_syst.Common.{
  ℕ, zero, suc, ◌+◌, Bool, true, false, Option, none, some, List, [], ◌∷◌, ◌++◌, if◌then◌else◌, ltb,
  leb, length, drop, ℤ, pos,
}
use database_management_syst.Page.{Rid}
use database_management_syst.HeapFile.{Datatype, string, integer, float}
use database_management_syst.HeapFile.Match.{
  Sign, negative, null, positive, unordered, sign_ℤ, slice, word, int_diff,
}

-- memcmp on blocks of the same length: the sign of the first difference of the unsigned bytes.
unfoldable pub memcmp : List ℕ → List ℕ → Sign
memcmp [] ys = null
memcmp (x ∷ xs) [] = null
memcmp (x ∷ xs) (y ∷ ys) =
    let rest = memcmp xs ys in if ltb x y then negative else if ltb y x then positive else rest

-- MIN
abbrev pub min_ℕ : ℕ → ℕ → ℕ
min_ℕ a b = if ltb a b then a else b

-- The order of the fields at the start of two blocks. The difference of two `int`s wraps around.
unfoldable pub reccmp : (List ℕ → List ℕ → Sign) → List ℕ → List ℕ → ℕ → ℕ → Datatype → Sign
reccmp float_sign p1 p2 len1 len2 integer =
    sign_ℤ (int_diff (word (slice p1 0 4)) (word (slice p2 0 4)))
reccmp float_sign p1 p2 len1 len2 float = float_sign (slice p1 0 4) (slice p2 0 4)
reccmp float_sign p1 p2 len1 len2 string =
    memcmp (slice p1 0 (min_ℕ len1 len2)) (slice p2 0 (min_ℕ len1 len2))

-- SORTREC
pub record SortRec : Type 0 where
  pub rid : Rid
  pub field : List ℕ
  pub length : ℕ

-- intcmp, floatcmp and stringcmp
unfoldable pub field_cmp : (List ℕ → List ℕ → Sign) → Datatype → SortRec → SortRec → Sign
field_cmp float_sign type a b = reccmp float_sign a.field b.field a.length b.length type

-- The fields of SortedFile that say what is sorted.
pub record Key : Type 0 where
  pub offset : ℕ
  pub len : ℕ
  pub type : Datatype

-- RUN, whose scan is an `F`. `rec` counts only where `valid` is true and `rid` not behind the end,
-- and `mark` is `none` until it is set.
pub record Run (F : Type 0) : Type 0 where
  pub name : List ℕ
  pub in_file : F
  pub valid : Bool
  pub rec : List ℕ
  pub rid : Rid
  pub mark : Option Rid

-- The runs of a SortedFile, and what their scans share.
pub record Sorted (F G : Type 0) : Type 0 where
  pub runs : List (Run F)
  pub shared : G

abbrev pub is_positive : Sign → Bool
is_positive positive = true
is_positive _ = false

-- `reccmp(a + offset, b + offset, length, length, type) > 0`
unfoldable pub is_behind : (List ℕ → List ℕ → Sign) → Key → List ℕ → List ℕ → Bool
is_behind float_sign key a b =
    is_positive (reccmp float_sign (drop key.offset a) (drop key.offset b) key.len key.len key.type)
