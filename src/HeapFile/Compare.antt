-- ===== src/HeapFile/Compare.antt =====
-- heapfile.cpp, matchRec: what the comparison of integer attributes decides.
use database_management_syst.Common.{
  ℕ, ◌+◌, ◌-◌, ◌^◌, ◌≤◌, ◌<◌, ◌≡◌, refl, Bool, false, not, some, List, arith, leb, length, ℤ,
  to_int32, ltb_ℤ, eq_ℤ, pos_part, neg_part,
}
use database_management_syst.HeapFile.{integer, Operator, lt, lte, eq, gte, gt, ne, Filter}
use database_management_syst.HeapFile.Match.{
  Sign, holds, sign_ℤ, slice, word, int_diff, diff_sign, match_rec,
}

-- The comparison of two integers that an operator stands for.
abbrev pub compare_ℤ : Operator → ℤ → ℤ → Bool
compare_ℤ lt a b = ltb_ℤ a b
compare_ℤ lte a b = not (ltb_ℤ b a)
compare_ℤ eq a b = eq_ℤ a b
compare_ℤ gte a b = not (ltb_ℤ a b)
compare_ℤ gt a b = ltb_ℤ b a
compare_ℤ ne a b = not (eq_ℤ a b)

-- The difference of the values of two words is in the range of `int`.
abbrev pub InRange : ℕ → ℕ → Type 0
InRange a b =
    (pos_part (to_int32 a) + neg_part (to_int32 b)
      < 2 ^ 31 + pos_part (to_int32 b) + neg_part (to_int32 a))
    × (pos_part (to_int32 b) + neg_part (to_int32 a)
        ≤ 2 ^ 31 + pos_part (to_int32 a) + neg_part (to_int32 b))

int_diff-compare_ℤ :
    (op : Operator) (a b : ℕ)
    → InRange a b
    → holds op (sign_ℤ (int_diff a b)) ≡ compare_ℤ op (to_int32 a) (to_int32 b)
unfolding int_diff
int_diff-compare_ℤ lt a b r = ground arith
int_diff-compare_ℤ lte a b r = ground arith
int_diff-compare_ℤ eq a b r = ground arith
int_diff-compare_ℤ gte a b r = ground arith
int_diff-compare_ℤ gt a b r = ground arith
int_diff-compare_ℤ ne a b r = ground arith

module _ (float_sign : List ℕ → List ℕ → Sign) where
  diff_sign-integer :
      (f : Filter) (rec : List ℕ)
      → f.type ≡ integer
      → diff_sign float_sign f rec
        ≡ sign_ℤ (int_diff (word (slice rec f.offset f.length)) (word f.value))
  unfolding diff_sign
  diff_sign-integer f rec e = rw e refl

  -- A scan with an integer filter tells records apart by the operator's comparison of the two
  -- integers, if the field lies in the record and the difference of the integers does not overflow.
  pub match_rec-compare_ℤ :
      (f : Filter) (rec : List ℕ)
      → f.type ≡ integer
      → 0 < f.length
      → f.offset + f.length ≤ length rec
      → InRange (word (slice rec f.offset f.length)) (word f.value)
      → match_rec float_sign (some f) rec
        ≡ compare_ℤ f.op (to_int32 (word (slice rec f.offset f.length))) (to_int32 (word f.value))
  unfolding match_rec
  match_rec-compare_ℤ f rec e some_byte inside range =
      let inner : leb (length rec) (f.offset + f.length - 1) ≡ false = ground arith in
      rw (inner, diff_sign-integer f rec e)
        (int_diff-compare_ℤ f.op (word (slice rec f.offset f.length)) (word f.value) range)
