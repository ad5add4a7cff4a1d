-- ===== src/Sort/Bytes.antt =====
-- The order of the fields of a string attribute.
use database_management_syst.Common.{
  ℕ, zero, suc, ◌+◌, ◌≡◌, refl, ap, sym, ◌∙◌, inl, inr, Bool, true, false, Bool-cases, List, [],
  ◌∷◌, if◌then◌else◌, ltb, length, drop, arith,
}
use database_management_syst.HeapFile.{string}
use database_management_syst.HeapFile.Match.{Sign, slice}
use database_management_syst.Sort.{Key, memcmp, reccmp, is_behind, is_positive, min_ℕ}
use database_management_syst.Sort.Least.{IsOrder}

-- `memcmp(xs, ys) > 0`
abbrev greater : List ℕ → List ℕ → Bool
greater xs ys = is_positive (memcmp xs ys)

pub greater-cons :
    (x y : ℕ) (xs ys : List ℕ)
    → greater (x ∷ xs) (y ∷ ys)
      ≡ (if ltb x y then false else if ltb y x then true else greater xs ys)
unfolding memcmp
greater-cons x y xs ys = elim (Bool-cases (ltb x y)) [
  | inl lt ↦ rw lt refl
  | inr ge ↦ elim (Bool-cases (ltb y x)) [
    | inl gt ↦ rw ge (rw gt refl)
    | inr le ↦ rw ge (rw le refl)
  ]
]

greater-nil : (ys : List ℕ) → greater [] ys ≡ false
unfolding memcmp
greater-nil ys = refl

greater_asym :
    (xs ys : List ℕ) → length xs ≡ length ys → greater xs ys ≡ true → greater ys xs ≡ false
greater_asym [] ys e h = absurd (ground (arith, greater-nil ys, h))
greater_asym (x ∷ xs) [] e h = absurd (omega (arith, e))
greater_asym (x ∷ xs) (y ∷ ys) e h =
    let ih = greater_asym xs ys (omega (arith, e)) in
    let hyp = sym (greater-cons x y xs ys) ∙ h in greater-cons y x ys xs ∙ ground (arith, ih, hyp)

greater_trans :
    (xs ys zs : List ℕ)
    → length xs ≡ length ys
    → length ys ≡ length zs
    → greater xs ys ≡ false
    → greater ys zs ≡ false
    → greater xs zs ≡ false
greater_trans [] ys zs e f h k = greater-nil zs
greater_trans (x ∷ xs) [] zs e f h k = absurd (omega (arith, e))
greater_trans (x ∷ xs) (y ∷ ys) [] e f h k = absurd (omega (arith, f))
greater_trans (x ∷ xs) (y ∷ ys) (z ∷ zs) e f h k =
    let ih = greater_trans xs ys zs (omega (arith, e)) (omega (arith, f)) in
    let first = sym (greater-cons x y xs ys) ∙ h in
    let second = sym (greater-cons y z ys zs) ∙ k in
    greater-cons x z xs zs ∙ ground (arith, ih, first, second)

pub length-slice : (xs : List ℕ) (i n : ℕ) → length (slice xs i n) ≡ n
unfolding slice
length-slice xs i zero = refl
length-slice xs i (suc n) = ap suc (length-slice xs (i + 1) n)

-- The order of a string attribute.
module _ (float_sign : List ℕ → List ℕ → Sign) (offset len : ℕ) where
  abbrev pub string_key : Key
  string_key = record { offset = offset; len = len; type = string }

  abbrev bytes : List ℕ → List ℕ
  bytes rec = slice (drop offset rec) 0 (min_ℕ len len)

  length-bytes : (a b : List ℕ) → length (bytes a) ≡ length (bytes b)
  length-bytes a b = length-slice (drop offset a) 0 _ ∙ sym (length-slice (drop offset b) 0 _)

  is_behind-greater :
      (a b : List ℕ) → is_behind float_sign string_key a b ≡ greater (bytes a) (bytes b)
  unfolding is_behind reccmp
  is_behind-greater a b = refl

  -- next's test on a string attribute is a strict weak order on the records.
  pub is_behind-IsOrder : IsOrder (is_behind float_sign string_key)
  is_behind-IsOrder = record {
    asym = λ a b h.
        is_behind-greater b a
        ∙ greater_asym (bytes a) (bytes b) (length-bytes a b) (sym (is_behind-greater a b) ∙ h);
    trans = λ a b c h k.
        is_behind-greater a c
        ∙ greater_trans (bytes a) (bytes b) (bytes c) (length-bytes a b) (length-bytes b c)
            (sym (is_behind-greater a b) ∙ h) (sym (is_behind-greater b c) ∙ k);
  }
