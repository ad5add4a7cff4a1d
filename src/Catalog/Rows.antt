-- ===== src/Catalog/Rows.antt =====
-- The bytes of a catalog row, written and read back.
use mathlib.Core.List.{append_assoc}
use database_management_syst.Common.{
  ℕ, zero, suc, ◌+◌, ◌^◌, ◌≤◌, ◌<◌, ◌≡◌, refl, sym, ap, ◌∙◌, false, List, [], ◌∷◌, ◌++◌, arith, ltb,
  length, length-append, get_or,
}
use database_management_syst.Status.{ok}
use database_management_syst.HeapFile.Match.{slice, word}
use database_management_syst.Catalog.{
  rel_desc_size, attr_desc_size, RelDesc, AttrDesc, rel_bytes, attr_bytes, rel_of, attr_of,
  word_bytes, copy_rel, copy_attr,
}

get_or-append_left :
    (xs ys : List ℕ) (i d : ℕ) → i < length xs → get_or (xs ++ ys) i d ≡ get_or xs i d
get_or-append_left [] ys i d h = absurd (omega arith)
get_or-append_left (x ∷ xs) ys zero d h = refl
get_or-append_left (x ∷ xs) ys (suc i) d h = get_or-append_left xs ys i d (omega arith)

get_or-append_right :
    (xs ys : List ℕ) (i d : ℕ) → get_or (xs ++ ys) (length xs + i) d ≡ get_or ys i d
get_or-append_right [] ys i d = let e : 0 + i ≡ i = omega arith in rw e refl
get_or-append_right (x ∷ xs) ys i d =
    let e : suc (length xs) + i ≡ suc (length xs + i) = omega arith in
    rw e (get_or-append_right xs ys i d)

-- A slice of the front part, and of what is behind it.
pub slice-append_left :
    (xs ys : List ℕ) (o n : ℕ) → o + n ≤ length xs → slice (xs ++ ys) o n ≡ slice xs o n
unfolding slice
slice-append_left xs ys o zero h = refl
slice-append_left xs ys o (suc n) h =
    rw (get_or-append_left xs ys o 0 (omega arith), slice-append_left xs ys (o + 1) n (omega arith))
      refl

pub slice-append_right :
    (xs ys : List ℕ) (o n : ℕ) → slice (xs ++ ys) (length xs + o) n ≡ slice ys o n
unfolding slice
slice-append_right xs ys o zero = refl
slice-append_right xs ys o (suc n) =
    let e : length xs + o + 1 ≡ length xs + (o + 1) = omega arith in
    rw (get_or-append_right xs ys o 0, e, slice-append_right xs ys (o + 1) n) refl

slice-cons : (x : ℕ) (xs : List ℕ) (o n : ℕ) → slice (x ∷ xs) (suc o) n ≡ slice xs o n
unfolding slice
slice-cons x xs o zero = refl
slice-cons x xs o (suc n) =
    let e : suc o + 1 ≡ suc (o + 1) = omega arith in rw (e, slice-cons x xs (o + 1) n) refl

pub slice-whole : (xs : List ℕ) → slice xs 0 (length xs) ≡ xs
unfolding slice
slice-whole [] = refl
slice-whole (x ∷ xs) =
    let e : 0 + 1 ≡ 1 = omega arith in rw (e, slice-cons x xs 0 (length xs), slice-whole xs) refl

-- The front part of a block.
slice-front : (xs ys : List ℕ) (n : ℕ) → length xs ≡ n → slice (xs ++ ys) 0 n ≡ xs
slice-front xs ys n e =
    rw (sym e) (slice-append_left xs ys 0 (length xs) (omega arith) ∙ slice-whole xs)

slice-behind :
    (xs ys : List ℕ) (k o n : ℕ) → length xs + o ≡ k → slice (xs ++ ys) k n ≡ slice ys o n
slice-behind xs ys k o n e = rw (sym e) (slice-append_right xs ys o n)

word-word_bytes : (w : ℕ) → w < 2 ^ 32 → word (word_bytes w) ≡ w
unfolding word word_bytes
word-word_bytes w h = omega arith

length-word_bytes : (w : ℕ) → length (word_bytes w) ≡ 4
unfolding word_bytes
length-word_bytes w = refl

slice-word : (w : ℕ) (ys : List ℕ) → w < 2 ^ 32 → word (slice (word_bytes w ++ ys) 0 4) ≡ w
unfolding slice word word_bytes
slice-word w ys h = omega arith

-- The arrays of a struct have their sizes, and its `int`s are words.
pub record IsRelRow (d : RelDesc) : Type 0 where
  pub name_size : length d.rel_name ≡ 32
  pub cnt : d.attr_cnt < 2 ^ 32

pub record IsAttrRow (d : AttrDesc) : Type 0 where
  pub rel_size : length d.rel_name ≡ 32
  pub attr_size : length d.attr_name ≡ 32
  pub offset : d.attr_offset < 2 ^ 32
  pub type : d.attr_type < 2 ^ 32
  pub len : d.attr_len < 2 ^ 32

length-rel_bytes : (d : RelDesc) → IsRelRow d → length (rel_bytes d) ≡ rel_desc_size
unfolding rel_bytes
length-rel_bytes d v = omega (
  arith,
  length-append d.rel_name (word_bytes d.attr_cnt),
  length-word_bytes d.attr_cnt,
  v.name_size,
)

length-attr_bytes : (d : AttrDesc) → IsAttrRow d → length (attr_bytes d) ≡ attr_desc_size
unfolding attr_bytes word_bytes
length-attr_bytes d v =
    omega (arith, length-append d.rel_name _, length-append d.attr_name _, v.rel_size, v.attr_size)

rel_of-rel_bytes : (d : RelDesc) (ys : List ℕ) → IsRelRow d → rel_of (rel_bytes d ++ ys) ≡ d
unfolding rel_of rel_bytes
rel_of-rel_bytes d ys v =
    let w = word_bytes d.attr_cnt in
    rw (append_assoc d.rel_name w ys) (λ i. record {
      rel_name = slice-front d.rel_name (w ++ ys) 32 v.name_size i;
      attr_cnt =
          (ap word (slice-behind d.rel_name (w ++ ys) 32 0 4 (omega (arith, v.name_size)))
              ∙ slice-word d.attr_cnt ys v.cnt)
            i;
    })

module _ (d : AttrDesc) (ys : List ℕ) (v : IsAttrRow d) where
  behind_names : List ℕ
  behind_names =
      word_bytes d.attr_offset ++ (word_bytes d.attr_type ++ (word_bytes d.attr_len ++ ys))

  attr_bytes-split : attr_bytes d ++ ys ≡ d.rel_name ++ (d.attr_name ++ behind_names)
  unfolding attr_bytes behind_names
  attr_bytes-split = simp (append_assoc)

  behind-slice : (k o n : ℕ) → 64 + o ≡ k → slice (attr_bytes d ++ ys) k n ≡ slice behind_names o n
  behind-slice k o n e = rw attr_bytes-split (
      slice-behind d.rel_name (d.attr_name ++ behind_names) k (32 + o) n (omega (arith, v.rel_size))
      ∙ slice-behind d.attr_name behind_names (32 + o) o n (omega (arith, v.attr_size)))

  word_at :
      (k o w : ℕ) (zs : List ℕ)
      → 64 + o ≡ k
      → w < 2 ^ 32
      → slice behind_names o 4 ≡ slice (word_bytes w ++ zs) 0 4
      → word (slice (attr_bytes d ++ ys) k 4) ≡ w
  word_at k o w zs e h at = ap word (behind-slice k o 4 e ∙ at) ∙ slice-word w zs h

  rel_name-attr_bytes : slice (attr_bytes d ++ ys) 0 32 ≡ d.rel_name
  rel_name-attr_bytes =
      rw attr_bytes-split (slice-front d.rel_name (d.attr_name ++ behind_names) 32 v.rel_size)

  attr_name-attr_bytes : slice (attr_bytes d ++ ys) 32 32 ≡ d.attr_name
  attr_name-attr_bytes = rw attr_bytes-split (
      slice-behind d.rel_name (d.attr_name ++ behind_names) 32 0 32 (omega (arith, v.rel_size))
      ∙ slice-front d.attr_name behind_names 32 v.attr_size)

  type-at :
      slice behind_names 4 4 ≡ slice (word_bytes d.attr_type ++ (word_bytes d.attr_len ++ ys)) 0 4
  unfolding behind_names
  type-at =
      slice-behind (word_bytes d.attr_offset) _ 4 0 4
        (omega (arith, length-word_bytes d.attr_offset))

  len-at : slice behind_names 8 4 ≡ slice (word_bytes d.attr_len ++ ys) 0 4
  unfolding behind_names
  len-at =
      slice-behind (word_bytes d.attr_offset) _ 8 4 4
        (omega (arith, length-word_bytes d.attr_offset))
      ∙ slice-behind (word_bytes d.attr_type) _ 4 0 4 (omega (arith, length-word_bytes d.attr_type))

  offset-at :
      slice behind_names 0 4
      ≡ slice
          (word_bytes d.attr_offset ++ (word_bytes d.attr_type ++ (word_bytes d.attr_len ++ ys)))
          0
          4
  unfolding behind_names
  offset-at = refl

  pub attr_of-attr_bytes : attr_of (attr_bytes d ++ ys) ≡ d
  unfolding attr_of
  attr_of-attr_bytes = λ i. record {
    rel_name = rel_name-attr_bytes i;
    attr_name = attr_name-attr_bytes i;
    attr_offset = word_at 64 0 d.attr_offset _ (omega arith) v.offset offset-at i;
    attr_type = word_at 68 4 d.attr_type _ (omega arith) v.type type-at i;
    attr_len = word_at 72 8 d.attr_len _ (omega arith) v.len len-at i;
  }

-- memcpy of a whole row does not depend on what the struct held.
pub copy_attr-attr_bytes : (old d : AttrDesc) → IsAttrRow d → copy_attr old (attr_bytes d) ≡ ok d
unfolding copy_attr
copy_attr-attr_bytes old d v =
    let size = length-attr_bytes d v in
    let fits : ltb 76 (length (attr_bytes d)) ≡ false = ground (arith, size) in
    rw fits (ap (λ x. ok x) (attr_of-attr_bytes d _ v))

pub copy_rel-rel_bytes : (old d : RelDesc) → IsRelRow d → copy_rel old (rel_bytes d) ≡ ok d
unfolding copy_rel
copy_rel-rel_bytes old d v =
    let size = length-rel_bytes d v in
    let fits : ltb 36 (length (rel_bytes d)) ≡ false = ground (arith, size) in
    rw fits (ap (λ x. ok x) (rel_of-rel_bytes d _ v))
