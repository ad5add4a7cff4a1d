-- ===== src/JoinTable/Lookup.antt =====
-- What a lookup in the join's hash table returns, against the list of the tuples inserted.
use native.Mathlib.Nat.{mul-mod_left}
use database_management_syst.Common.{
  ℕ, suc, ◌-◌, ◌*◌, ◌%◌, ◌^◌, ◌≤◌, ◌<◌, ◌≡◌, refl, ap, ◌∙◌, sym, Bool, List, [], ◌∷◌, arith, ◌==◌,
  ==_iff, if◌then◌else◌, Bool-cases, inl, inr, length, ℤ, pos, pos_part, eq_ℤ, eq_ℤ_iff, to_int32,
  rem_ℤ,
}
use database_management_syst.Page.{Rid}
use database_management_syst.HeapFile.{Datatype, string, integer, float}
use database_management_syst.HeapFile.Match.{slice, word}
use database_management_syst.OpenFiles.{abs_ℤ}
use database_management_syst.JoinTable.{
  Attr, JoinTable, construct, value_len, hash_value, hash, attr_bytes, insert, matches, collect,
  lookup,
}

-- The record ids of the tuples whose integer attribute is that of `inner`, the last first.
unfoldable pub joined : Attr → List ℕ → List (Rid × List ℕ) → List Rid
joined a inner [] = []
joined a inner ((rid, tuple) ∷ ts) =
    if word (slice tuple a.offset (length tuple - a.offset)) == word inner
    then rid ∷ joined a inner ts
    else joined a inner ts

module _ (float_eq : List ℕ → List ℕ → Bool) (float_value : List ℕ → ℕ → ℕ) where
  -- The table after the insertion of a list of tuples, the first of the list last.
  abbrev pub insert_all : List (Rid × List ℕ) → JoinTable → JoinTable
  insert_all [] t = t
  insert_all ((rid, tuple) ∷ ts) t = insert float_eq float_value rid tuple (insert_all ts t)

  -- Every count is the length of its chain.
  abbrev IsCounted : JoinTable → Type 0
  IsCounted t = (i : ℤ) → length (t.ht i).chain ≡ (t.ht i).bucket_cnt

  insert-IsCounted :
      (rid : Rid) (tuple : List ℕ) (t : JoinTable)
      → IsCounted t
      → IsCounted (insert float_eq float_value rid tuple t)
  unfolding insert
  insert-IsCounted rid tuple t c i =
      ground (arith, c i, c (hash float_eq float_value t (attr_bytes float_eq float_value t tuple)))

  insert_all-IsCounted :
      (ts : List (Rid × List ℕ)) (t : JoinTable) → IsCounted t → IsCounted (insert_all ts t)
  insert_all-IsCounted [] t c = c
  insert_all-IsCounted ((rid, tuple) ∷ ts) t c =
      insert-IsCounted rid tuple (insert_all ts t) (insert_all-IsCounted ts t c)

  length-collect-le :
      (a : Attr) (inner : List ℕ) (chain : List (List ℕ × Rid))
      → length (collect float_eq float_value a inner chain) ≤ length chain
  unfolding collect
  length-collect-le a inner [] = omega arith
  length-collect-le a inner (b ∷ chain) = ground (arith, length-collect-le a inner chain)

  -- The record ids that a lookup writes fit the array that it allocates, which has as many places
  -- as the chain's count says, whatever tuples were inserted and whatever the attribute's type.
  lookup-le-bucket_cnt :
      (size : ℕ) (a : Attr) (ts : List (Rid × List ℕ)) (inner : List ℕ)
      → let t = insert_all ts (construct (suc size) a) in
        length (lookup float_eq float_value inner t)
        ≤ (t.ht (hash float_eq float_value t inner)).bucket_cnt
  unfolding lookup construct
  lookup-le-bucket_cnt size a ts inner =
      let t = insert_all ts (construct (suc size) a) in
      omega (
        arith,
        insert_all-IsCounted ts (construct (suc size) a) (λ i. refl)
            (hash float_eq float_value t inner),
        length-collect-le t.attr inner (t.ht (hash float_eq float_value t inner)).chain,
      )

  -- The first four bytes are what an integer is read from.
  word-slice : (bytes : List ℕ) → word (slice bytes 0 4) ≡ word bytes
  unfolding word slice
  word-slice bytes = refl

  matches-integer :
      (d : Datatype) (len : ℕ) (bytes inner : List ℕ)
      → d ≡ integer
      → matches float_eq float_value d len (slice bytes 0 (value_len d len)) inner
        ≡ (word bytes == word inner)
  unfolding matches value_len
  matches-integer integer len bytes inner e = ap (λ (w : ℕ). w == word inner) (word-slice bytes)
  matches-integer string len bytes inner e = cc
  matches-integer float len bytes inner e = cc

  hash_value-integer :
      (d : Datatype) (n : ℕ) (a b : List ℕ)
      → d ≡ integer
      → word a ≡ word b
      → hash_value float_eq float_value d n a ≡ hash_value float_eq float_value d n b
  unfolding hash_value
  hash_value-integer integer n a b e same = ap (λ (w : ℕ). w * n * 31 % 2 ^ 32) same
  hash_value-integer string n a b e same = cc
  hash_value-integer float n a b e same = cc

  hash-integer :
      (t : JoinTable) (a b : List ℕ)
      → t.attr.type ≡ integer
      → word a ≡ word b
      → hash float_eq float_value t a ≡ hash float_eq float_value t b
  unfolding hash
  hash-integer t a b e same =
      ap (λ v. abs_ℤ (rem_ℤ (to_int32 v) t.htsize))
        (hash_value-integer t.attr.type t.htsize a b e same)

  -- A chain with a new bucket in front.
  collect-cons :
      (a : Attr) (bytes inner : List ℕ) (rid : Rid) (chain : List (List ℕ × Rid))
      → a.type ≡ integer
      → collect float_eq float_value a inner ((slice bytes 0 (value_len a.type a.len), rid) ∷ chain)
        ≡ (if word bytes == word inner
            then rid ∷ collect float_eq float_value a inner chain
            else collect float_eq float_value a inner chain)
  unfolding collect
  collect-cons a bytes inner rid chain e = rw (matches-integer a.type a.len bytes inner e)

  lookup-insert :
      (rid : Rid) (tuple inner : List ℕ) (t : JoinTable)
      → t.attr.type ≡ integer
      → lookup float_eq float_value inner (insert float_eq float_value rid tuple t) ≡ (
          if word (attr_bytes float_eq float_value t tuple) == word inner
          then rid ∷ lookup float_eq float_value inner t
          else lookup float_eq float_value inner t)
  unfolding lookup insert hash
  lookup-insert rid tuple inner t e =
      let bytes = attr_bytes float_eq float_value t tuple in
      let i = hash float_eq float_value t bytes in
      let j = hash float_eq float_value t inner in
      elim (Bool-cases (eq_ℤ j i)) [
        | inl same ↦ rw same (
            collect-cons t.attr bytes inner rid (t.ht i).chain e
            ∙ ap (λ c. if word bytes == word inner then rid ∷ c else c)
                (ap (λ k. collect float_eq float_value t.attr inner (t.ht k).chain)
                  (sym ((eq_ℤ_iff j i).0 same))))
        | inr other ↦ elim (Bool-cases (word bytes == word inner)) [
          | inl alike ↦ absurd (
              ground (
                arith,
                other,
                eq_ℤ_iff j i,
                hash-integer t bytes inner e ((==_iff (word bytes) (word inner)).0 alike),
              ))
          | inr unlike ↦ rw (other, unlike) refl
        ]
      ]

  insert_all-attr :
      (size : ℕ) (a : Attr) (ts : List (Rid × List ℕ)) → (insert_all ts (construct size a)).attr ≡ a
  unfolding insert construct
  insert_all-attr size a [] = refl
  insert_all-attr size a ((rid, tuple) ∷ ts) = insert_all-attr size a ts

  -- For an integer attribute, a lookup returns the record ids of all tuples inserted whose
  -- attribute is the same number as the first four bytes given, each once for each of its
  -- insertions, the last inserted first, and no other, whatever the size of the table from 1 on.
  pub lookup-insert_all :
      (size : ℕ) (a : Attr) (ts : List (Rid × List ℕ)) (inner : List ℕ)
      → a.type ≡ integer
      → lookup float_eq float_value inner (insert_all ts (construct (suc size) a))
        ≡ joined a inner ts
  unfolding lookup construct joined
  lookup-insert_all size a [] inner e = refl
  lookup-insert_all size a ((rid, tuple) ∷ ts) inner e =
      let t = insert_all ts (construct (suc size) a) in
      let same = insert_all-attr (suc size) a ts in
      lookup-insert rid tuple inner t (ap (λ (x : Attr). x.type) same ∙ e)
      ∙ ap
          (λ (x : Attr).
            if word (slice tuple x.offset (length tuple - x.offset)) == word inner
            then rid ∷ lookup float_eq float_value inner t
            else lookup float_eq float_value inner t)
          same
      ∙ ap
          (λ r.
            if word (slice tuple a.offset (length tuple - a.offset)) == word inner
            then rid ∷ r
            else r)
          (lookup-insert_all size a ts inner e)

  -- The index of a hash lies in the array of a table of at least one chain, whatever the bytes.
  hash-lt-htsize :
      (t : JoinTable) (bytes : List ℕ)
      → 0 < t.htsize
      → (i : ℕ) × (hash float_eq float_value t bytes ≡ pos i) × (i < t.htsize)
  unfolding hash
  hash-lt-htsize t bytes h =
      (pos_part (hash float_eq float_value t bytes), ground arith, ground arith)

  value-integer :
      (d : Datatype) (n : ℕ) (bytes : List ℕ)
      → d ≡ integer
      → hash_value float_eq float_value d n bytes ≡ word bytes * n * 31 % 2 ^ 32
  unfolding hash_value
  value-integer integer n bytes e = refl
  value-integer string n bytes e = cc
  value-integer float n bytes e = cc

  -- Integer attributes whose product with 31 and the table's size stays in the range of `int` all
  -- hash to chain 0: for them the table is one list.
  hash-integer_zero :
      (t : JoinTable) (bytes : List ℕ)
      → t.attr.type ≡ integer
      → 0 < t.htsize
      → word bytes * t.htsize * 31 < 2 ^ 31
      → hash float_eq float_value t bytes ≡ pos 0
  unfolding hash hash_value
  hash-integer_zero t bytes e h small =
      let value = value-integer t.attr.type t.htsize bytes e in
      let whole : word bytes * t.htsize * 31 % 2 ^ 32 ≡ word bytes * 31 * t.htsize = ground arith in
      let zero_rest = mul-mod_left (word bytes * 31) t.htsize in
      rw (value, whole) (ground (arith, small, zero_rest))
