-- ===== src/JoinTable.antt =====
-- joinHT.h and joinHT.cpp: the hash table of the hash join, from attribute values to record ids.
--
-- A tuple is its bytes; an attribute value is the bytes that are copied from it. The equality of
-- floats and their conversion to `int` in the hash function are parameters.
pub mod Lookup
use database_management_syst.Common.{
  ℕ, zero, suc, ◌+◌, ◌-◌, ◌*◌, ◌%◌, ◌^◌, Bool, true, false, List, [], ◌∷◌, ltb, ◌==◌, if◌then◌else◌,
  length, get_or, ℤ, pos, to_int32, rem_ℤ, eq_ℤ,
}
use database_management_syst.Page.{Rid}
use database_management_syst.HeapFile.{Datatype, string, integer, float}
use database_management_syst.HeapFile.Match.{Sign, null, slice, word, strncmp}
use database_management_syst.OpenFiles.{char_word, abs_ℤ}

-- The parts of catalog.h's AttrDesc that the table reads.
pub record Attr : Type 0 where
  pub offset : ℕ
  pub len : ℕ
  pub type : Datatype

-- One chain with its count.
pub record Entry : Type 0 where
  pub bucket_cnt : ℕ
  pub chain : List (List ℕ × Rid)

pub record JoinTable : Type 0 where
  pub attr : Attr
  pub htsize : ℕ
  pub ht : ℤ → Entry

unfoldable pub construct : ℕ → Attr → JoinTable
construct size attr = record {
  attr = attr;
  htsize = size;
  ht = λ i. record { bucket_cnt = 0; chain = [] };
}

-- The loop over a string adds the byte behind the one that it tests, up to the closing 0.
unfoldable pub string_value : ℕ → List ℕ → ℕ
string_value value [] = value
string_value value (c ∷ bytes) =
    let rest = string_value ((31 * value + char_word (get_or bytes 0 0)) % 2 ^ 32) bytes in
    if c == 0 then value else rest

-- The number of bytes that are copied from the tuple.
unfoldable pub value_len : Datatype → ℕ → ℕ
value_len integer len = 4
value_len float len = 4
value_len string len = len

module _ (float_eq : List ℕ → List ℕ → Bool) (float_value : List ℕ → ℕ → ℕ) where
  -- The word of `value`, before the remainder is taken.
  unfoldable pub hash_value : Datatype → ℕ → List ℕ → ℕ
  unfolding string_value
  hash_value integer htsize bytes = word bytes * htsize * 31 % 2 ^ 32
  hash_value float htsize bytes = float_value bytes htsize
  hash_value string htsize bytes = string_value 0 bytes

  unfoldable pub hash : JoinTable → List ℕ → ℤ
  unfolding hash_value
  hash t bytes = abs_ℤ (rem_ℤ (to_int32 (hash_value t.attr.type t.htsize bytes)) t.htsize)

  abbrev pub write : (ℤ → Entry) → ℤ → Entry → ℤ → Entry
  write ht i e j = if eq_ℤ j i then e else ht j

  -- The attribute of a tuple, and all that follows it.
  abbrev pub attr_bytes : JoinTable → List ℕ → List ℕ
  attr_bytes t tuple = slice tuple t.attr.offset (length tuple - t.attr.offset)

  unfoldable pub insert : Rid → List ℕ → JoinTable → JoinTable
  unfolding hash value_len
  insert new_rid tuple t =
      let bytes = attr_bytes t tuple in
      let i = hash t bytes in
      let e = t.ht i in
      record t {
        ht = write t.ht i (record {
          bucket_cnt = e.bucket_cnt + 1;
          chain = (slice bytes 0 (value_len t.attr.type t.attr.len), new_rid) ∷ e.chain;
        });
      }

  abbrev is_null : Sign → Bool
  is_null null = true
  is_null _ = false

  -- The test on a bucket of the chain.
  unfoldable pub matches : Datatype → ℕ → List ℕ → List ℕ → Bool
  matches integer len stored inner = word stored == word inner
  matches float len stored inner = float_eq stored inner
  matches string len stored inner = is_null (strncmp len stored inner)

  -- The loop over the chain: the record ids in the order in which they are stored.
  unfoldable pub collect : Attr → List ℕ → List (List ℕ × Rid) → List Rid
  unfolding matches
  collect a inner [] = []
  collect a inner (b ∷ chain) =
      let rest = collect a inner chain in
      if matches a.type a.len b.0 inner then b.1 ∷ rest else rest

  -- The length of the result is `ridCnt`; the array has room for `bucketCnt`.
  unfoldable pub lookup : List ℕ → JoinTable → List Rid
  unfolding collect hash
  lookup inner t = collect t.attr inner (t.ht (hash t inner)).chain
