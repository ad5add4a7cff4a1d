-- ===== src/BufHash.antt =====
-- bufHash.cpp: the hash table of the buffer pool, from a file and a page number to a frame.
--
-- A File* is the number of its address; its cast to `int` keeps the low 32 bits, and the sum in
-- `hash` wraps around at 32 bits. The index can be negative: what the table does at an index
-- outside its array is `undefined`.
use database_management_syst.Common.{
  ℕ, suc, ◌+◌, ◌-◌, ◌*◌, ◌/◌, ◌%◌, ◌^◌, ◌≤◌, ◌<◌, ◌≡◌, arith, ℤ, pos, negsuc, to_int32, rem_ℤ, Bool,
  true, false, ltb, if◌then◌else◌, page_key,
}
use database_management_syst.Status.{Res, undefined}
use database_management_syst.HashTable
use database_management_syst.HashTable.{Buckets}

-- The bit pattern of an `int`.
abbrev pub word_of : ℤ → ℕ
word_of (pos n) = n % 2 ^ 32
word_of (negsuc n) = 2 ^ 32 - 1 - n % 2 ^ 32

unfoldable pub hash : ℕ → ℕ × ℤ → ℤ
hash htsize (file, page_no) = rem_ℤ (to_int32 (file + word_of page_no)) htsize

abbrev pub inside : ℕ → ℤ → Bool
inside n (pos i) = ltb i n
inside n (negsuc i) = false

-- The index of the page lies in the array of the table.
unfoldable pub in_array : ℕ → ℕ × ℤ → Bool
unfolding hash
in_array htsize k = inside htsize (hash htsize k)

abbrev pub FrameTable : Type 0
FrameTable = Buckets (ℕ × ℤ) ℕ

unfoldable pub insert : ℕ → ℕ × ℤ → ℕ → FrameTable → Res FrameTable
insert htsize k v ht =
    if in_array htsize k then HashTable.insert (hash htsize) k v ht else undefined

unfoldable pub lookup : ℕ → ℕ × ℤ → FrameTable → Res ℕ
lookup htsize k ht = if in_array htsize k then HashTable.lookup (hash htsize) k ht else undefined

unfoldable pub remove : ℕ → ℕ × ℤ → FrameTable → Res FrameTable
remove htsize k ht = if in_array htsize k then HashTable.remove (hash htsize) k ht else undefined

-- The size that the constructor of BufMgr gives the table, `((int)(bufs * 1.2)) * 2 / 2 + 1`.
unfoldable pub table_size : ℕ → ℕ
table_size bufs = bufs * 12 / 10 * 2 / 2 + 1

-- For an address and a page number from 0 on whose sum, of the address the low 32 bits, stays below
-- 2 ^ 31, the index lies in the array that the constructor allocates, and is the remainder of the
-- sum.
pub hash-lt-table_size :
    (bufs file page_no : ℕ)
    → file % 2 ^ 32 + page_no < 2 ^ 31
    → (hash (table_size bufs) (file, pos page_no)
        ≡ pos ((file % 2 ^ 32 + page_no) % table_size bufs))
      × (in_array (table_size bufs) (file, pos page_no) ≡ true)
unfolding hash table_size in_array
hash-lt-table_size bufs file page_no h =
    let sum : (file + page_no % 2 ^ 32) % 2 ^ 32 ≡ file % 2 ^ 32 + page_no = omega arith in
    (ground (arith, sum), ground (arith, sum))

-- For any other address whose sum with the page number stays below 2 ^ 32, the index is negative,
-- unless the table size divides the distance to 2 ^ 32: the access is before the array.
hash_negative :
    (htsize file page_no : ℕ)
    → 2 ^ 31 ≤ file % 2 ^ 32 + page_no
    → file % 2 ^ 32 + page_no < 2 ^ 32
    → 0 < (2 ^ 32 - (file % 2 ^ 32 + page_no)) % htsize
    → in_array htsize (file, pos page_no) ≡ false
unfolding hash in_array
hash_negative htsize file page_no h lt r =
    let sum : (file + page_no % 2 ^ 32) % 2 ^ 32 ≡ file % 2 ^ 32 + page_no = omega arith in
    let up : suc (2 ^ 32 - (file % 2 ^ 32 + page_no) - 1) ≡ 2 ^ 32 - (file % 2 ^ 32 + page_no) =
      omega arith in
    rw sum (ground (arith, up))
