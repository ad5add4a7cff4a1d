-- ===== src/OpenFiles.antt =====
-- db.cpp, OpenFileHashTbl: the hash table of open files, from a file name to its File object.
--
-- A name is the list of its bytes. The sum of `hash` wraps around at 32 bits, and a byte from 128
-- on is a negative `char`.
use database_management_syst.Common.{
  ℕ, ◌+◌, ◌-◌, ◌*◌, ◌%◌, ◌^◌, ◌<◌, ◌≡◌, List, [], ◌∷◌, arith, ltb, if◌then◌else◌, ℤ, pos, pos_part,
  neg_part, to_int32, rem_ℤ, bytes_key,
}
use database_management_syst.Status.{Res}
use database_management_syst.HashTable
use database_management_syst.HashTable.{Buckets}

abbrev pub htsize : ℕ
htsize = 113

abbrev pub char_word : ℕ → ℕ
char_word c = if ltb c 128 then c else c + 2 ^ 32 - 256

-- The loop over the name.
unfoldable pub hash_loop : ℕ → List ℕ → ℕ
hash_loop value [] = value
hash_loop value (c ∷ name) = hash_loop ((31 * value + char_word c) % 2 ^ 32) name

abbrev pub abs_ℤ : ℤ → ℤ
abs_ℤ a = pos (pos_part a + neg_part a)

unfoldable pub hash : List ℕ → ℤ
unfolding hash_loop
hash name = abs_ℤ (rem_ℤ (to_int32 (hash_loop 0 name)) htsize)

abbrev pub FileTable : Type 0
FileTable = Buckets (List ℕ) ℕ

unfoldable pub insert : List ℕ → ℕ → FileTable → Res FileTable
insert = HashTable.insert hash

unfoldable pub find : List ℕ → FileTable → Res ℕ
find = HashTable.lookup hash

unfoldable pub erase : List ℕ → FileTable → Res FileTable
erase = HashTable.remove hash

-- Whatever the name, the index lies in the array.
pub hash-lt : (name : List ℕ) → (i : ℕ) × (hash name ≡ pos i) × (i < htsize)
unfolding hash
hash-lt name = (pos_part (hash name), ground arith, ground arith)
