-- ===== src/Catalog.antt =====
-- catalog.h: the rows of the two catalogs, as structs and as the bytes that memcpy moves.
--
-- An `int` field is its word of 32 bits. A std::string is its bytes; c_str() has a 0 behind them.
pub mod Rows
pub mod Relations
pub mod Attributes
pub mod Schema
pub mod Loops
pub mod Lookup
pub mod Fill
pub mod Bootstrap
use database_management_syst.Common.{
  ℕ, zero, suc, ◌+◌, ◌-◌, ◌/◌, ◌%◌, ◌^◌, Bool, true, false, List, [], ◌∷◌, ◌++◌, ◌==◌, ltb,
  if◌then◌else◌, length, take, drop, bytes_eq,
}
use database_management_syst.Status.{Res, ok, undefined, Status, file_eof}
use database_management_syst.HeapFile.Match.{slice, word}

-- RELCATNAME, "relcat", and ATTRCATNAME, "attrcat"
abbrev pub rel_cat_name : List ℕ
rel_cat_name = 114 ∷ 101 ∷ 108 ∷ 99 ∷ 97 ∷ 116 ∷ []

abbrev pub attr_cat_name : List ℕ
attr_cat_name = 97 ∷ 116 ∷ 116 ∷ 114 ∷ 99 ∷ 97 ∷ 116 ∷ []

-- MAXNAME
abbrev pub max_name : ℕ
max_name = 32

pub record RelDesc : Type 0 where
  pub rel_name : List ℕ
  pub attr_cnt : ℕ

pub record AttrDesc : Type 0 where
  pub rel_name : List ℕ
  pub attr_name : List ℕ
  pub attr_offset : ℕ
  pub attr_type : ℕ
  pub attr_len : ℕ

-- The parts of attrInfo that the catalogs read.
pub record AttrInfo : Type 0 where
  pub rel_name : List ℕ
  pub attr_name : List ℕ
  pub attr_type : ℕ
  pub attr_len : ℕ

-- The four bytes of an `int`, the low one first.
unfoldable pub word_bytes : ℕ → List ℕ
word_bytes w = w % 256 ∷ w / 256 % 256 ∷ w / 65536 % 256 ∷ w / 16777216 % 256 ∷ []

-- sizeof(RelDesc) and sizeof(AttrDesc)
abbrev pub rel_desc_size : ℕ
rel_desc_size = 36

abbrev pub attr_desc_size : ℕ
attr_desc_size = 76

unfoldable pub rel_bytes : RelDesc → List ℕ
rel_bytes d = d.rel_name ++ word_bytes d.attr_cnt

unfoldable pub attr_bytes : AttrDesc → List ℕ
attr_bytes d =
    d.rel_name
    ++ (d.attr_name
        ++ (word_bytes d.attr_offset ++ (word_bytes d.attr_type ++ word_bytes d.attr_len)))

unfoldable pub rel_of : List ℕ → RelDesc
rel_of bytes = record { rel_name = slice bytes 0 32; attr_cnt = word (slice bytes 32 4) }

unfoldable pub attr_of : List ℕ → AttrDesc
attr_of bytes = record {
  rel_name = slice bytes 0 32;
  attr_name = slice bytes 32 32;
  attr_offset = word (slice bytes 64 4);
  attr_type = word (slice bytes 68 4);
  attr_len = word (slice bytes 72 4);
}

-- memcpy(&record, rec.data, rec.length): a shorter record leaves the rest of the struct, a longer
-- one is written past its end.
unfoldable pub copy_rel : RelDesc → List ℕ → Res RelDesc
copy_rel old bytes =
    if ltb rel_desc_size (length bytes)
    then undefined
    else ok (rel_of (bytes ++ drop (length bytes) (rel_bytes old)))

unfoldable pub copy_attr : AttrDesc → List ℕ → Res AttrDesc
copy_attr old bytes =
    if ltb attr_desc_size (length bytes)
    then undefined
    else ok (attr_of (bytes ++ drop (length bytes) (attr_bytes old)))

-- The C string at the start of a block. A block without a 0 ends the string here.
unfoldable pub c_string : List ℕ → List ℕ
c_string [] = []
c_string (c ∷ bytes) = let rest = c ∷ c_string bytes in if c == 0 then [] else rest

-- strcpy into a field: the name and a 0, and behind it what the field held. A name that does not
-- fit is written past the field.
unfoldable pub strcpy : List ℕ → List ℕ → Res (List ℕ)
strcpy field name =
    let n = c_string name in
    if ltb (length n) (length field) then ok (n ++ 0 ∷ drop (length n + 1) field) else undefined

-- The comparisons of a name in a struct or record: strcmp with c_str(), which stops at a 0, and
-- the == of std::string, which does not.
unfoldable pub same_c_string : List ℕ → List ℕ → Bool
same_c_string bytes name = bytes_eq (c_string bytes) (c_string name)

unfoldable pub same_string : List ℕ → List ℕ → Bool
same_string bytes name = bytes_eq (c_string bytes) name

abbrev pub is_eof : Status → Bool
is_eof file_eof = true
is_eof _ = false
