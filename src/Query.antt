-- ===== src/Query.antt =====
-- query.h and what the operators of join.cpp share.
pub mod Join
pub mod Select
pub mod Table
pub mod Nested
pub mod Turned
use database_management_syst.Common.{
  ℕ, zero, suc, ◌+◌, Bool, true, false, not, ◌||◌, Option, none, some, List, [], ◌∷◌, ◌++◌, ◌==◌,
  if◌then◌else◌, bytes_eq,
}
use database_management_syst.Status.{Res, ok, err, undefined, attr_type_mismatch}
use database_management_syst.Monad.{M, fail, pure}
use database_management_syst.HeapFile.{
  Datatype, string, integer, float, Operator, lt, lte, eq, gte, gt, ne,
}
use database_management_syst.HeapFile.Match.{slice}
use database_management_syst.Catalog.{AttrDesc, AttrInfo, attr_bytes, c_string}

-- JoinType
pub data JoinType : Type 0 where
  nl_join sm_join hash_join : JoinType

-- `(Datatype) attrType`: startScan refuses any other number.
abbrev pub to_datatype : ℕ → Option Datatype
to_datatype zero = some string
to_datatype (suc zero) = some integer
to_datatype (suc (suc zero)) = some float
to_datatype (suc (suc (suc n))) = none

-- The operator for the attribute of the inner relation, when that of the outer one is the value.
abbrev pub turned : Operator → Operator
turned eq = eq
turned gt = lt
turned gte = lte
turned lt = gt
turned lte = gte
turned ne = ne

-- `attr1->attrType != attr2->attrType || attr1->attrLen != attr2->attrLen`
abbrev pub mismatch : AttrInfo → AttrInfo → Bool
mismatch a b = not (a.attr_type == b.attr_type) || not (a.attr_len == b.attr_len)

-- The strcmp of the relations' names of two structs.
unfoldable pub same_relation : AttrDesc → AttrDesc → Bool
same_relation a b = bytes_eq (c_string (attr_bytes a)) (c_string (attr_bytes b))

-- The bytes of an attribute in a record.
abbrev pub value_of : AttrDesc → List ℕ → List ℕ
value_of d rec = slice rec d.attr_offset d.attr_len

-- The output record: each attribute of the list is copied behind the last one, from the outer
-- record if it is of the relation of `first`, and else from the inner one.
unfoldable pub project : AttrDesc → List AttrDesc → List ℕ → List ℕ → List ℕ
project first [] outer inner = []
project first (d ∷ ds) outer inner =
    (if same_relation d first then value_of d outer else value_of d inner)
    ++ project first ds outer inner

-- The sum of the attributes' lengths.
unfoldable pub record_length : List AttrDesc → ℕ
record_length [] = 0
record_length (d ∷ ds) = d.attr_len + record_length ds
