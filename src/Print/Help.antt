-- ===== src/Print/Help.antt =====
-- help.cpp: RelCatalog::help, which shows what the catalogs say of a relation.
use database_management_syst.Common.{
  ℕ, zero, suc, ◌-◌, Option, none, some, List, [], ◌∷◌, ◌++◌, if◌then◌else◌, length, replicate,
  to_int32, codes,
}
use database_management_syst.Monad.{M, ◌>>=◌, ◌>>◌, pure}
use database_management_syst.Platform.{Platform}
use database_management_syst.System.{Sys}
use database_management_syst.Db.{is_empty}
use database_management_syst.HeapFile.Match.{Sign}
use database_management_syst.Catalog.{RelDesc, AttrDesc, rel_cat_name, rel_bytes, c_string}
use database_management_syst.Catalog.Relations
use database_management_syst.Catalog.Attributes
use database_management_syst.Print.{Screen, put, below, int_text, shown_name, print}

-- std::setw: blanks before a text that is shorter
unfoldable pub set_w : ℕ → List ℕ → List ℕ
set_w width text = replicate (width - length text) 32 ++ text

unfoldable pub convert_type : ℕ → List ℕ
convert_type zero = codes "string"
convert_type (suc zero) = codes "int"
convert_type (suc (suc n)) = codes "float"

-- The heading, with the struct of the relation.
unfoldable pub help_heading : RelDesc → List ℕ
help_heading rd =
    codes "All Relations Currently in Catalog: "
    ++ (10 ∷ 10 ∷ codes "Name of Relation: "
        ++ (c_string (rel_bytes rd)
            ++ (codes " | Number of Attributes: "
                ++ (int_text (to_int32 rd.attr_cnt)
                    ++ (32
                          ∷ 10
                          ∷ 10
                          ∷ codes
                              "Attribute Name | Attribute Length | Attribute Type | Attribute Offset "
                        ++ (10
                              ∷ codes
                                  "_______________|__________________|________________|_________________"
                            ++ 10 ∷ []))))))

-- The line of an attribute.
unfoldable pub help_line : AttrDesc → List ℕ
help_line d =
    set_w 8 (c_string (shown_name d))
    ++ (set_w 20 (int_text (to_int32 d.attr_len))
        ++ (set_w 18 (convert_type d.attr_type)
            ++ (set_w 15 (int_text (to_int32 d.attr_offset)) ++ 10 ∷ [])))

unfoldable pub help_lines : List AttrDesc → List ℕ
help_lines [] = []
help_lines (d ∷ attrs) = help_line d ++ help_lines attrs

module _ {P : Platform} (float_sign : List ℕ → List ℕ → Sign) (float_text : List ℕ → List ℕ)
    (fuel unset_width : ℕ) where
  -- The part for a relation that is named.
  unfoldable pub help_relation :
      RelDesc → AttrDesc → List ℕ → M (Screen (Sys P)) (Option (Unit {0}))
  help_relation unset_rel unset relation = do
    found ← below (Relations.get_info float_sign fuel relation unset_rel)
    elim found [
      | none ↦ pure none
      | some rd ↦ do
        attrs ← below (Attributes.get_rel_info float_sign fuel relation unset_rel unset)
        elim attrs [
          | none ↦ pure none
          | some ds ↦ do put (help_heading rd); put (help_lines ds); pure (some tt)
        ]
    ]

  unfoldable pub help : RelDesc → AttrDesc → List ℕ → M (Screen (Sys P)) (Option (Unit {0}))
  help unset_rel unset relation =
      if is_empty relation
      then print float_sign float_text fuel unset_width unset_rel unset rel_cat_name
      else help_relation unset_rel unset relation
