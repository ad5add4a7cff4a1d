-- ===== src/Catalog/Bootstrap.antt =====
-- dbcreate.cpp: the catalogs of a new database, which describe themselves.
--
-- The program's mkdir and chdir are outside the model. CALL ends the program at a status that is
-- not OK, with that status in its message: it is the outcome here.
use database_management_syst.Common.{ℕ, ◌+◌, List, [], ◌∷◌}
use database_management_syst.Status.{Res, ok}
use database_management_syst.Monad.{M, ◌>>=◌, ◌>>◌, pure, of_res}
use database_management_syst.Platform.{Platform}
use database_management_syst.System.{Sys}
use database_management_syst.Buffer.{shut_down}
use database_management_syst.HeapFile.{
  HeapFile, Session, create_heap_file, open_heap_file, close_heap_file,
}
use database_management_syst.HeapFile.Match.{Sign}
use database_management_syst.Catalog.{
  RelDesc, AttrDesc, AttrInfo, rel_cat_name, attr_cat_name, strcpy,
}
use database_management_syst.Catalog.Relations
use database_management_syst.Catalog.Attributes
use database_management_syst.Catalog.Schema.{describe}

abbrev attribute : List ℕ → List ℕ → ℕ → ℕ → AttrInfo
attribute rel attr type len = record {
  rel_name = rel;
  attr_name = attr;
  attr_type = type;
  attr_len = len;
}

-- "relName", "attrCnt", "attrName", "attrOffset", "attrType", "attrLen"
abbrev rel_name_text : List ℕ
rel_name_text = 114 ∷ 101 ∷ 108 ∷ 78 ∷ 97 ∷ 109 ∷ 101 ∷ []

abbrev attr_text : List ℕ → List ℕ
attr_text end = 97 ∷ 116 ∷ 116 ∷ 114 ∷ end

-- The attributes of relcat and of attrcat, with STRING = 0 and INTEGER = 1.
abbrev pub rel_cat_attrs : List AttrInfo
rel_cat_attrs =
    attribute rel_cat_name rel_name_text 0 32
    ∷ attribute rel_cat_name (attr_text (67 ∷ 110 ∷ 116 ∷ [])) 1 4
    ∷ []

abbrev pub attr_cat_attrs : List AttrInfo
attr_cat_attrs =
    attribute attr_cat_name rel_name_text 0 32
    ∷ attribute attr_cat_name (attr_text (78 ∷ 97 ∷ 109 ∷ 101 ∷ [])) 0 32
    ∷ attribute attr_cat_name (attr_text (79 ∷ 102 ∷ 102 ∷ 115 ∷ 101 ∷ 116 ∷ [])) 1 4
    ∷ attribute attr_cat_name (attr_text (84 ∷ 121 ∷ 112 ∷ 101 ∷ [])) 1 4
    ∷ attribute attr_cat_name (attr_text (76 ∷ 101 ∷ 110 ∷ [])) 1 4
    ∷ []

module _ {P : Platform} (float_sign : List ℕ → List ℕ → Sign) (fuel : ℕ) where
  -- A relation's row in relcat, from the struct that the row before has left.
  unfoldable pub enter_catalog : RelDesc → List ℕ → ℕ → M (Sys P) RelDesc
  enter_catalog rd name attr_cnt = do
    field ← of_res (strcpy rd.rel_name name)
    Relations.add_info float_sign fuel (record { rel_name = field; attr_cnt = attr_cnt })
    pure (record { rel_name = field; attr_cnt = attr_cnt })

  -- The rows of a relation's attributes, each behind the last one.
  unfoldable pub enter_attrs : AttrDesc → ℕ → List AttrInfo → M (Sys P) AttrDesc
  enter_attrs ad offset [] = pure ad
  enter_attrs ad offset (a ∷ attrs) = do
    ad' ← of_res (describe ad offset a)
    Attributes.add_info float_sign fuel ad'
    enter_attrs ad' (offset + a.attr_len) attrs

  abbrev closed : Res (Unit {0}) × Session P → Sys P
  closed (r, s) = s.sys

  abbrev close_object : HeapFile → M (Sys P) (Unit {0})
  close_object h s = (ok tt, closed (close_heap_file (record { hf = h; sys = s })))

  -- main, from createHeapFile on. `rd` and `ad` are what its two structs hold at first.
  unfoldable pub create_database : RelDesc → AttrDesc → M (Sys P) (Unit {0})
  create_database rd ad = do
    create_heap_file rel_cat_name
    create_heap_file attr_cat_name
    rel_cat ← open_heap_file rel_cat_name
    attr_cat ← open_heap_file attr_cat_name
    rd' ← enter_catalog rd rel_cat_name 2
    ad' ← enter_attrs ad 0 rel_cat_attrs
    rd'' ← enter_catalog rd' attr_cat_name 5
    ad'' ← enter_attrs ad' 0 attr_cat_attrs
    close_object rel_cat
    close_object attr_cat
    shut_down

  -- quit.cpp, UT_Quit, up to its exit.
  unfoldable pub quit : HeapFile → HeapFile → M (Sys P) (Unit {0})
  quit rel_cat attr_cat = close_object rel_cat >> close_object attr_cat >> shut_down
