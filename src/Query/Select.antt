-- ===== src/Query/Select.antt =====
-- select.cpp, insert.cpp and delete.cpp: of these operators the source has the beginning at most.
--
-- atoi, and atof with the conversion to int, are parameters.
use database_management_syst.Common.{
  ℕ, ◌≡◌, refl, Bool, true, false, Option, none, some, List, ◌==◌, if◌then◌else◌, ℤ, pos, negsuc,
  drop, length,
}
use database_management_syst.Status.{Res, ok, err, undefined, attr_type_mismatch}
use database_management_syst.Monad.{M, ◌>>=◌, and_then, pure, fail, of_res}
use database_management_syst.Platform.{Platform}
use database_management_syst.System.{Sys}
use database_management_syst.HeapFile.{Operator}
use database_management_syst.HeapFile.Match.{Sign}
use database_management_syst.Catalog.{AttrDesc, AttrInfo, c_string, word_bytes}
use database_management_syst.Catalog.Attributes
use database_management_syst.Query.{record_length}
use database_management_syst.Query.Join.{look_up}

-- The bytes of the value that is looked for.
unfoldable pub convert : (List ℕ → ℕ) → (List ℕ → ℕ) → ℕ → List ℕ → List ℕ
convert atoi atof_int type value =
    if type == 2
    then word_bytes (atof_int value)
    else if type == 1
    then word_bytes (atoi value)
    else value

module _ {P : Platform} where
  -- ScanSelect writes a message and ends with no `return`.
  unfoldable pub scan_select :
      List ℕ → List AttrDesc → AttrDesc → Operator → List ℕ → ℕ → M (Sys P) (Option (Unit {0}))
  scan_select result ds d op filter reclen = of_res undefined

  module _ (float_sign : List ℕ → List ℕ → Sign) (fuel : ℕ) (atoi : List ℕ → ℕ)
      (atof_int : List ℕ → ℕ) where
    -- The part of QU_Select behind its getInfo for the attribute. The sum of the lengths starts
    -- where the first loop has ended, behind the last attribute.
    unfoldable pub select_by :
        List ℕ → List AttrDesc → Operator → List ℕ → Option AttrDesc → M (Sys P) (Option (Unit {0}))
    select_by result ds op value none = pure none
    select_by result ds op value (some d) =
        scan_select result ds d op (convert atoi atof_int d.attr_type value)
          (record_length (drop (length ds) ds))

    -- The part of QU_Select behind its first loop.
    unfoldable pub select_from :
        AttrDesc
        → List ℕ
        → Option AttrInfo
        → Operator
        → List ℕ
        → Option (List AttrDesc)
        → M (Sys P) (Option (Unit {0}))
    select_from unset result attr op value none = pure none
    select_from unset result none op value (some ds) = fail attr_type_mismatch
    select_from unset result (some attr) op value (some ds) =
        Attributes.get_info float_sign fuel (c_string attr.rel_name) (c_string attr.attr_name) unset
        >>= select_by result ds op value

    -- QU_Select. Its counter `i` is not set before the first loop: `stale` is what it holds. The
    -- attributes before it are not looked up, and one below 0 is an access before the array.
    unfoldable pub qu_select :
        ℤ
        → AttrDesc
        → List ℕ
        → List AttrInfo
        → Option AttrInfo
        → Operator
        → List ℕ
        → M (Sys P) (Option (Unit {0}))
    qu_select (negsuc n) unset result attrs attr op value = of_res undefined
    qu_select (pos n) unset result attrs attr op value =
        look_up float_sign fuel unset (drop n attrs) >>= select_from unset result attr op value

  -- QU_Insert and QU_Delete are empty.
  unfoldable pub qu_insert : List ℕ → List AttrInfo → M (Sys P) (Unit {0})
  qu_insert relation attrs = pure tt

  unfoldable pub qu_delete : List ℕ → List ℕ → Operator → ℕ → List ℕ → M (Sys P) (Unit {0})
  qu_delete relation attr_name op type value = pure tt

-- Whether a call has returned OK.
abbrev pub is_done : {S : Type 0} → Res (Option (Unit {0})) × S → Bool
is_done (ok (some _), s) = true
is_done (ok none, s) = false
is_done (err e, s) = false
is_done (undefined, s) = false

is_done-and_then :
    {S A : Type 0} (f : A → M S (Option (Unit {0})))
    → ((a : A) (s : S) → is_done (f a s) ≡ false)
    → (r : Res A × S) → is_done (and_then f r) ≡ false
is_done-and_then f h (ok a, s) = h a s
is_done-and_then f h (err e, s) = refl
is_done-and_then f h (undefined, s) = refl

module _ {P : Platform} (float_sign : List ℕ → List ℕ → Sign) (fuel : ℕ) (atoi : List ℕ → ℕ)
    (atof_int : List ℕ → ℕ) (unset : AttrDesc) (result : List ℕ) (op : Operator)
    (value : List ℕ) where
  is_done-select_by :
      (ds : List AttrDesc) (d : Option AttrDesc) (s : Sys P)
      → is_done (select_by float_sign fuel atoi atof_int result ds op value d s) ≡ false
  unfolding select_by scan_select
  is_done-select_by ds none s = refl
  is_done-select_by ds (some d) s = refl

  is_done-select_from :
      (attr : Option AttrInfo) (ds : Option (List AttrDesc)) (s : Sys P)
      → is_done (select_from float_sign fuel atoi atof_int unset result attr op value ds s) ≡ false
  unfolding select_from ◌>>=◌
  is_done-select_from attr none s = refl
  is_done-select_from none (some ds) s = refl
  is_done-select_from (some attr) (some ds) s =
      is_done-and_then (select_by float_sign fuel atoi atof_int result ds op value)
        (is_done-select_by ds)
        (Attributes.get_info float_sign fuel (c_string attr.rel_name) (c_string attr.attr_name)
          unset s)

  -- A call of QU_Select on any system, whatever its counter holds at first and however the calls
  -- in it go, does not return OK.
  pub is_done-qu_select :
      (stale : ℤ) (attrs : List AttrInfo) (attr : Option AttrInfo) (s : Sys P)
      → is_done (qu_select float_sign fuel atoi atof_int stale unset result attrs attr op value s)
        ≡ false
  unfolding qu_select ◌>>=◌
  is_done-qu_select (negsuc n) attrs attr s = refl
  is_done-qu_select (pos n) attrs attr s =
      is_done-and_then (select_from float_sign fuel atoi atof_int unset result attr op value)
        (is_done-select_from attr) (look_up float_sign fuel unset (drop n attrs) s)
