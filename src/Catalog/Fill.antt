-- ===== src/Catalog/Fill.antt =====
-- The loop of AttrCatalog::getRelInfo on rows that addInfo has written.
use mathlib.Core.List.{append-nil, reverse, reverse_aux}
use database_management_syst.Common.{
  ℕ, zero, suc, ◌<◌, ◌≤◌, ◌≡◌, refl, sym, ap, ◌∙◌, subst, inl, inr, true, false, Bool-cases, Option,
  none, some, List, [], ◌∷◌, arith, if◌then◌else◌, length, drop, set, length-set,
}
use database_management_syst.Status.{Res, ok}
use database_management_syst.Monad.{◌>>=◌}
use database_management_syst.HeapFile.Cursor.{leave_current, row_cursor}
use database_management_syst.Catalog.{AttrDesc, same_c_string, attr_bytes, attr_of}
use database_management_syst.Catalog.Attributes.{fill_attrs}
use database_management_syst.Catalog.Rows.{IsAttrRow, attr_of-attr_bytes}
use database_management_syst.Catalog.Loops.{at}
use database_management_syst.Catalog.Lookup.{written, AreAttrRows}

-- The structs whose relation has the name, in their order.
unfoldable pub of_relation : List ℕ → List AttrDesc → List AttrDesc
of_relation relation [] = []
of_relation relation (d ∷ ds) =
    let rest = of_relation relation ds in
    if same_c_string (attr_bytes d) relation then d ∷ rest else rest

attr_of-written : (d : AttrDesc) → IsAttrRow d → attr_of (attr_bytes d) ≡ d
attr_of-written d v =
    subst (λ x. attr_of x ≡ d) (append-nil (attr_bytes d)) (attr_of-attr_bytes d [] v)

length-zero : {A : Type 0} (xs : List A) → length xs ≡ 0 → xs ≡ []
length-zero [] h = refl
length-zero (x ∷ xs) h = absurd (omega (arith, h))

-- The places from the one that was written on.
drop-set :
    {A : Type 0} (n : ℕ) (xs : List A) (a : A)
    → n < length xs
    → drop n (set xs n a) ≡ a ∷ drop (suc n) xs
drop-set n [] a h = absurd (omega arith)
drop-set zero (x ∷ xs) a h = refl
drop-set (suc n) (x ∷ xs) a h = drop-set n xs a (omega arith)

drop-set_above :
    {A : Type 0} (n : ℕ) (xs : List A) (a : A) → drop (suc n) (set xs n a) ≡ drop (suc n) xs
drop-set_above n [] a = refl
drop-set_above zero (x ∷ xs) a = refl
drop-set_above (suc n) (x ∷ xs) a = drop-set_above n xs a

module _ (relation : List ℕ) (fuel : ℕ) (p : List (List ℕ)) (cur : Option (List ℕ)) where
  fill_attrs-end :
      (n : ℕ) (attrs : List AttrDesc)
      → (fill_attrs row_cursor relation (suc fuel) n attrs (at p cur [])).0 ≡ ok (some attrs)
  unfolding fill_attrs ◌>>=◌
  fill_attrs-end n attrs = refl

  fill_attrs-full :
      (attrs : List AttrDesc) (xs : List (List ℕ))
      → (fill_attrs row_cursor relation (suc fuel) 0 attrs (at p cur xs)).0 ≡ ok (some attrs)
  unfolding fill_attrs ◌>>=◌
  fill_attrs-full attrs [] = refl
  fill_attrs-full attrs (x ∷ xs) = refl

  module _ (d : AttrDesc) (v : IsAttrRow d) (n : ℕ) (attrs : List AttrDesc)
      (xs : List (List ℕ)) where
    fill_attrs-same :
        same_c_string (attr_bytes d) relation ≡ true
        → fill_attrs row_cursor relation (suc fuel) (suc n) attrs (at p cur (attr_bytes d ∷ xs))
          ≡ fill_attrs row_cursor relation fuel n
              (set attrs n d)
              (at (leave_current (at p cur [])) (some (attr_bytes d)) xs)
    unfolding fill_attrs ◌>>=◌
    fill_attrs-same same = rw (attr_of-written d v) (rw same refl)

    fill_attrs-other :
        same_c_string (attr_bytes d) relation ≡ false
        → fill_attrs row_cursor relation (suc fuel) (suc n) attrs (at p cur (attr_bytes d ∷ xs))
          ≡ fill_attrs row_cursor relation fuel
              (suc n)
              (set attrs n d)
              (at (leave_current (at p cur [])) (some (attr_bytes d)) xs)
    unfolding fill_attrs ◌>>=◌
    fill_attrs-other other = rw (attr_of-written d v) (rw other refl)

-- The array after the loop: the structs of the relation from the last to the first, and what stood
-- behind the places that were left.
abbrev filled : List AttrDesc → ℕ → List AttrDesc → Res (Option (List AttrDesc))
filled found n attrs = ok (some (reverse_aux found (drop n attrs)))

module _ (relation : List ℕ) (d : AttrDesc) (ds : List AttrDesc) where
  of_relation-same :
      same_c_string (attr_bytes d) relation ≡ true
      → of_relation relation (d ∷ ds) ≡ d ∷ of_relation relation ds
  unfolding of_relation
  of_relation-same same = rw same refl

  of_relation-other :
      same_c_string (attr_bytes d) relation ≡ false
      → of_relation relation (d ∷ ds) ≡ of_relation relation ds
  unfolding of_relation
  of_relation-other other = rw other refl

length-of_relation-nil : (relation : List ℕ) → length (of_relation relation []) ≡ 0
unfolding of_relation
length-of_relation-nil relation = refl

fill_attrs-filled :
    (relation : List ℕ) (fuel n : ℕ) (attrs : List AttrDesc) (p : List (List ℕ))
    (cur : Option (List ℕ)) (ds : List AttrDesc)
    → AreAttrRows ds
    → length ds < fuel
    → n ≤ length attrs
    → length (of_relation relation ds) ≡ n
    → (fill_attrs row_cursor relation fuel n attrs (at p cur (written ds))).0
      ≡ filled (of_relation relation ds) n attrs
fill_attrs-filled relation zero n attrs p cur ds v h k e = absurd (omega arith)
fill_attrs-filled relation (suc fuel) zero attrs p cur ds v h k e =
    rw (length-zero (of_relation relation ds) e)
      (fill_attrs-full relation fuel p cur attrs (written ds))
fill_attrs-filled relation (suc fuel) (suc n) attrs p cur [] v h k e =
    absurd (omega (arith, e, length-of_relation-nil relation))
fill_attrs-filled relation (suc fuel) (suc n) attrs p cur (d ∷ ds) v h k e =
    let q = leave_current (at p cur []) in
    let xs = written ds in
    let size = length-set attrs n d in
    elim (Bool-cases (same_c_string (attr_bytes d) relation)) [
      | inl same ↦
          let split = of_relation-same relation d ds same in
          rw (fill_attrs-same relation fuel p cur d v.0 n attrs xs same) (
            fill_attrs-filled relation fuel n (set attrs n d) q (some (attr_bytes d)) ds v.1
              (omega arith) (omega (arith, size)) (omega (arith, e, ap length split))
            ∙ ap (λ z. ok (some (reverse_aux (of_relation relation ds) z)))
                (drop-set n attrs d (omega arith))
            ∙ ap (λ z. filled z (suc n) attrs) (sym split))
      | inr other ↦
          let split = of_relation-other relation d ds other in
          rw (fill_attrs-other relation fuel p cur d v.0 n attrs xs other) (
            fill_attrs-filled relation fuel (suc n) (set attrs n d) q (some (attr_bytes d)) ds v.1
              (omega arith) (omega (arith, size)) (sym (ap length split) ∙ e)
            ∙ ap (λ z. ok (some (reverse_aux (of_relation relation ds) z)))
                (drop-set_above n attrs d)
            ∙ ap (λ z. filled z (suc n) attrs) (sym split))
    ]

drop-all : {A : Type 0} (xs : List A) → drop (length xs) xs ≡ []
drop-all [] = refl
drop-all (x ∷ xs) = drop-all xs

-- The loop of getRelInfo on a list of rows that addInfo has written, with more fuel than rows and
-- an array as long as the number of rows of the relation: it gives those rows' structs, each once,
-- from the last to the first, whatever the array held before. Rows of other relations, which the
-- loop writes into the array too, are all overwritten.
pub fill_attrs-of_relation :
    (relation : List ℕ) (fuel : ℕ) (attrs ds : List AttrDesc)
    → AreAttrRows ds
    → length ds < fuel
    → length (of_relation relation ds) ≡ length attrs
    → (fill_attrs row_cursor relation fuel (length attrs) attrs (at [] none (written ds))).0
      ≡ ok (some (reverse (of_relation relation ds)))
fill_attrs-of_relation relation fuel attrs ds v h e =
    fill_attrs-filled relation fuel (length attrs) attrs [] none ds v h (omega arith) e
    ∙ ap (λ z. ok (some (reverse_aux (of_relation relation ds) z))) (drop-all attrs)
