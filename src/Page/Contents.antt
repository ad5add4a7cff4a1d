-- ===== src/Page/Contents.antt =====
-- What a page holds, as a map from slots to records, and how the operations change the map.
use database_management_syst.Common.{
  ℕ, zero, suc, ◌+◌, ◌-◌, ◌≤◌, ◌<◌, ◌≡◌, ◌∙◌, ap, inl, inr, Option, none, some, List, arith, ltb,
  ◌==◌, if◌then◌else◌, Bool-cases, Option-cases, length, ℤ, pos, ◌∷◌, [],
}
use database_management_syst.Status.{Res, ok, err, invalid_slot_no}
use database_management_syst.Page.{
  Page, Rid, find_hole, extent, valid_slot, add_record, insert_record, remove_slot, delete_record,
  get_record,
}
use database_management_syst.Page.Memory.{read_bytes, read_bytes_congr, read_bytes-memcpy}
use database_management_syst.Page.Slots.{extent-find_hole}
use database_management_syst.Page.Valid.{
  IsValid, Apart, extent-add_record, insert_record-ok, extent-remove_slot, delete_record-ok,
}

abbrev pub read_extent : (ℕ → ℕ) → Option (ℕ × ℕ) → Option (List ℕ)
read_extent m none = none
read_extent m (some (o, l)) = some (read_bytes m o l)

-- The record of a slot, if there is one.
unfoldable pub record_at : Page → ℕ → Option (List ℕ)
record_at p i = read_extent p.bytes (extent p.slots i)

module _ (rec : List ℕ) (p : Page) (v : IsValid p) (room : length rec + 4 ≤ p.free_space) where
  bytes-add_record :
      (o l : ℕ)
      → o + l ≤ p.free_ptr
      → read_bytes (add_record rec p).bytes o l ≡ read_bytes p.bytes o l
  unfolding add_record
  bytes-add_record o l h = read_bytes_congr _ _ o o l (λ k lt. ground arith)

  new-add_record : read_bytes (add_record rec p).bytes p.free_ptr (length rec) ≡ rec
  unfolding add_record
  new-add_record = read_bytes-memcpy p.bytes p.free_ptr rec

  record_at-add_record :
      (j : ℕ)
      → record_at (add_record rec p) j
        ≡ (if j == find_hole p.slots then some rec else record_at p j)
  unfolding record_at
  record_at-add_record j = elim (Option-cases (extent p.slots j)) [
    | inl no_slot ↦ ground (arith, extent-add_record rec p v room j, new-add_record)
    | inr ((o, l), at) ↦ ground (
      arith,
      extent-add_record rec p v room j,
      new-add_record,
      bytes-add_record o l (v.inside j o l at),
    )
  ]

module _ (i o l : ℕ) (p : Page) (v : IsValid p) (e : extent p.slots i ≡ some (o, l))
    (some_byte : 0 < l) where
  -- The compaction keeps the bytes of every record that is left.
  bytes-remove_slot :
      (o' l' : ℕ)
      → o' + l' ≤ p.free_ptr
      → Apart (o, l) (o', l')
      → read_bytes (remove_slot i o l p).bytes (if ltb o o' then o' - l else o') l'
        ≡ read_bytes p.bytes o' l'
  unfolding remove_slot
  bytes-remove_slot o' l' h ap = elim (Bool-cases (ltb o o')) [
    | inl behind ↦ rw behind (
        read_bytes_congr _ _ (o' - l) o' l'
          (λ k lt. let same : o + l + (o' - l + k - o) ≡ o' + k = ground arith in ground arith))
    | inr before ↦ rw before (read_bytes_congr _ _ o' o' l' (λ k lt. ground arith))
  ]

  record_at-remove_slot :
      (j : ℕ) → record_at (remove_slot i o l p) j ≡ (if j == i then none else record_at p j)
  unfolding record_at
  record_at-remove_slot j = elim (Option-cases (extent p.slots j)) [
    | inl no_slot ↦ ground (arith, extent-remove_slot i o l p v e some_byte j)
    | inr ((o', l'), at) ↦ ground (
      arith,
      extent-remove_slot i o l p v e some_byte j,
      v.apart i j o l o' l',
      bytes-remove_slot o' l' (v.inside j o' l' at),
    )
  ]

-- A successful insertion into a well-formed page puts the record into a slot that held none, under
-- the page and slot number that are returned, and every other slot keeps its record.
pub insert_record-record_at :
    (rec : List ℕ) (p q : Page) (rid : Rid)
    → IsValid p
    → insert_record rec p ≡ ok (rid, q)
    → (i : ℕ) × (rid ≡ record { page_no = p.cur_page; slot_no = pos i })
      × (record_at p i ≡ none)
      × ((j : ℕ) → record_at q j ≡ (if j == i then some rec else record_at p j))
unfolding record_at
insert_record-record_at rec p q rid v h =
    let (room, page, slot, e) = insert_record-ok rec p q rid h in
    (
      find_hole p.slots,
      ground arith,
      ground (arith, extent-find_hole p.slots),
      λ j. rw e (record_at-add_record rec p v room j),
    )

-- A successful deletion from a well-formed page removes the record of its slot, whose number is from
-- 0 on, and every other slot keeps its record, although the bytes behind the deleted one have moved.
pub delete_record-record_at :
    (rid : Rid) (p q : Page)
    → IsValid p
    → delete_record rid p ≡ ok q
    → (i : ℕ) × (rid.slot_no ≡ pos i)
      × ((j : ℕ) → record_at q j ≡ (if j == i then none else record_at p j))
delete_record-record_at rid p q v h =
    let (i, o, l, slot, at, some_byte, e) = delete_record-ok rid p q h in
    (i, slot, λ j. ap (λ r. record_at r j) e ∙ (record_at-remove_slot i o l p v at some_byte j))

-- What `get_record` returns of a slot, and `delete_record` refuses, by the slot's content.
abbrev pub answer : Option (List ℕ) → Res (List ℕ)
answer none = err invalid_slot_no
answer (some []) = err invalid_slot_no
answer (some (b ∷ bs)) = ok (b ∷ bs)

-- A lookup of a slot number from 0 on returns the slot's record, and INVALIDSLOTNO if the slot holds
-- none or an empty one.
pub get_record-record_at :
    (p : Page) (page_no : ℤ) (i : ℕ)
    → get_record (record { page_no = page_no; slot_no = pos i }) p ≡ answer (record_at p i)
unfolding get_record record_at valid_slot read_bytes
get_record-record_at p page_no i = elim (Option-cases (extent p.slots i)) [
  | inl no_slot ↦ ground arith
  | inr ((o, zero), at) ↦ ground arith
  | inr ((o, suc l), at) ↦ ground arith
]
