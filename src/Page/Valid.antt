-- ===== src/Page/Valid.antt =====
-- The well-formedness of a page: the records lie packed in front of the free pointer, no two
-- overlap, and the records, the slot array and the free space add up to the data area.
use database_management_syst.Common.{
  ℕ, suc, ◌+◌, ◌-◌, ◌*◌, ◌≤◌, ◌<◌, ◌≡◌, ◌≢◌, refl, ◌∙◌, ◌⊎◌, inl, inr, none, some, List, arith, ltb,
  ◌==◌, if◌then◌else◌, Bool-cases, Option-cases, length, take, length-set, length-take, ℤ, pos,
  negsuc,
}
use database_management_syst.Status.{ok}
use database_management_syst.Page.{
  Page, Rid, Slot, hole, used, data_size, slot_size, init, find_hole, shift_slots, release_slots,
  extent, valid_slot, add_record, insert_record, remove_slot, delete_at, delete_record,
}
use database_management_syst.Page.Slots.{
  total, find_hole-le, extent-find_hole, extent-put_slot, length-put_slot, total-put_slot,
  extent-set_hole, total-set_hole, extent-ge, shift_extent, extent-shift_slots, length-shift_slots,
  total-shift_slots, release_slots-le, is_hole_at-release_slots, extent-is_hole_at, extent-take,
  total-take,
}

-- Two extents do not overlap.
abbrev pub Apart : ℕ × ℕ → ℕ × ℕ → Type 0
Apart (o, l) (o', l') = (o + l ≤ o') ⊎ (o' + l' ≤ o)

pub record IsValid (p : Page) : Type 0 where
  pub space : p.free_ptr + slot_size * length p.slots + p.free_space ≡ data_size
  pub packed : total p.slots ≡ p.free_ptr
  pub inside : (i o l : ℕ) → extent p.slots i ≡ some (o, l) → o + l ≤ p.free_ptr
  pub apart :
      (i j o l o' l' : ℕ)
      → i ≢ j
      → extent p.slots i ≡ some (o, l)
      → extent p.slots j ≡ some (o', l')
      → Apart (o, l) (o', l')

-- An initialised page is well formed, whatever was in the frame before.
pub init-IsValid : (page_no : ℤ) (p : Page) → IsValid (init page_no p)
unfolding init extent total
init-IsValid page_no p = record {
  space = refl;
  packed = refl;
  inside = λ i o l e. ground arith;
  apart = λ i j o l o' l' ne e e'. ground arith;
}

module _ (rec : List ℕ) (p : Page) (v : IsValid p) (room : length rec + 4 ≤ p.free_space) where
  pub extent-add_record :
      (j : ℕ)
      → extent (add_record rec p).slots j
        ≡ (if j == find_hole p.slots then some (p.free_ptr, length rec) else extent p.slots j)
  unfolding add_record
  extent-add_record j =
      extent-put_slot p.slots (find_hole p.slots) p.free_ptr (length rec) j (find_hole-le p.slots)

  free_ptr-add_record : (add_record rec p).free_ptr ≡ p.free_ptr + length rec
  unfolding add_record
  free_ptr-add_record = refl

  space-add_record :
      let q = add_record rec p in q.free_ptr + slot_size * length q.slots + q.free_space ≡ data_size
  unfolding add_record
  space-add_record =
      ground
        (arith, v.space, length-put_slot p.slots (find_hole p.slots) (used p.free_ptr (length rec)))

  packed-add_record : total (add_record rec p).slots ≡ (add_record rec p).free_ptr
  unfolding add_record
  packed-add_record = omega (
    arith,
    v.packed,
    total-put_slot p.slots (find_hole p.slots) p.free_ptr (length rec) (find_hole-le p.slots)
        (extent-find_hole p.slots),
  )

  add_record-IsValid : IsValid (add_record rec p)
  add_record-IsValid = record {
    space = space-add_record;
    packed = packed-add_record;
    inside = λ i o l e. ground (arith, extent-add_record i, free_ptr-add_record, v.inside i o l);
    apart = λ i j o l o' l' ne e e'. ground (
      arith,
      extent-add_record i,
      extent-add_record j,
      v.apart i j o l o' l',
      v.inside i o l,
      v.inside j o' l',
    );
  }

-- What a successful insertion returns.
pub insert_record-ok :
    (rec : List ℕ) (p q : Page) (rid : Rid)
    → insert_record rec p ≡ ok (rid, q)
    → (length rec + 4 ≤ p.free_space)
      × (rid.page_no ≡ p.cur_page)
      × (rid.slot_no ≡ pos (find_hole p.slots))
      × (q ≡ add_record rec p)
unfolding insert_record
insert_record-ok rec p q rid h = ground arith

-- Every successful insertion keeps a page well formed.
pub insert_record-IsValid :
    (rec : List ℕ) (p q : Page) (rid : Rid)
    → IsValid p
    → insert_record rec p ≡ ok (rid, q)
    → IsValid q
insert_record-IsValid rec p q rid v h =
    let (room, _, _, e) = insert_record-ok rec p q rid h in rw e (add_record-IsValid rec p v room)

module _ (i o l : ℕ) (p : Page) (v : IsValid p) (e : extent p.slots i ≡ some (o, l))
    (some_byte : 0 < l) where
  abbrev shifted : List Slot
  shifted = shift_slots o l p.slots

  shifted-at : extent shifted i ≡ some (o, l)
  shifted-at = ground (arith, extent-shift_slots o l p.slots i)

  abbrev left : ℕ
  left = release_slots (length p.slots) shifted

  left-le : length p.slots ≡ suc i → left ≤ i
  left-le len = rw len (release_slots-le i shifted)

  -- With the last slot go only holes.
  cut_holes : (j : ℕ) → length p.slots ≡ suc i → left ≤ j → j < i → extent shifted j ≡ none
  cut_holes j len h lt =
      extent-is_hole_at shifted j (is_hole_at-release_slots i shifted j (rw len at h) lt)

  extent-cut :
      (j : ℕ)
      → length p.slots ≡ suc i
      → extent (take left shifted) j
        ≡ (if j == i then none else shift_extent o l (extent p.slots j))
  extent-cut j len = ground (
    arith,
    left-le len,
    extent-take left shifted j,
    extent-shift_slots o l p.slots j,
    cut_holes j len,
    extent-ge p.slots j,
  )

  pub extent-remove_slot :
      (j : ℕ)
      → extent (remove_slot i o l p).slots j
        ≡ (if j == i then none else shift_extent o l (extent p.slots j))
  unfolding remove_slot
  extent-remove_slot j = elim (Bool-cases (i + 1 == length p.slots)) [
    | inl last ↦ rw last (extent-cut j (ground arith))
    | inr mid ↦
        rw mid (ground (arith, extent-set_hole shifted i j, extent-shift_slots o l p.slots j))
  ]

  space-remove_slot :
      let q = remove_slot i o l p in
      q.free_ptr + slot_size * length q.slots + q.free_space ≡ data_size
  unfolding remove_slot
  space-remove_slot = elim (Bool-cases (i + 1 == length p.slots)) [
    | inl last ↦
        let len : length p.slots ≡ suc i = ground arith in
        let fits : left ≤ length shifted =
          omega (arith, left-le len, length-shift_slots o l p.slots) in
        rw last
          (omega (arith, v.space, v.inside i o l e, left-le len, length-take left shifted fits))
    | inr mid ↦ rw mid (
        omega (
          arith,
          v.space,
          v.inside i o l e,
          length-set shifted i hole,
          length-shift_slots o l p.slots,
        ))
  ]

  packed-remove_slot : total (remove_slot i o l p).slots ≡ (remove_slot i o l p).free_ptr
  unfolding remove_slot
  packed-remove_slot = elim (Bool-cases (i + 1 == length p.slots)) [
    | inl last ↦
        let len : length p.slots ≡ suc i = ground arith in
        let cut =
          total-take left shifted i o l (length-shift_slots o l p.slots ∙ len) shifted-at
            (left-le len) (λ j a b. cut_holes j len a b) in
        rw last (omega (arith, cut, v.packed, total-shift_slots o l p.slots))
    | inr mid ↦ rw mid (
        omega (arith, total-set_hole shifted i shifted-at, v.packed, total-shift_slots o l p.slots))
  ]

  -- Where a slot that is left has its record, before and after.
  pub kept :
      (j o' l' : ℕ)
      → extent (remove_slot i o l p).slots j ≡ some (o', l')
      → (q : ℕ) × (i ≢ j)
        × (extent p.slots j ≡ some (q, l'))
        × (o' ≡ (if ltb o q then q - l else q))
  kept j o' l' e' = elim (Option-cases (extent p.slots j)) [
    | inl no_slot ↦ absurd (ground (arith, extent-remove_slot j))
    | inr ((q, n), at) ↦ (
      q,
      ground (arith, extent-remove_slot j),
      ground (arith, extent-remove_slot j),
      ground (arith, extent-remove_slot j),
    )
  ]

  remove_slot-IsValid : IsValid (remove_slot i o l p)
  unfolding remove_slot
  remove_slot-IsValid = record {
    space = space-remove_slot;
    packed = packed-remove_slot;
    inside = λ j o' l' e'.
        let (q, ne, at, eq) = kept j o' l' e' in
        ground (arith, v.inside i o l e, v.inside j q l' at, v.apart i j o l q l' ne e at);
    apart = λ j k o' l' o'' l'' ne e' e''.
        let (q, nj, at, eq) = kept j o' l' e' in
        let (r, nk, at', eq') = kept k o'' l'' e'' in
        ground (
          arith,
          v.apart i j o l q l' nj e at,
          v.apart i k o l r l'' nk e at',
          v.apart j k q l' r l'' ne at at',
        );
  }

abbrev pub Deletes : ℤ → Page → Page → Type 0
Deletes s p q =
    (i o l : ℕ) × (s ≡ pos i)
    × (extent p.slots i ≡ some (o, l))
    × (0 < l)
    × (q ≡ remove_slot i o l p)

delete_at-ok : (s : ℤ) (p q : Page) → delete_at s p ≡ ok q → Deletes s p q
unfolding valid_slot
delete_at-ok (negsuc i) p q h = absurd (ground arith)
delete_at-ok (pos i) p q h = elim (Option-cases (extent p.slots i)) [
  | inl no_slot ↦ absurd (ground arith)
  | inr ((o, l), at) ↦ (i, o, l, refl, at, ground arith, ground arith)
]

-- What a successful deletion found and returns.
pub delete_record-ok :
    (rid : Rid) (p q : Page) → delete_record rid p ≡ ok q → Deletes rid.slot_no p q
unfolding delete_record
delete_record-ok rid p q h = delete_at-ok rid.slot_no p q h

-- Every successful deletion keeps a page well formed.
pub delete_record-IsValid :
    (rid : Rid) (p q : Page) → IsValid p → delete_record rid p ≡ ok q → IsValid q
delete_record-IsValid rid p q v h =
    let (i, o, l, _, at, some_byte, e) = delete_record-ok rid p q h in
    rw e (remove_slot-IsValid i o l p v at some_byte)
