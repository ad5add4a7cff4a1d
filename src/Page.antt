-- ===== src/Page.antt =====
-- page.h and page.cpp: the slotted page.
--
-- The source counts slots downwards from 0, so that slot[0], slot[-1], ... grow into the end of
-- the data area. Here slot[-i] is entry i of the list `slots`, and slotCnt is minus its length.
-- A slot whose length is -1 is a `hole`. The data area is a function of the offset; whether every
-- access stays inside its 1004 bytes is the subject of Page.Valid.
pub mod Memory
pub mod Slots
pub mod Valid
pub mod Contents
pub mod Order
use Memory.{read_bytes, memcpy, bcopy}
use database_management_syst.Common.{
  ℕ, zero, suc, ◌+◌, ◌-◌, ◌*◌, ◌≡◌, refl, Bool, true, false, ◌&&◌, Option, none, some, List, [],
  ◌∷◌, ◌++◌, arith, ltb, leb, ◌==◌, if◌then◌else◌, length, get_elem?, set, take, ℤ, pos, negsuc,
  minus_one,
}
use database_management_syst.Status.{
  Res, ok, err, undefined, no_space, no_records, end_of_page, invalid_slot_no,
}

pub record Rid : Type 0 where
  pub page_no : ℤ
  pub slot_no : ℤ

abbrev pub null_rid : Rid
null_rid = record { page_no = minus_one; slot_no = minus_one }

pub data Slot : Type 0 where
  hole : Slot
  used : ℕ → ℕ → Slot

-- sizeof(slot_t)
abbrev pub slot_size : ℕ
slot_size = 4

-- sizeof(slot_t) + 4 * sizeof(short) + 2 * sizeof(int)
abbrev pub dpfixed : ℕ
dpfixed = 20

abbrev pub page_size : ℕ
page_size = 1024

-- PAGESIZE - DPFIXED
abbrev pub data_size : ℕ
data_size = page_size - dpfixed

pub record Page : Type 0 where
  pub bytes : ℕ → ℕ
  pub slots : List Slot
  pub free_ptr : ℕ
  pub free_space : ℕ
  pub next_page : ℤ
  pub cur_page : ℤ

-- `init` leaves the data area as it is.
unfoldable pub init : ℤ → Page → Page
init page_no p = record p {
  next_page = minus_one;
  slots = [];
  cur_page = page_no;
  free_ptr = 0;
  free_space = data_size;
}

unfoldable pub set_next_page : ℤ → Page → Page
set_next_page page_no p = record p { next_page = page_no }

unfoldable pub get_next_page : Page → ℤ
get_next_page p = p.next_page

unfoldable pub get_free_space : Page → ℕ
get_free_space p = p.free_space

-- The loop that looks for an empty slot; the number of slots if there is none.
unfoldable pub find_hole : List Slot → ℕ
find_hole [] = 0
find_hole (hole ∷ s) = 0
find_hole (used o l ∷ s) = suc (find_hole s)

-- The write to slot[-i], which is the new last slot where i is the number of slots.
unfoldable pub put_slot : List Slot → ℕ → Slot → List Slot
put_slot slots i s = if i == length slots then slots ++ s ∷ [] else set slots i s

-- The insertion itself, once the space is known to suffice.
unfoldable pub add_record : List ℕ → Page → Page
unfolding find_hole put_slot
add_record rec p =
    let i = find_hole p.slots in
    record p {
      bytes = memcpy p.bytes p.free_ptr rec;
      slots = put_slot p.slots i (used p.free_ptr (length rec));
      free_ptr = p.free_ptr + length rec;
      free_space =
          p.free_space - (if i == length p.slots then length rec + slot_size else length rec);
    }

unfoldable pub insert_record : List ℕ → Page → Res (Rid × Page)
unfolding add_record
insert_record rec p =
    let space_needed = length rec + slot_size in
    if ltb p.free_space space_needed
    then err no_space
    else ok (record { page_no = p.cur_page; slot_no = pos (find_hole p.slots) }, add_record rec p)

abbrev pub shift_slot : ℕ → ℕ → Slot → Slot
shift_slot off rec_len hole = hole
shift_slot off rec_len (used o l) = used (if ltb off o then o - rec_len else o) l

-- The loop that adjusts the offsets of the valid slots behind the deleted record.
unfoldable pub shift_slots : ℕ → ℕ → List Slot → List Slot
shift_slots off rec_len [] = []
shift_slots off rec_len (s ∷ slots) = shift_slot off rec_len s ∷ shift_slots off rec_len slots

unfoldable pub is_hole_at : List Slot → ℕ → Bool
is_hole_at [] i = false
is_hole_at (hole ∷ s) zero = true
is_hole_at (used o l ∷ s) zero = false
is_hole_at (s ∷ slots) (suc i) = is_hole_at slots i

-- The do-while loop that frees the last slot and the holes before it: the number of slots left.
unfoldable pub release_slots : ℕ → List Slot → ℕ
release_slots zero slots = zero
release_slots (suc k) slots =
    let rest = release_slots k slots in if ltb 0 k && is_hole_at slots (k - 1) then rest else k

-- The deletion of the record of slot i, which is at `offset` and has `rec_len` bytes.
unfoldable pub remove_slot : ℕ → ℕ → ℕ → Page → Page
unfolding shift_slots release_slots
remove_slot i offset rec_len p =
    let next_offset = offset + rec_len in
    let n = length p.slots in
    let shifted = shift_slots offset rec_len p.slots in
    let k = release_slots n shifted in
    let last = i + 1 == n in
    record p {
      bytes = bcopy p.bytes next_offset offset (p.free_ptr - next_offset);
      slots = if last then take k shifted else set shifted i hole;
      free_ptr = p.free_ptr - rec_len;
      free_space = p.free_space + rec_len + (if last then slot_size * (n - k) else 0);
    }

-- The offset and length in slot i, if it is in the array and no hole.
unfoldable pub extent : List Slot → ℕ → Option (ℕ × ℕ)
extent [] i = none
extent (hole ∷ slots) zero = none
extent (used o l ∷ slots) zero = some (o, l)
extent (s ∷ slots) (suc i) = extent slots i

-- The test on the slot of a valid record: it is in the array and has a positive length.
unfoldable pub valid_slot : List Slot → ℕ → Option (ℕ × ℕ)
unfolding extent
valid_slot slots i = elim (extent slots i) [
  | none ↦ none
  | some (o, l) ↦ if ltb 0 l then some (o, l) else none
]

-- A negative slot number makes a positive index, outside the array.
abbrev pub delete_at : ℤ → Page → Res Page
delete_at (negsuc i) p = undefined
delete_at (pos i) p = elim (valid_slot p.slots i) [
  | none ↦ err invalid_slot_no
  | some (o, l) ↦ ok (remove_slot i o l p)
]

unfoldable pub delete_record : Rid → Page → Res Page
delete_record rid p = delete_at rid.slot_no p

abbrev pub later : Option ℕ → Option ℕ
later none = none
later (some i) = some (suc i)

-- The first slot from position k on that is no hole.
unfoldable pub find_used : List Slot → ℕ → Option ℕ
find_used [] k = none
find_used (s ∷ slots) (suc k) = later (find_used slots k)
find_used (used o l ∷ slots) zero = some 0
find_used (hole ∷ slots) zero = later (find_used slots zero)

unfoldable pub rid_or : Page → Option ℕ → Res Rid → Res Rid
rid_or p none e = e
rid_or p (some i) e = ok (record { page_no = p.cur_page; slot_no = pos i })

unfoldable pub first_record : Page → Res Rid
unfolding find_used rid_or
first_record p = rid_or p (find_used p.slots 0) (err no_records)

-- The scan goes on behind the current slot; slot number -1 starts it at slot 0.
abbrev pub next_after : ℤ → Page → Res Rid
next_after (pos i) p = rid_or p (find_used p.slots (i + 1)) (err end_of_page)
next_after (negsuc zero) p = rid_or p (find_used p.slots 0) (err end_of_page)
next_after (negsuc (suc i)) p = undefined

unfoldable pub next_record : Rid → Page → Res Rid
unfolding find_used rid_or
next_record cur_rid p = next_after cur_rid.slot_no p

abbrev pub get_at : ℤ → Page → Res (List ℕ)
get_at (negsuc i) p = undefined
get_at (pos i) p = elim (valid_slot p.slots i) [
  | none ↦ err invalid_slot_no
  | some (o, l) ↦ ok (read_bytes p.bytes o l)
]

-- The record's bytes at the time of the call; the source returns a pointer to them.
unfoldable pub get_record : Rid → Page → Res (List ℕ)
get_record rid p = get_at rid.slot_no p
