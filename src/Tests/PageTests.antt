-- ===== src/Tests/PageTests.antt =====
-- A page with three records, of which the middle one is deleted.
use database_management_syst.Common.{ℕ, ◌≡◌, refl, [], ◌∷◌, some, none, if◌then◌else◌, ◌==◌, pos}
use database_management_syst.Status.{Res, ok, err, undefined, no_records, end_of_page}
use database_management_syst.Page.{
  Page, Rid, null_rid, init, insert_record, delete_record, get_record, first_record, next_record,
  extent, find_hole, put_slot, add_record, remove_slot, shift_slots, release_slots, is_hole_at,
  valid_slot,
}
use database_management_syst.Page.Memory.{read_bytes}
use database_management_syst.Page.Valid.{
  IsValid, init-IsValid, insert_record-IsValid, delete_record-IsValid,
}
use database_management_syst.Page.Contents.{
  record_at, insert_record-record_at, delete_record-record_at, get_record-record_at,
}
use database_management_syst.Page.Order.{Visits, scan-Visits}
use database_management_syst.Tests.Ram.{no_page}

abbrev rid : ℕ → Rid
rid i = record { page_no = pos 7; slot_no = pos i }

abbrev fresh : Page
fresh = init (pos 7) no_page

abbrev done : Res (Rid × Page) → Page
done (ok (_, p)) = p
done (err e) = no_page
done undefined = no_page

abbrev one : Page
one = done (insert_record (1 ∷ 2 ∷ []) fresh)

abbrev two : Page
two = done (insert_record (3 ∷ []) one)

abbrev three : Page
three = done (insert_record (4 ∷ 5 ∷ 6 ∷ []) two)

abbrev left : Res Page → Page
left (ok p) = p
left (err e) = no_page
left undefined = no_page

abbrev hole_in : Page
hole_in = left (delete_record (rid 0) three)

program : Unit {0}
unfolding init insert_record delete_record get_record first_record next_record extent find_hole
    put_slot add_record remove_slot shift_slots release_slots is_hole_at valid_slot read_bytes
program = tt

three-bytes : get_record (rid 2) hole_in ≡ ok (4 ∷ 5 ∷ 6 ∷ [])
unfolding program
three-bytes = refl

fresh-IsValid : IsValid fresh
fresh-IsValid = init-IsValid (pos 7) no_page

one-ok : insert_record (1 ∷ 2 ∷ []) fresh ≡ ok (rid 0, one)
unfolding program
one-ok = refl

insert_record-IsValid_example : IsValid one
insert_record-IsValid_example =
    insert_record-IsValid (1 ∷ 2 ∷ []) fresh one (rid 0) fresh-IsValid one-ok

one-IsValid : IsValid one
one-IsValid = insert_record-IsValid (1 ∷ 2 ∷ []) fresh one (rid 0) fresh-IsValid one-ok

two-ok : insert_record (3 ∷ []) one ≡ ok (rid 1, two)
unfolding program
two-ok = refl

two-IsValid : IsValid two
two-IsValid = insert_record-IsValid (3 ∷ []) one two (rid 1) one-IsValid two-ok

three-ok : insert_record (4 ∷ 5 ∷ 6 ∷ []) two ≡ ok (rid 2, three)
unfolding program
three-ok = refl

three-IsValid : IsValid three
three-IsValid = insert_record-IsValid (4 ∷ 5 ∷ 6 ∷ []) two three (rid 2) two-IsValid three-ok

hole_in-ok : delete_record (rid 0) three ≡ ok hole_in
unfolding program
hole_in-ok = refl

delete_record-IsValid_example : IsValid hole_in
delete_record-IsValid_example = delete_record-IsValid (rid 0) three hole_in three-IsValid hole_in-ok

insert_record-record_at_example :
    (i : ℕ) × (rid 2 ≡ record { page_no = two.cur_page; slot_no = pos i })
    × (record_at two i ≡ none)
    × ((j : ℕ) → record_at three j ≡ (if j == i then some (4 ∷ 5 ∷ 6 ∷ []) else record_at two j))
insert_record-record_at_example =
    insert_record-record_at (4 ∷ 5 ∷ 6 ∷ []) two three (rid 2) two-IsValid three-ok

delete_record-record_at_example :
    (i : ℕ) × (pos 0 ≡ pos i)
    × ((j : ℕ) → record_at hole_in j ≡ (if j == i then none else record_at three j))
delete_record-record_at_example =
    delete_record-record_at (rid 0) three hole_in three-IsValid hole_in-ok

get_record-record_at_example : get_record (rid 2) hole_in ≡ ok (4 ∷ 5 ∷ 6 ∷ [])
unfolding program record_at
get_record-record_at_example = get_record-record_at hole_in (pos 7) 2

scan-Visits_example :
    Visits hole_in 0 no_records (first_record hole_in)
    × Visits hole_in 2 end_of_page (next_record (rid 1) hole_in)
    × Visits hole_in 0 end_of_page (next_record null_rid hole_in)
scan-Visits_example = scan-Visits hole_in (pos 7) 1
