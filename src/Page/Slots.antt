-- ===== src/Page/Slots.antt =====
-- The slot array of a page: what each loop and each write does to the entries.
use database_management_syst.Common.{
  ℕ, zero, suc, ◌+◌, ◌-◌, ◌≤◌, ◌<◌, ◌≡◌, refl, true, Option, none, some, List, [], ◌∷◌, ◌++◌, arith,
  ltb, ◌==◌, if◌then◌else◌, length, set, take, length-append, length-set,
}
use database_management_syst.Page.{
  Slot, hole, used, find_hole, put_slot, shift_slots, is_hole_at, release_slots, extent,
}

-- The bytes that the slots hold.
unfoldable pub total : List Slot → ℕ
total [] = 0
total (hole ∷ s) = total s
total (used o l ∷ s) = l + total s

pub find_hole-le : (s : List Slot) → find_hole s ≤ length s
unfolding find_hole
find_hole-le [] = omega arith
find_hole-le (hole ∷ s) = omega arith
find_hole-le (used o l ∷ s) = omega (arith, find_hole-le s)

-- The search ends at a position that holds no record.
pub extent-find_hole : (s : List Slot) → extent s (find_hole s) ≡ none
unfolding find_hole extent
extent-find_hole [] = refl
extent-find_hole (hole ∷ s) = refl
extent-find_hole (used o l ∷ s) = extent-find_hole s

extent-append_last :
    (s : List Slot) (o l j : ℕ)
    → extent (s ++ used o l ∷ []) j ≡ (if j == length s then some (o, l) else extent s j)
unfolding extent
extent-append_last [] o l zero = refl
extent-append_last [] o l (suc j) = ground arith
extent-append_last (hole ∷ s) o l zero = ground arith
extent-append_last (used o' l' ∷ s) o l zero = ground arith
extent-append_last (hole ∷ s) o l (suc j) = ground (arith, extent-append_last s o l j)
extent-append_last (used o' l' ∷ s) o l (suc j) = ground (arith, extent-append_last s o l j)

extent-set_used :
    (s : List Slot) (i o l j : ℕ)
    → i < length s
    → extent (set s i (used o l)) j ≡ (if j == i then some (o, l) else extent s j)
unfolding extent
extent-set_used [] i o l j h = absurd (omega arith)
extent-set_used (x ∷ s) zero o l zero h = ground arith
extent-set_used (hole ∷ s) zero o l (suc j) h = ground arith
extent-set_used (used o' l' ∷ s) zero o l (suc j) h = ground arith
extent-set_used (hole ∷ s) (suc i) o l zero h = ground arith
extent-set_used (used o' l' ∷ s) (suc i) o l zero h = ground arith
extent-set_used (hole ∷ s) (suc i) o l (suc j) h = ground (arith, extent-set_used s i o l j)
extent-set_used (used o' l' ∷ s) (suc i) o l (suc j) h = ground (arith, extent-set_used s i o l j)

pub extent-set_hole :
    (s : List Slot) (i j : ℕ) → extent (set s i hole) j ≡ (if j == i then none else extent s j)
unfolding extent
extent-set_hole [] i j = ground arith
extent-set_hole (x ∷ s) zero zero = ground arith
extent-set_hole (hole ∷ s) zero (suc j) = ground arith
extent-set_hole (used o l ∷ s) zero (suc j) = ground arith
extent-set_hole (hole ∷ s) (suc i) zero = ground arith
extent-set_hole (used o l ∷ s) (suc i) zero = ground arith
extent-set_hole (hole ∷ s) (suc i) (suc j) = ground (arith, extent-set_hole s i j)
extent-set_hole (used o l ∷ s) (suc i) (suc j) = ground (arith, extent-set_hole s i j)

-- A write to a slot of the array, or to the one behind its end, changes that slot alone.
pub extent-put_slot :
    (s : List Slot) (i o l j : ℕ)
    → i ≤ length s
    → extent (put_slot s i (used o l)) j ≡ (if j == i then some (o, l) else extent s j)
unfolding put_slot
extent-put_slot s i o l j h = ground (arith, extent-append_last s o l j, extent-set_used s i o l j)

pub length-put_slot :
    (s : List Slot) (i : ℕ) (x : Slot)
    → length (put_slot s i x) ≡ (if i == length s then length s + 1 else length s)
unfolding put_slot
length-put_slot s i x = ground (arith, length-append s (x ∷ []), length-set s i x)

total-append_last : (s : List Slot) (o l : ℕ) → total (s ++ used o l ∷ []) ≡ total s + l
unfolding total
total-append_last [] o l = omega arith
total-append_last (hole ∷ s) o l = total-append_last s o l
total-append_last (used o' l' ∷ s) o l = omega (arith, total-append_last s o l)

total-set_used :
    (s : List Slot) (i o l : ℕ)
    → extent s i ≡ none
    → i < length s
    → total (set s i (used o l)) ≡ total s + l
unfolding total extent
total-set_used [] i o l e h = absurd (omega arith)
total-set_used (hole ∷ s) zero o l e h = omega arith
total-set_used (used o' l' ∷ s) zero o l e h = absurd (ground arith)
total-set_used (hole ∷ s) (suc i) o l e h = omega (arith, total-set_used s i o l e (omega arith))
total-set_used (used o' l' ∷ s) (suc i) o l e h =
    omega (arith, total-set_used s i o l e (omega arith))

pub total-put_slot :
    (s : List Slot) (i o l : ℕ)
    → i ≤ length s
    → extent s i ≡ none
    → total (put_slot s i (used o l)) ≡ total s + l
unfolding put_slot
total-put_slot s i o l h e = ground (arith, total-append_last s o l, total-set_used s i o l e)

pub total-set_hole :
    (s : List Slot) (i : ℕ) {o l : ℕ}
    → extent s i ≡ some (o, l)
    → total (set s i hole) + l ≡ total s
unfolding total extent
total-set_hole [] i e = absurd (ground arith)
total-set_hole (hole ∷ s) zero e = absurd (ground arith)
total-set_hole (used o l ∷ s) zero e = ground arith
total-set_hole (hole ∷ s) (suc i) e = total-set_hole s i e
total-set_hole (used o l ∷ s) (suc i) e = omega (arith, total-set_hole s i e)

pub extent-lt : (s : List Slot) (i : ℕ) {e : ℕ × ℕ} → extent s i ≡ some e → i < length s
unfolding extent
extent-lt [] i h = absurd (ground arith)
extent-lt (x ∷ s) zero h = omega arith
extent-lt (hole ∷ s) (suc i) h = omega (arith, extent-lt s i h)
extent-lt (used o l ∷ s) (suc i) h = omega (arith, extent-lt s i h)

pub extent-ge : (s : List Slot) (i : ℕ) → length s ≤ i → extent s i ≡ none
unfolding extent
extent-ge [] i h = refl
extent-ge (x ∷ s) zero h = absurd (omega arith)
extent-ge (hole ∷ s) (suc i) h = extent-ge s i (omega arith)
extent-ge (used o l ∷ s) (suc i) h = extent-ge s i (omega arith)

-- How the loop over the offsets moves an extent.
abbrev pub shift_extent : ℕ → ℕ → Option (ℕ × ℕ) → Option (ℕ × ℕ)
shift_extent off rec_len none = none
shift_extent off rec_len (some (o, l)) = some (if ltb off o then o - rec_len else o, l)

pub extent-shift_slots :
    (off r : ℕ) (s : List Slot) (j : ℕ)
    → extent (shift_slots off r s) j ≡ shift_extent off r (extent s j)
unfolding extent shift_slots
extent-shift_slots off r [] j = refl
extent-shift_slots off r (hole ∷ s) zero = refl
extent-shift_slots off r (used o l ∷ s) zero = refl
extent-shift_slots off r (hole ∷ s) (suc j) = extent-shift_slots off r s j
extent-shift_slots off r (used o l ∷ s) (suc j) = extent-shift_slots off r s j

pub length-shift_slots : (off r : ℕ) (s : List Slot) → length (shift_slots off r s) ≡ length s
unfolding shift_slots
length-shift_slots off r [] = refl
length-shift_slots off r (x ∷ s) = omega (arith, length-shift_slots off r s)

pub total-shift_slots : (off r : ℕ) (s : List Slot) → total (shift_slots off r s) ≡ total s
unfolding shift_slots total
total-shift_slots off r [] = refl
total-shift_slots off r (hole ∷ s) = total-shift_slots off r s
total-shift_slots off r (used o l ∷ s) = omega (arith, total-shift_slots off r s)

pub release_slots-le : (k : ℕ) (s : List Slot) → release_slots (suc k) s ≤ k
unfolding release_slots
release_slots-le zero s = ground arith
release_slots-le (suc k) s = ground (arith, release_slots-le k s)

-- What the do-while loop frees besides the last slot are holes.
pub is_hole_at-release_slots :
    (k : ℕ) (s : List Slot) (j : ℕ) → release_slots (suc k) s ≤ j → j < k → is_hole_at s j ≡ true
unfolding release_slots
is_hole_at-release_slots zero s j h lt = absurd (omega arith)
is_hole_at-release_slots (suc k) s j h lt = ground (arith, is_hole_at-release_slots k s j)

pub extent-is_hole_at : (s : List Slot) (j : ℕ) → is_hole_at s j ≡ true → extent s j ≡ none
unfolding is_hole_at extent
extent-is_hole_at [] j h = refl
extent-is_hole_at (hole ∷ s) zero h = refl
extent-is_hole_at (used o l ∷ s) zero h = absurd (ground arith)
extent-is_hole_at (hole ∷ s) (suc j) h = extent-is_hole_at s j h
extent-is_hole_at (used o l ∷ s) (suc j) h = extent-is_hole_at s j h

pub extent-take :
    (k : ℕ) (s : List Slot) (j : ℕ) → extent (take k s) j ≡ (if ltb j k then extent s j else none)
unfolding extent
extent-take zero s j = ground arith
extent-take (suc k) [] j = ground arith
extent-take (suc k) (hole ∷ s) zero = ground arith
extent-take (suc k) (used o l ∷ s) zero = ground arith
extent-take (suc k) (hole ∷ s) (suc j) = ground (arith, extent-take k s j)
extent-take (suc k) (used o l ∷ s) (suc j) = ground (arith, extent-take k s j)

-- Cutting off a last slot and holes before it loses the bytes of the last slot.
pub total-take :
    (k : ℕ) (s : List Slot) (m o l : ℕ)
    → length s ≡ suc m
    → extent s m ≡ some (o, l)
    → k ≤ m
    → ((j : ℕ) → k ≤ j → j < m → extent s j ≡ none)
    → total (take k s) + l ≡ total s
unfolding total extent
total-take k [] m o l len e le h = absurd (omega arith)
total-take (suc k) (x ∷ s) zero o l len e le h = absurd (omega arith)
total-take (suc k) (hole ∷ s) (suc m) o l len e le h =
    total-take k s m o l (omega arith) e (omega arith)
      (λ j a b. h (suc j) (omega arith) (omega arith))
total-take (suc k) (used o' l' ∷ s) (suc m) o l len e le h =
    let rest =
      total-take k s m o l (omega arith) e (omega arith)
        (λ j a b. h (suc j) (omega arith) (omega arith)) in
    omega arith
total-take zero (hole ∷ s) zero o l len e le h = absurd (ground arith)
total-take zero (used o' l' ∷ []) zero o l len e le h = ground arith
total-take zero (used o' l' ∷ x ∷ s) zero o l len e le h = absurd (omega arith)
total-take zero (hole ∷ s) (suc m) o l len e le h =
    total-take zero s m o l (omega arith) e (omega arith)
      (λ j a b. h (suc j) (omega arith) (omega arith))
total-take zero (used o' l' ∷ s) (suc m) o l len e le h =
    absurd (ground (arith, h 0 (omega arith) (omega arith)))
