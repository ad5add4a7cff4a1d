-- ===== src/Buffer/Sound.antt =====
-- The hash table of the buffer pool never lies: an entry names a frame that holds the page.
use database_management_syst.Common.{
  ℕ, zero, suc, ◌<◌, ◌≡◌, ◌≢◌, refl, sym, ap, ◌∙◌, ◌⊎◌, inl, inr, true, false, Option, none, some,
  arith, if◌then◌else◌, Bool-cases, ℤ, page_key, page_key_eq, page_key_eq_iff,
}
use mathlib.Core.Bool.{false≢true}
use database_management_syst.Platform.{Platform}
use database_management_syst.System.{Sys}
use database_management_syst.BufHash
use database_management_syst.BufHash.{FrameTable}
use database_management_syst.HashTable.Laws.{IsUnique, view, remove-Removes}
use database_management_syst.Buffer.{
  Visit, unused, evicted, passed, Sweep, removed, drop_entry, visit_frame, advance_clock, sweep,
}
use database_management_syst.Buffer.Clock.{
  Visit-cases, resume_cases, visit_frame-Kept, visit_frame-hand,
}

module _ {P : Platform} where
  -- The frame of a page, by the hash table. A page whose index is outside the array has none.
  abbrev pub frame_of : Sys P → ℕ × ℤ → Option ℕ
  frame_of s k =
      if BufHash.in_array s.ht_size k then view (BufHash.hash s.ht_size) s.frame_table k else none

  -- Frame i is in the pool and holds the page k.
  abbrev pub HoldsPage : Sys P → ℕ × ℤ → ℕ → Type 0
  HoldsPage s k i =
      (i < s.num_bufs)
      × ((s.desc i).valid ≡ true)
      × ((s.desc i).file ≡ k.0)
      × ((s.desc i).page_no ≡ k.1)

  abbrev pub IsSound : Sys P → Type 0
  IsSound s =
      IsUnique (BufHash.hash s.ht_size) s.frame_table
      × ((k : ℕ × ℤ) (i : ℕ) → frame_of s k ≡ some i → HoldsPage s k i)

  -- No entry names the frame.
  abbrev pub IsUnlisted : Sys P → ℕ → Type 0
  IsUnlisted s i = (k : ℕ × ℤ) → frame_of s k ≢ some i

  -- The effect of `remove` on the table, whether the page was there or not.
  pub drop_entry-frame_of :
      (k : ℕ × ℤ) (s : Sys P)
      → IsUnique (BufHash.hash s.ht_size) s.frame_table
      → let t = drop_entry k s in
        IsUnique (BufHash.hash t.ht_size) t.frame_table
        × ((q : ℕ × ℤ) → frame_of t q ≡ (if page_key_eq q k then none else frame_of s q))
  unfolding drop_entry BufHash.remove
  drop_entry-frame_of k s u = elim (Bool-cases (BufHash.in_array s.ht_size k)) [
    | inl lies ↦ elim (remove-Removes (BufHash.hash s.ht_size) k s.frame_table u) [
      | inl (there, (t, e, u', v)) ↦ rw (lies, e, removed) (u', λ q. ground (arith, v q))
      | inr (absent, e) ↦
          rw (lies, e, removed) (u, λ q. ground (arith, page_key_eq_iff q k, absent))
    ]
    | inr out ↦ rw (out, removed) (u, λ q. ground (arith, page_key_eq_iff q k, out))
  ]

  -- The frame holds what it held.
  abbrev pub FrameSame : Sys P → Sys P → ℕ → Type 0
  FrameSame s t i =
      ((t.desc i).valid ≡ (s.desc i).valid)
      × ((t.desc i).file ≡ (s.desc i).file)
      × ((t.desc i).page_no ≡ (s.desc i).page_no)

  -- A change that adds no entry, and leaves the frames of those that are left.
  pub IsSound-less :
      (s t : Sys P)
      → IsSound s
      → t.num_bufs ≡ s.num_bufs
      → IsUnique (BufHash.hash t.ht_size) t.frame_table
      → ((k : ℕ × ℤ) (i : ℕ) → frame_of t k ≡ some i → (frame_of s k ≡ some i) × FrameSame s t i)
      → IsSound t
  IsSound-less s t sound n u less = (
    u,
    λ k i e.
        let (old, (v, f, p)) = less k i e in
        let (lt, v', f', p') = sound.1 k i old in (omega (arith, n), v ∙ v', f ∙ f', p ∙ p'),
  )

  pub frame_of-eq :
      (s t : Sys P) (k : ℕ × ℤ)
      → t.ht_size ≡ s.ht_size
      → t.frame_table ≡ s.frame_table
      → frame_of t k ≡ frame_of s k
  frame_of-eq s t k h e =
      λ i. if BufHash.in_array (h i) k then view (BufHash.hash (h i)) (e i) k else none

  -- A change of the frames only that leaves what they hold.
  pub IsSound-frames :
      (s t : Sys P)
      → IsSound s
      → t.num_bufs ≡ s.num_bufs
      → t.ht_size ≡ s.ht_size
      → t.frame_table ≡ s.frame_table
      → ((i : ℕ) → FrameSame s t i)
      → IsSound t
  IsSound-frames s t sound n h e same =
      IsSound-less s t sound n (λ j. rw (ap (λ ht. ht j) e) (sound.0 j))
        λ k i at. (sym (frame_of-eq s t k h e) ∙ at, same i)

  pub IsSound-drop : (k : ℕ × ℤ) (s : Sys P) → IsSound s → IsSound (drop_entry k s)
  unfolding drop_entry
  IsSound-drop k s sound =
      let (u, v) = drop_entry-frame_of k s sound.0 in
      IsSound-less s (drop_entry k s) sound refl u
        λ q i at. (ground (arith, v q), (refl, refl, refl))

  -- Without the entry of the page that a frame holds, no entry names the frame.
  pub IsUnlisted-drop :
      (s : Sys P) (i : ℕ)
      → IsSound s
      → IsUnlisted (drop_entry ((s.desc i).file, (s.desc i).page_no) s) i
  IsUnlisted-drop s i sound q at =
      let (u, v) = drop_entry-frame_of ((s.desc i).file, (s.desc i).page_no) s sound.0 in
      let old : frame_of s q ≡ some i = ground (arith, v q) in
      let (_, _, f, p) = sound.1 q i old in
      let hit = (page_key_eq_iff q ((s.desc i).file, (s.desc i).page_no)).1 (ground arith) in
      absurd (ground (arith, v q, hit))

  IsUnlisted-unused : (s : Sys P) (i : ℕ) → IsSound s → (s.desc i).valid ≡ false → IsUnlisted s i
  IsUnlisted-unused s i sound free k at = absurd (false≢true (sym free ∙ (sound.1 k i at).1))

  pub visit_frame-evicted :
      (s : Sys P)
      → (visit_frame s).0 ≡ evicted
      → let d = s.desc s.clock_hand in (visit_frame s).1 ≡ drop_entry (d.file, d.page_no) s
  unfolding visit_frame
  visit_frame-evicted s e = ground arith

  pub visit_frame-passed_table :
      (s : Sys P) → (visit_frame s).0 ≡ passed → (visit_frame s).1.frame_table ≡ s.frame_table
  unfolding visit_frame
  visit_frame-passed_table s e = ground arith

  pub visit_frame-unused_same :
      (s : Sys P)
      → (visit_frame s).0 ≡ unused
      → ((visit_frame s).1 ≡ s) × ((s.desc s.clock_hand).valid ≡ false)
  unfolding visit_frame
  visit_frame-unused_same s e = ground arith

  -- A visit keeps the table sound. Where the loop stops no entry names the frame any more.
  abbrev Visited : Sys P → Visit → Sys P → Type 0
  Visited s v t = IsSound t × ((v ≡ passed) ⊎ IsUnlisted t s.clock_hand)

  visit_frame-Visited : (s : Sys P) → IsSound s → Visited s (visit_frame s).0 (visit_frame s).1
  visit_frame-Visited s sound = elim (Visit-cases (visit_frame s).0) [
    | inl e ↦
        let (same, free) = visit_frame-unused_same s e in
        rw same (sound, inr (IsUnlisted-unused s s.clock_hand sound free))
    | inr (inl e) ↦
        rw (visit_frame-evicted s e)
          (IsSound-drop _ s sound, inr (IsUnlisted-drop s s.clock_hand sound))
    | inr (inr e) ↦
        let k = visit_frame-Kept s in
        (
          IsSound-frames s (visit_frame s).1 sound k.num_bufs k.ht_size
              (visit_frame-passed_table s e) (λ i. (k.valid i, k.file i, k.page_no i)),
          inl e,
        )
  ]

  -- The loop keeps the table sound, and stops at an unlisted frame only.
  abbrev pub Swept : Sweep × Sys P → Type 0
  Swept (w, t) = IsSound t × (((w.found ≡ false) × (w.left ≡ 0)) ⊎ IsUnlisted t t.clock_hand)

  advance_clock-IsSound : (s : Sys P) → IsSound s → IsSound (advance_clock s)
  unfolding advance_clock
  advance_clock-IsSound s sound = sound

  stop_unlisted :
      (s : Sys P) (w : Sweep)
      → IsSound s
      → (visit_frame (advance_clock s)).0 ≢ passed
      → Swept (w, (visit_frame (advance_clock s)).1)
  stop_unlisted s w sound ne =
      let a = advance_clock s in
      let (sound', stop) = visit_frame-Visited a (advance_clock-IsSound s sound) in
      (sound', inr (rw (visit_frame-hand a) (elim stop [ inl e ↦ absurd (ne e) | inr u ↦ u ])))

  pub sweep-Swept : (k : ℕ) (s : Sys P) → IsSound s → Swept (sweep k s)
  unfolding sweep
  sweep-Swept zero s sound = (sound, inl (refl, refl))
  sweep-Swept (suc k) s sound =
      let (v, t) = visit_frame (advance_clock s) in
      resume_cases Swept v k t (sweep k t) (λ e. stop_unlisted s _ sound (λ e'. cc))
        (λ e. stop_unlisted s _ sound (λ e'. cc))
        (λ _.
          sweep-Swept k t (visit_frame-Visited (advance_clock s) (advance_clock-IsSound s sound)).0)
