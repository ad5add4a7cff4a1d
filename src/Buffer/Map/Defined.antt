-- ===== src/Buffer/Map/Defined.antt =====
-- readPage, unPinPage and flushFile of buf.cpp do nothing that is undefined while the pool shows its pages.
use database_management_syst.Common.{
  zero, suc, ◌+◌, ◌≤◌, ◌&&◌, ltb, ℕ, ◌<◌, ◌≡◌, ◌≢◌, refl, sym, subst, inl, inr, Bool, true, Option,
  arith, ==_iff, Bool-cases, not, ◌==◌, ◌∙◌, ℤ, page_key,
}
use mathlib.Core.Bool.{false≢true}
use database_management_syst.Status.{Status, Res, ok, err, undefined}
use database_management_syst.Monad.{M, ◌>>=◌, and_then, guarded-state}
use database_management_syst.Platform.{Platform, ReadsBack}
use database_management_syst.System.{Sys}
use database_management_syst.BufHash
use database_management_syst.HashTable
use database_management_syst.FileIo.{write_page, int_write, read_page_into, int_read_into}
use database_management_syst.Buffer.{
  construct, alloc_buf, fill_frame, enter_frame, load_page, on_lookup, read_page, unpin_frame,
  unpin_page, write_dirty, empty_frame, flush_frame, flush_from, flush_file,
}
use database_management_syst.Buffer.Addressed.{IsAddressed}
use database_management_syst.Buffer.Rounds.{alloc_buf-defined}
use database_management_syst.Buffer.Map.Disk.{Apart}
use database_management_syst.Buffer.Map.View.{Pages, ShowsPages}
use database_management_syst.Buffer.Map.Taken.{alloc_buf-Takes}
use database_management_syst.Buffer.Calls.{IsPool}
use database_management_syst.Buffer.Flush.{flush_frame-Preserves}
use database_management_syst.Buffer.Map.Cleaned.{write_dirty-Written, flush_frame-Turned}
use database_management_syst.Buffer.Map.Refines.{
  Steps, Steps-ShowsPages, IsKnown, unchanged, construct-ShowsPages,
}

and_then-defined :
    {S A B : Type 0} (f : A → M S B) (r : Res A × S)
    → r.0 ≢ undefined
    → ((a : A) (u : S) → r ≡ (ok a, u) → (f a u).0 ≢ undefined)
    → (and_then f r).0 ≢ undefined
and_then-defined f (ok a, u) d k = k a u refl
and_then-defined f (err e, u) d k = λ x. absurd (ground arith)
and_then-defined f (undefined, u) d k = λ x. d refl

lookup-defined :
    (n : ℕ) (k : ℕ × ℤ) (t : BufHash.FrameTable)
    → BufHash.in_array n k ≡ true
    → BufHash.lookup n k t ≢ undefined
unfolding BufHash.lookup HashTable.lookup
lookup-defined n k t lies = ground (arith, lies)

module _ {P : Platform} where
  -- The frames of a pool that shows its pages have addresses that allocBuf can use.
  ShowsPages-IsAddressed :
      (s : Sys P) (a : Pages P) (i : ℕ) → ShowsPages s a → i < s.num_bufs → IsAddressed s i
  ShowsPages-IsAddressed s a i v lt = (
    λ held. let (listed, _) = v.listed i (λ x. x) lt held in ground (arith, listed),
    λ changed. elim (Bool-cases (s.desc i).valid) [
      | inl held ↦ let (_, o) = v.listed i (λ x. x) lt held in o.0
      | inr free ↦ absurd (false≢true (sym (v.unused i (λ x. x) lt free) ∙ changed))
    ],
  )

  fill_frame-defined :
      (k : ℕ × ℤ) (i : ℕ) (s : Sys P) → k.0 ≢ 0 → (fill_frame k.0 k.1 i s).0 ≢ undefined
  unfolding fill_frame read_page_into int_read_into
  fill_frame-defined k i s ne = ground (arith, ==_iff k.0 0)

  fill_frame-ht_size :
      (k : ℕ × ℤ) (i : ℕ) (s : Sys P) → (fill_frame k.0 k.1 i s).1.ht_size ≡ s.ht_size
  unfolding fill_frame
  fill_frame-ht_size k i s =
      guarded-state (λ (x : Sys P). x.ht_size ≡ s.ht_size) (not (k.0 == 0)) _ refl refl

  enter_frame-defined :
      (k : ℕ × ℤ) (i : ℕ) (s : Sys P)
      → BufHash.in_array s.ht_size k ≡ true
      → (enter_frame k.0 k.1 i s).0 ≢ undefined
  unfolding enter_frame BufHash.insert HashTable.insert
  enter_frame-defined k i s lies = ground (arith, lies)

  load_page-defined :
      (k : ℕ × ℤ) (s : Sys P) (a : Pages P)
      → ShowsPages s a
      → k.0 ≢ 0
      → BufHash.in_array s.ht_size k ≡ true
      → (load_page k.0 k.1 s).0 ≢ undefined
  unfolding load_page ◌>>=◌
  load_page-defined k s a v ne lies =
      and_then-defined _ (alloc_buf s)
        (alloc_buf-defined s v.pool.hand (λ i lt. ShowsPages-IsAddressed s a i v lt))
        λ i t given.
          and_then-defined _ (fill_frame k.0 k.1 i t) (fill_frame-defined k i t ne) λ _ u filled.
            let size : u.ht_size ≡ s.ht_size =
              subst (λ (r : Res (Unit {0}) × Sys P). r.1.ht_size ≡ t.ht_size) filled
                (fill_frame-ht_size k i t)
              ∙ (alloc_buf-Takes s t i v.pool given).kept.ht_size in
            and_then-defined _ (enter_frame k.0 k.1 i u) (enter_frame-defined k i u (rw size lies))
              λ _ w _ e. absurd (ground arith)

  looked-defined :
      {A : Type 0} (r : Res ℕ) (hit : ℕ → M (Sys P) A) (miss : Status → M (Sys P) A) (s : Sys P)
      → r ≢ undefined
      → ((i : ℕ) → (hit i s).0 ≢ undefined)
      → ((e : Status) → (miss e s).0 ≢ undefined)
      → (on_lookup r hit miss s).0 ≢ undefined
  looked-defined (ok i) hit miss s d h k = h i
  looked-defined (err e) hit miss s d h k = k e
  looked-defined undefined hit miss s d h k = λ x. d refl

  unpin_frame-defined : (dirty : Bool) (i : ℕ) (s : Sys P) → (unpin_frame dirty i s).0 ≢ undefined
  unfolding unpin_frame
  unpin_frame-defined dirty i s = ground arith

  read_page-defined :
      (k : ℕ × ℤ) (s : Sys P) (a : Pages P)
      → ShowsPages s a
      → k.0 ≢ 0
      → BufHash.in_array s.ht_size k ≡ true
      → (read_page k.0 k.1 s).0 ≢ undefined
  unfolding read_page
  read_page-defined k s a v ne lies =
      looked-defined (BufHash.lookup s.ht_size k s.frame_table) _ _ s
        (lookup-defined s.ht_size k s.frame_table lies) (λ i e. absurd (ground arith))
        (λ e. load_page-defined k s a v ne lies)

  unpin_page-defined :
      (k : ℕ × ℤ) (dirty : Bool) (s : Sys P)
      → BufHash.in_array s.ht_size k ≡ true
      → (unpin_page k.0 k.1 dirty s).0 ≢ undefined
  unfolding unpin_page
  unpin_page-defined k dirty s lies =
      looked-defined (BufHash.lookup s.ht_size k s.frame_table) _ _ s
        (lookup-defined s.ht_size k s.frame_table lies) (λ i. unpin_frame-defined dirty i s)
        (λ e x. absurd (ground arith))

  write_dirty-defined :
      (i : ℕ) (s : Sys P)
      → ((s.desc i).dirty ≡ true → (s.desc i).file ≢ 0)
      → (write_dirty i s).0 ≢ undefined
  unfolding write_dirty write_page int_write
  write_dirty-defined i s there = ground (arith, ==_iff (s.desc i).file 0)

  flush_frame-defined :
      (file i : ℕ) (s : Sys P) (a : Pages P)
      → ShowsPages s a
      → i < s.num_bufs
      → (flush_frame file i s).0 ≢ undefined
  unfolding flush_frame empty_frame
  flush_frame-defined file i s a v lt =
      let (listed, there) = ShowsPages-IsAddressed s a i v lt in
      elim (Bool-cases ((s.desc i).valid && ((s.desc i).file == file))) [
        | inr other ↦ rw other (λ e. ground arith)
        | inl mine ↦ rw mine (elim (Bool-cases (ltb 0 (s.desc i).pin_cnt)) [
          | inl pinned ↦ rw pinned (λ e. absurd (ground arith))
          | inr idle ↦ rw idle (
              and_then-defined _ (write_dirty i s) (write_dirty-defined i s there) λ _ u written.
                let (w, same, saved, cleans, page) = write_dirty-Written i s u written in
                let size : u.ht_size ≡ s.ht_size = cleans.ht_size ∙ same.ht_size in
                let held : (s.desc i).valid ≡ true = ground arith in
                let here : (s.desc i).file ≡ file = ground (arith, ==_iff (s.desc i).file file) in
                let lies : BufHash.in_array u.ht_size (file, (u.desc i).page_no) ≡ true =
                  rw (size, page) (rw here at (listed held)) in
                rw lies (λ e. absurd (ground arith)))
        ])
      ]

  flush_from-defined :
      (file k i : ℕ) (s : Sys P) (a : Pages P)
      → ReadsBack P
      → ShowsPages s a
      → i + k ≤ s.num_bufs
      → (flush_from file k i s).0 ≢ undefined
  unfolding flush_from ◌>>=◌
  flush_from-defined file zero i s a back v le = λ e. absurd (ground arith)
  flush_from-defined file (suc k) i s a back v le =
      and_then-defined _ (flush_frame file i s) (flush_frame-defined file i s a v (omega arith))
        λ _ u turned.
          let pool =
            subst (λ (r : Res (Unit {0}) × Sys P). IsPool r.1) turned
              (flush_frame-Preserves file i s v.pool) in
          let (v', (_, _, n)) = flush_frame-Turned file i s u a back v (omega arith) pool turned in
          flush_from-defined file k (i + 1) u a back v' (omega (arith, n))

  flush_file-defined :
      (file : ℕ) (s : Sys P) (a : Pages P)
      → ReadsBack P
      → ShowsPages s a
      → (flush_file file s).0 ≢ undefined
  unfolding flush_file
  flush_file-defined file s a back v = flush_from-defined file s.num_bufs 0 s a back v (omega arith)

  -- A new buffer manager of at least one frame, over a disk that has some known pages of open
  -- files, where a read returns what was written and the open files are apart: after any steps of
  -- the clients, a readPage and an unPinPage of a page whose index lies in the array of the hash
  -- table and whose file is not NULL are defined, so they return OK or an error, whichever frames
  -- they change, and so is a flushFile of any file.
  pub Steps-defined :
      (bufs : ℕ) (s t : Sys P) (m : ℕ × ℤ → Option P.Raw) (b : Pages P) (k : ℕ × ℤ) (dirty : Bool)
      (file : ℕ)
      → ReadsBack P
      → 0 < bufs
      → Apart s
      → IsKnown m s
      → Steps (construct bufs s) (unchanged m) t b
      → k.0 ≢ 0
      → BufHash.in_array t.ht_size k ≡ true
      → ((read_page k.0 k.1 t).0 ≢ undefined)
        × ((unpin_page k.0 k.1 dirty t).0 ≢ undefined)
        × ((flush_file file t).0 ≢ undefined)
  Steps-defined bufs s t m b k dirty file back h apart known run ne lies =
      let v = Steps-ShowsPages _ _ back run (construct-ShowsPages bufs s m h apart known) in
      (
        read_page-defined k t b v ne lies,
        unpin_page-defined k dirty t lies,
        flush_file-defined file t b back v,
      )
