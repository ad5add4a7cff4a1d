-- ===== src/Buffer/Flush.antt =====
-- The calls of BufMgr that empty frames keep the buffer pool sound as well.
use database_management_syst.Common.{
  ℕ, zero, suc, ◌+◌, ◌<◌, ◌≡◌, refl, subst, ap, ◌∙◌, inl, inr, Bool, false, not, ◌&&◌, List, [],
  ◌∷◌, some, arith, ltb, ◌==◌, Bool-cases, ℤ, page_key,
}
use database_management_syst.Status.{Res, ok, err, undefined}
use database_management_syst.Monad.{M, ◌>>=◌, and_then, pure, forget, guarded-state}
use database_management_syst.Platform.{Platform}
use database_management_syst.System.{Sys, BufDesc, clear}
use database_management_syst.BufHash
use database_management_syst.BufHash.{FrameTable}
use database_management_syst.HashTable.Laws.{view}
use database_management_syst.Buffer.{
  set_frame, drop_entry, read_page, unpin_page, write_dirty, release_frame, flush_frame, flush_from,
  flush_file, clear_page, empty_frame, dispose_page, alloc_page, construct,
}
use database_management_syst.HashTable.{find}
use database_management_syst.Buffer.Pins.{lookup-found}
use database_management_syst.Buffer.Same.{Same, write_page-DiskOnly, dispose_page-DiskOnly}
use database_management_syst.Buffer.Sound.{frame_of, IsSound, IsSound-drop, IsUnlisted-drop}
use database_management_syst.Buffer.Calls.{
  IsPool, Preserves, Preserves->>=, IsPool-Same, through-Same, set_frame-IsUnlisted,
  set_frame-IsPool, if-IsPool, read_page-Preserves, unpin_page-Preserves, alloc_page-Preserves,
}

module _ {P : Platform} where
  pub drop_entry-IsPool : (k : ℕ × ℤ) (s : Sys P) → IsPool s → IsPool (drop_entry k s)
  unfolding drop_entry
  drop_entry-IsPool k s v = record { sound = IsSound-drop k s v.sound; hand = v.hand }

  -- The frame of a page, once the page's entry is gone, can take any descriptor.
  empty_frame-IsPool :
      (file : ℕ) (p : ℤ) (i : ℕ) (d : BufDesc) (s : Sys P)
      → IsPool s
      → (s.desc i).file ≡ file
      → (s.desc i).page_no ≡ p
      → IsPool (set_frame i d (drop_entry (file, p) s))
  empty_frame-IsPool file p i d s v f g =
      set_frame-IsUnlisted i d (drop_entry (file, p) s) (drop_entry-IsPool (file, p) s v)
        (rw f at (rw g at (IsUnlisted-drop s i v.sound)))

  -- What writing a changed frame leaves: its page.
  abbrev Written : ℕ → Sys P → Sys P → Type 0
  Written i s t =
      IsPool t × ((t.desc i).file ≡ (s.desc i).file) × ((t.desc i).page_no ≡ (s.desc i).page_no)

  cleaned :
      (i : ℕ) (s : Sys P) (r : Res (Unit {0}) × Sys P)
      → IsPool s
      → Same s r.1
      → Written i s
          (and_then (λ _ t. (ok (tt {0}), set_frame i (record (t.desc i) { dirty = false }) t)) r).1
  cleaned i s (ok _, t) v e =
      let d = ap (λ f. f i) e.desc in
      (
        set_frame-IsPool i (record (t.desc i) { dirty = false }) t (IsPool-Same v e) refl refl refl,
        ground (arith, ap (λ x. x.file) d),
        ground (arith, ap (λ x. x.page_no) d),
      )
  cleaned i s (err x, t) v e =
      let d = ap (λ f. f i) e.desc in (IsPool-Same v e, ap (λ x. x.file) d, ap (λ x. x.page_no) d)
  cleaned i s (undefined, t) v e =
      let d = ap (λ f. f i) e.desc in (IsPool-Same v e, ap (λ x. x.file) d, ap (λ x. x.page_no) d)

  write_dirty-Written : (i : ℕ) (s : Sys P) → IsPool s → Written i s (write_dirty i s).1
  unfolding write_dirty
  write_dirty-Written i s v = elim (Bool-cases (s.desc i).dirty) [
    | inl changed ↦ rw changed (
        cleaned i s _ v (
          through-Same (s.desc i).file _ s
            (write_page-DiskOnly (s.desc i).file (s.desc i).page_no (s.pool i) s)))
    | inr clean ↦ rw clean (v, refl, refl)
  ]

  release_frame-IsPool :
      (file i : ℕ) (s : Sys P) → IsPool s → (s.desc i).file ≡ file → IsPool (release_frame file i s)
  unfolding release_frame
  release_frame-IsPool file i s v f = empty_frame-IsPool file (s.desc i).page_no i _ s v f refl

  released :
      (file i : ℕ) (s : Sys P) (r : Res (Unit {0}) × Sys P)
      → (s.desc i).file ≡ file
      → Written i s r.1
      → IsPool (and_then (λ _. empty_frame file i) r).1
  unfolding empty_frame
  released file i s (ok _, t) f (v, g, h) =
      guarded-state IsPool (BufHash.in_array t.ht_size (file, (t.desc i).page_no)) _ v
        (release_frame-IsPool file i t v (g ∙ f))
  released file i s (err e, t) f (v, g, h) = v
  released file i s (undefined, t) f (v, g, h) = v

  pub flush_frame-Preserves : (file i : ℕ) → Preserves (flush_frame {P = P} file i)
  unfolding flush_frame
  flush_frame-Preserves file i s v =
      elim (Bool-cases ((s.desc i).valid && ((s.desc i).file == file))) [
        | inr other ↦
            rw other (if-IsPool (not (s.desc i).valid && ((s.desc i).file == file)) _ _ v v)
        | inl mine ↦ rw mine (
            if-IsPool (ltb 0 (s.desc i).pin_cnt) _ _ v
              (released file i s (write_dirty i s) (ground arith) (write_dirty-Written i s v)))
      ]

  flush_from-Preserves : (file k i : ℕ) → Preserves (flush_from {P = P} file k i)
  unfolding flush_from
  flush_from-Preserves file zero i = λ s v. v
  flush_from-Preserves file (suc k) i =
      Preserves->>= _ _ (flush_frame-Preserves file i) (λ _. flush_from-Preserves file k (i + 1))

  pub flush_file-Preserves : (file : ℕ) → Preserves (flush_file {P = P} file)
  unfolding flush_file
  flush_file-Preserves file s v = flush_from-Preserves file s.num_bufs 0 s v

  -- The frame that a lookup finds is emptied together with the entry.
  cleared :
      (k : ℕ × ℤ) (r : Res ℕ) (s : Sys P)
      → IsPool s
      → ((i : ℕ) → r ≡ ok i → frame_of s k ≡ some i)
      → IsPool (drop_entry k (clear_page r s))
  unfolding clear_page drop_entry
  cleared k (ok i) s v found =
      let (_, _, f, p) = v.sound.1 k i (found i refl) in
      empty_frame-IsPool k.0 k.1 i (clear (s.desc i)) s v f p
  cleared k (err e) s v found = drop_entry-IsPool k s v
  cleared k undefined s v found = drop_entry-IsPool k s v

  dispose_page-Preserves : (file : ℕ) (p : ℤ) → Preserves (dispose_page {P = P} file p)
  unfolding dispose_page
  dispose_page-Preserves file p s v =
      guarded-state IsPool (BufHash.in_array s.ht_size (file, p)) _ v (
        IsPool-Same
          (cleared (file, p) (BufHash.lookup s.ht_size (file, p) s.frame_table) s v
            (λ i e. lookup-found s.ht_size (file, p) i s.frame_table e))
          (through-Same file _ _ (dispose_page-DiskOnly file p _)))

-- A call of the buffer manager.
pub data Call : Type 0 where
  reads : ℕ → ℤ → Call
  unpins : ℕ → ℤ → Bool → Call
  allocates : ℕ → Call
  disposes : ℕ → ℤ → Call
  flushes : ℕ → Call

module _ {P : Platform} where
  -- A call, whatever page or frame it returns.
  unfoldable pub call : Call → M (Sys P) (Unit {0})
  call (reads file p) s = forget (read_page file p s)
  call (unpins file p d) s = forget (unpin_page file p d s)
  call (allocates file) s = forget (alloc_page file s)
  call (disposes file p) s = forget (dispose_page file p s)
  call (flushes file) s = forget (flush_file file s)

  -- Calls one after another, whatever status they return. A call that is undefined ends the run.
  unfoldable pub run : List Call → M (Sys P) (Unit {0})
  run [] = pure tt
  run (c ∷ cs) = call c >>= λ _. run cs

  forget-IsPool : {A : Type 0} (r : Res A × Sys P) → IsPool r.1 → IsPool (forget r).1
  forget-IsPool (ok a, t) v = v
  forget-IsPool (err e, t) v = v
  forget-IsPool (undefined, t) v = v

  call-Preserves : (c : Call) → Preserves (call c)
  unfolding call
  call-Preserves (reads file p) s v = forget-IsPool _ (read_page-Preserves file p s v)
  call-Preserves (unpins file p d) s v = forget-IsPool _ (unpin_page-Preserves file p d s v)
  call-Preserves (allocates file) s v = forget-IsPool _ (alloc_page-Preserves file s v)
  call-Preserves (disposes file p) s v = forget-IsPool _ (dispose_page-Preserves file p s v)
  call-Preserves (flushes file) s v = forget-IsPool _ (flush_file-Preserves file s v)

  pub run-Preserves : (cs : List Call) → Preserves (run cs)
  unfolding run
  run-Preserves [] = λ s v. v
  run-Preserves (c ∷ cs) = Preserves->>= _ _ (call-Preserves c) (λ _. run-Preserves cs)

  pub construct-IsPool : (bufs : ℕ) (s : Sys P) → 0 < bufs → IsPool (construct bufs s)
  unfolding construct view find
  construct-IsPool bufs s h = record {
    sound = (λ i. tt, λ k i e. absurd (ground arith));
    hand = omega arith;
  }

  -- From a new buffer manager of at least one frame, after calls in any order, whichever of them
  -- fail, if none is undefined: an entry of the hash table names a frame of the pool that is valid
  -- and holds the page of the entry, and no page has two entries.
  pub run-construct-IsSound :
      (bufs : ℕ) (s t : Sys P) (cs : List Call)
      → 0 < bufs
      → run cs (construct bufs s) ≡ (ok tt, t)
      → IsSound t
  run-construct-IsSound bufs s t cs h e =
      subst (λ (y : Res (Unit {0}) × Sys P). IsSound y.1) e
        (run-Preserves cs (construct bufs s) (construct-IsPool bufs s h)).sound
