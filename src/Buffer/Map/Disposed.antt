-- ===== src/Buffer/Map/Disposed.antt =====
-- disposePage of buf.cpp: the page leaves the pool, and the clients know nothing of it any more.
use database_management_syst.Monad.{guarded-ok}
use database_management_syst.Common.{
  ◌==◌, not, true, ℕ, ◌≡◌, ◌≢◌, refl, sym, subst, ◌∙◌, inl, inr, false, none, some, Option-cases,
  arith, ==_iff, ℤ, page_key, page_key_eq_iff,
}
use database_management_syst.Status.{Res, ok, err, undefined, hash_not_found}
use database_management_syst.Platform.{Platform, ReadsBack}
use database_management_syst.System.{Sys, clear}
use database_management_syst.BufHash
use database_management_syst.HashTable.Laws.{FoundBy, lookup-FoundBy}
use database_management_syst.FileIo
use database_management_syst.Buffer.{set_frame, drop_entry, clear_page, dispose_page}
use database_management_syst.Buffer.Same.{Same, dispose_page-DiskOnly}
use database_management_syst.Buffer.Sound.{frame_of, IsUnlisted, drop_entry-frame_of}
use database_management_syst.Buffer.Calls.{IsPool, set_frame-IsUnlisted}
use database_management_syst.Buffer.Flush.{drop_entry-IsPool}
use database_management_syst.Buffer.Map.Disk.{IsOpened-files, IsOpened}
use database_management_syst.Buffer.Map.Evict.{key_of}
use database_management_syst.Buffer.Map.View.{Pages, ShowsBut, ShowsPages}
use database_management_syst.Buffer.Map.Described.{one_page}
use database_management_syst.Buffer.Map.Emptied.{Cleans, Cleans-ShowsPages}
use database_management_syst.Buffer.Map.Spared.{dispose_page-Spares}
use database_management_syst.Buffer.Map.Allotted.{forgotten, known_before, Spares-ShowsPages}

module _ {P : Platform} where
  module _ (k : ℕ × ℤ) (s : Sys P) (a : Pages P) (v : ShowsPages s a) where
    kept_entry : (q : ℕ × ℤ) → q ≢ k → frame_of (drop_entry k s) q ≡ frame_of s q
    kept_entry q ne =
        (drop_entry-frame_of k s v.pool.sound.0).1 q ∙ ground (arith, page_key_eq_iff q k)

    no_entry : frame_of (drop_entry k s) k ≡ none
    no_entry = (drop_entry-frame_of k s v.pool.sound.0).1 k ∙ ground (arith, page_key_eq_iff k k)

    old_entry :
        (q : ℕ × ℤ) (i : ℕ)
        → frame_of (drop_entry k s) q ≡ some i
        → (q ≢ k) × (frame_of s q ≡ some i)
    old_entry q i at =
        let ne : q ≢ k = λ e. absurd (ground (arith, no_entry, rw e at at)) in
        (ne, sym (kept_entry q ne) ∙ at)

    -- The frame of the page, if there is one, does not count any more.
    drop_entry-ShowsBut :
        (Free : ℕ → Type 0)
        → ((i : ℕ) → frame_of s k ≡ some i → Free i)
        → ShowsBut Free (drop_entry k s) (forgotten k a)
    unfolding drop_entry
    drop_entry-ShowsBut Free free = record {
      pool = drop_entry-IsPool k s v.pool;
      apart = v.apart;
      listed = λ i taken lt held.
          let (at, o) = v.listed i (λ x. x) lt held in
          let ne : key_of s i ≢ k = λ e. taken (free i (rw e at at)) in
          (kept_entry (key_of s i) ne ∙ at, o);
      unused = λ i taken lt idle. v.unused i (λ x. x) lt idle;
      pinned =
          λ q i at changed. let (ne, old) = old_entry q i at in v.pinned q i old (ground arith);
      pages = λ q r at.
          let (ne, _, known) = known_before k q r a at in
          let (o, (within, out)) = v.pages q r known in
          (
            o,
            (
              λ i at'.
                  let (block, on) = within i (old_entry q i at').1 in
                  (block, λ clean un. on clean (ground (arith, page_key_eq_iff q k))),
              λ absent. out (sym (kept_entry q ne) ∙ absent),
            ),
          );
    }

    cleared-Cleans :
        (i : ℕ) → Cleans i (drop_entry k s) (drop_entry k (set_frame i (clear (s.desc i)) s))
    unfolding drop_entry clear
    cleared-Cleans i = record {
      table = refl;
      ht_size = refl;
      num_bufs = refl;
      pool = refl;
      files = refl;
      fs = refl;
      others = λ j ne. ground (arith, ==_iff j i);
      clean = ground (arith, ==_iff i i);
    }

    cleared-free :
        (i : ℕ) → ((drop_entry k (set_frame i (clear (s.desc i)) s)).desc i).valid ≡ false
    unfolding drop_entry clear
    cleared-free i = ground (arith, ==_iff i i)

    cleared-IsPool :
        (i : ℕ)
        → IsUnlisted (drop_entry k s) i
        → IsPool (drop_entry k (set_frame i (clear (s.desc i)) s))
    unfolding drop_entry
    cleared-IsPool i unlisted =
        set_frame-IsUnlisted i (clear (s.desc i)) (drop_entry k s) (drop_entry-IsPool k s v.pool)
          unlisted

    -- The page without its frame.
    cleared-ShowsPages :
        (r : Res ℕ)
        → FoundBy (BufHash.hash s.ht_size) (frame_of s k) r
        → ShowsPages (drop_entry k (clear_page r s)) (forgotten k a)
    unfolding clear_page
    cleared-ShowsPages r found = elim (Option-cases (frame_of s k)) [
      | inl absent ↦
          let missing : r ≡ err hash_not_found = rw absent at found in
          rw missing (drop_entry-ShowsBut (λ i. ⊥) (λ i at. ground arith))
      | inr (i, at) ↦
          let there : r ≡ ok i = rw at at found in
          let unlisted : IsUnlisted (drop_entry k s) i =
            λ q at'. let (ne, old) = old_entry q i at' in ne (one_page k q i s v.pool at old) in
          rw there (
            Cleans-ShowsPages i (drop_entry k s) (drop_entry k (set_frame i (clear (s.desc i)) s))
              (forgotten k a) (drop_entry-ShowsBut (λ j. j ≡ i) (λ j at'. ground arith)) unlisted
              (cleared-Cleans i) (cleared-free i) (cleared-IsPool i unlisted))
    ]

  forgotten_twice : (k : ℕ × ℤ) (a : Pages P) → forgotten k (forgotten k a) ≡ forgotten k a
  forgotten_twice k a = λ j. record {
    content = λ q.
        (let e : (forgotten k (forgotten k a)).content q ≡ (forgotten k a).content q =
            ground arith in
          e j);
    changed = λ q.
        (let e : (forgotten k (forgotten k a)).changed q ≡ (forgotten k a).changed q =
            ground arith in
          e j);
  }

  cleared-files :
      (k : ℕ × ℤ) (r : Res ℕ) (s : Sys P) → (drop_entry k (clear_page r s)).files ≡ s.files
  unfolding drop_entry clear_page
  cleared-files k (ok i) s = refl
  cleared-files k (err e) s = refl
  cleared-files k undefined s = refl

  pool_lookup-FoundBy :
      (k : ℕ × ℤ) (s : Sys P)
      → BufHash.in_array s.ht_size k ≡ true
      → FoundBy (BufHash.hash s.ht_size) (frame_of s k) (BufHash.lookup s.ht_size k s.frame_table)
  unfolding BufHash.lookup
  pool_lookup-FoundBy k s lies = rw lies (lookup-FoundBy (BufHash.hash s.ht_size) k s.frame_table)

  -- A disposePage that succeeds.
  pub dispose_page-ShowsPages :
      (k : ℕ × ℤ) (s t : Sys P) (a : Pages P)
      → ReadsBack P
      → ShowsPages s a
      → IsOpened s k.0
      → dispose_page k.0 k.1 s ≡ (ok tt, t)
      → ShowsPages t (forgotten k a)
  unfolding dispose_page
  dispose_page-ShowsPages k s t a back v o disposed =
      let (lies, through_file) = guarded-ok (BufHash.in_array s.ht_size k) _ disposed in
      let (_, e) = guarded-ok (not (k.0 == 0)) (FileIo.dispose_page k.0 k.1) through_file in
      let r = BufHash.lookup s.ht_size k s.frame_table in
      let w = drop_entry k (clear_page r s) in
      let v' : ShowsPages w (forgotten k a) =
        cleared-ShowsPages k s a v r (pool_lookup-FoundBy k s lies) in
      let same : Same w t =
        subst (λ (y : Res (Unit {0}) × Sys P). Same w y.1) e (dispose_page-DiskOnly k.0 k.1 w) in
      subst (λ b. ShowsPages t b) (forgotten_twice k a)
        (Spares-ShowsPages k w t (forgotten k a) v' same (
          dispose_page-Spares back k.0 k.1 w t v'.apart (IsOpened-files k.0 (cleared-files k r s) o)
            e))
