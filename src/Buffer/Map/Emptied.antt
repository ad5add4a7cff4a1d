-- ===== src/Buffer/Map/Emptied.antt =====
-- A frame that is emptied: its page goes to the disk first, and the pool shows the same pages.
use database_management_syst.Common.{
  ℕ, ◌<◌, ◌≡◌, ◌≢◌, sym, ap, subst, ◌∙◌, inl, inr, true, false, some, arith, ◌==◌, ==_iff,
  Bool-cases, ℤ, page_key, page_key_eq, page_key_eq_iff,
}
use mathlib.Core.Bool.{false≢true}
use database_management_syst.Platform.{Platform}
use database_management_syst.System.{Sys, BufDesc}
use database_management_syst.Buffer.{drop_entry}
use database_management_syst.Buffer.Same.{Same}
use database_management_syst.Buffer.Sound.{
  frame_of, frame_of-eq, IsUnlisted, drop_entry-frame_of, IsUnlisted-drop,
}
use database_management_syst.Buffer.Calls.{IsPool, IsPool-Same}
use database_management_syst.Buffer.Flush.{drop_entry-IsPool}
use database_management_syst.Buffer.Map.Disk.{IsOpened-files, OnDisk, OnDisk-eq, IsOpened}
use database_management_syst.Buffer.Map.Evict.{key_of}
use database_management_syst.Buffer.Map.View.{Pages, Shows, ShowsBut, ShowsPages}
use database_management_syst.Buffer.Map.Taken.{Same-Kept, Gone, Saved, Takes}

module _ {P : Platform} where
  -- Frame i is not changed any more, and the rest is as it was.
  pub record Cleans (i : ℕ) (u t : Sys P) : Type 0 where
    pub table : t.frame_table ≡ u.frame_table
    pub ht_size : t.ht_size ≡ u.ht_size
    pub num_bufs : t.num_bufs ≡ u.num_bufs
    pub pool : t.pool ≡ u.pool
    pub files : t.files ≡ u.files
    pub fs : t.fs ≡ u.fs
    pub others : (j : ℕ) → j ≢ i → t.desc j ≡ u.desc j
    pub clean : (t.desc i).dirty ≡ false

  module _ (i : ℕ) (u t : Sys P) (a : Pages P) (v : ShowsBut (λ j. j ≡ i) u a)
      (free : IsUnlisted u i) (e : Cleans i u t) (empty : (t.desc i).valid ≡ false) where
    same_frame_of : (k : ℕ × ℤ) → frame_of t k ≡ frame_of u k
    same_frame_of k = frame_of-eq u t k e.ht_size e.table

    -- A frame that an entry names is another one.
    listed_other :
        (k : ℕ × ℤ) (j : ℕ)
        → frame_of t k ≡ some j
        → (frame_of u k ≡ some j) × (t.desc j ≡ u.desc j)
    listed_other k j at =
        let old : frame_of u k ≡ some j = sym (same_frame_of k) ∙ at in
        (old, e.others j (λ same. free k (old ∙ ap some same)))

    emptied-OnDisk : (k : ℕ × ℤ) (r : P.Raw) → OnDisk u k r → OnDisk t k r
    emptied-OnDisk k r on = OnDisk-eq u t k r e.files e.fs on

    emptied-Shows : (k : ℕ × ℤ) (r : P.Raw) → Shows u a k r → Shows t a k r
    emptied-Shows k r (within, out) = (
      λ j at.
          let (old, d) = listed_other k j at in
          let (block, on) = within j old in
          (
            ap (λ (pool : ℕ → P.Raw). pool j) e.pool ∙ block,
            λ c un. emptied-OnDisk k r (on (ap (λ x. x.dirty) (sym d) ∙ c) un),
          ),
      λ absent. emptied-OnDisk k r (out (sym (same_frame_of k) ∙ absent)),
    )

    emptied-opened : (f : ℕ) → IsOpened u f → IsOpened t f
    emptied-opened f = IsOpened-files f e.files

    emptied-listed :
        (j : ℕ)
        → j < t.num_bufs
        → (t.desc j).valid ≡ true
        → (frame_of t (key_of t j) ≡ some j) × IsOpened t (t.desc j).file
    emptied-listed j lt held = elim (Bool-cases (j == i)) [
      | inl hit ↦
          absurd
            (false≢true (sym empty ∙ ap (λ n. (t.desc n).valid) (sym ((==_iff j i).0 hit)) ∙ held))
      | inr miss ↦
          let there : j ≢ i = ground (arith, ==_iff j i) in
          let d = e.others j there in
          let (old, o) =
            v.listed j there (omega (arith, e.num_bufs)) (ap (λ x. x.valid) (sym d) ∙ held) in
          rw d (same_frame_of (key_of u j) ∙ old, emptied-opened (u.desc j).file o)
    ]

    emptied-unused : (j : ℕ) → j < t.num_bufs → (t.desc j).valid ≡ false → (t.desc j).dirty ≡ false
    emptied-unused j lt idle = elim (Bool-cases (j == i)) [
      | inl hit ↦ ap (λ n. (t.desc n).dirty) ((==_iff j i).0 hit) ∙ e.clean
      | inr miss ↦
          let there : j ≢ i = ground (arith, ==_iff j i) in
          let d = e.others j there in
          ap (λ x. x.dirty) d
          ∙ v.unused j there (omega (arith, e.num_bufs)) (ap (λ x. x.valid) (sym d) ∙ idle)
    ]

    pub Cleans-ShowsPages : IsPool t → ShowsPages t a
    Cleans-ShowsPages pool = record {
      pool = pool;
      apart = rw e.files v.apart;
      listed = λ j _ lt held. emptied-listed j lt held;
      unused = λ j _ lt idle. emptied-unused j lt idle;
      pinned =
          λ k j at changed. let (old, d) = listed_other k j at in rw d (v.pinned k j old changed);
      pages = λ k r at.
          let (o, shows) = v.pages k r at in (emptied-opened k.0 o, emptied-Shows k r shows);
    }

  -- The write of a frame that is to go, if it succeeds, and the entry of its page.
  module _ (i : ℕ) (s w : Sys P) (v : IsPool s) (lt : i < s.num_bufs)
      (held : (s.desc i).valid ≡ true) (idle : (s.desc i).pin_cnt ≡ 0) (same : Same s w)
      (saved : Saved s w i) where
    abbrev gone_state : Sys P
    gone_state = drop_entry (key_of s i) w

    pool' : IsPool w
    pool' = IsPool-Same v same

    dropped-Gone : (q : ℕ × ℤ) → Gone s gone_state i q
    dropped-Gone q =
        let (_, look) = drop_entry-frame_of (key_of s i) w pool'.sound.0 in
        elim (Bool-cases (page_key_eq q (key_of s i))) [
          | inl hit ↦
              inr ((page_key_eq_iff q (key_of s i)).0 hit, look q ∙ ground (arith, hit), held, idle)
          | inr miss ↦
              inl (look q ∙ ground (arith, miss) ∙ frame_of-eq s w q same.ht_size same.frame_table)
        ]

    pub dropped-Takes : Takes s gone_state i
    unfolding drop_entry
    dropped-Takes =
        let k = Same-Kept same in
        record {
          kept = record {
            pin_cnt = k.pin_cnt;
            valid = k.valid;
            dirty = k.dirty;
            file = k.file;
            page_no = k.page_no;
            num_bufs = k.num_bufs;
            ht_size = k.ht_size;
            pool = k.pool;
            files = k.files;
          };
          gone = dropped-Gone;
          saved = saved;
          pool = drop_entry-IsPool (key_of s i) w pool';
          lt = omega (arith, same.num_bufs);
          unlisted = λ q at. IsUnlisted-drop w i pool'.sound q (
              subst (λ k. frame_of (drop_entry k w) q ≡ some i)
                (ap (λ (d : ℕ → BufDesc). ((d i).file, (d i).page_no)) (sym same.desc)) at);
        }
