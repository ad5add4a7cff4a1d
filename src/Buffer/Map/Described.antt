-- ===== src/Buffer/Map/Described.antt =====
-- A change of the descriptor of a frame that holds a page: the pool shows the same pages.
use database_management_syst.Common.{
  ℕ, ◌<◌, ◌≡◌, ◌≢◌, sym, ap, ◌∙◌, inl, inr, true, false, some, arith, ◌==◌, ==_iff, Bool-cases, ℤ,
  page_key, page_key_eq, page_key_eq_iff,
}
use mathlib.Core.Bool.{false≢true}
use database_management_syst.Platform.{Platform}
use database_management_syst.System.{Sys, BufDesc}
use database_management_syst.Buffer.{set_frame}
use database_management_syst.Buffer.Sound.{frame_of}
use database_management_syst.Buffer.Calls.{IsPool, set_frame-IsPool}
use database_management_syst.Buffer.Map.Evict.{key_of}
use database_management_syst.Buffer.Map.View.{Pages, Shows, ShowsPages}

module _ {P : Platform} where
  -- A frame holds one page.
  pub one_page :
      (k q : ℕ × ℤ) (i : ℕ) (s : Sys P)
      → IsPool s
      → frame_of s k ≡ some i
      → frame_of s q ≡ some i
      → q ≡ k
  one_page k q i s v at at' =
      let (_, _, f, p) = v.sound.1 k i at in
      let (_, _, f', p') = v.sound.1 q i at' in λ x. ((sym f' ∙ f) x, (sym p' ∙ p) x)

  -- A change of the descriptor of frame i, which holds the page k.
  module _ (k : ℕ × ℤ) (i : ℕ) (d : BufDesc) (s : Sys P) (a b : Pages P) (v : ShowsPages s a)
      (at : frame_of s k ≡ some i) (valid : d.valid ≡ (s.desc i).valid)
      (file : d.file ≡ (s.desc i).file) (page_no : d.page_no ≡ (s.desc i).page_no)
      (dirty : d.dirty ≡ false → (s.desc i).dirty ≡ false)
      (content : (q : ℕ × ℤ) → b.content q ≡ a.content q)
      (clean : d.dirty ≡ false → (b.changed k ≡ false) → a.changed k ≡ false)
      (pins : b.changed k ≡ true → (0 < d.pin_cnt) × (a.changed k ≡ true))
      (others : (q : ℕ × ℤ) → q ≢ k → b.changed q ≡ a.changed q) where
    abbrev t : Sys P
    t = set_frame i d s

    here : (q : ℕ × ℤ) (j : ℕ) → page_key_eq q k ≡ true → frame_of s q ≡ some j → (q ≡ k) × (j ≡ i)
    here q j hit at' =
        let same = (page_key_eq_iff q k).0 hit in
        let at'' : frame_of s k ≡ some j = rw same at at' in (same, ground arith)

    other :
        (q : ℕ × ℤ) (j : ℕ)
        → page_key_eq q k ≡ false
        → frame_of s q ≡ some j
        → (q ≢ k) × (t.desc j ≡ s.desc j)
    other q j miss at' =
        let ne : q ≢ k = λ e. ground (arith, page_key_eq_iff q k) in
        let there : j ≢ i = λ e. ne (one_page k q i s v.pool at (at' ∙ ap some e)) in
        (ne, ground (arith, ==_iff j i))

    desc-here : t.desc i ≡ d
    desc-here = ground (arith, ==_iff i i)

    frame-Shows : (q : ℕ × ℤ) (r : P.Raw) → Shows s a q r → Shows t b q r
    frame-Shows q r (within, out) = (
      λ j at'.
          let (block, on) = within j at' in
          (
            block,
            λ c un. elim (Bool-cases (page_key_eq q k)) [
              | inl hit ↦
                  let (same, there) = here q j hit at' in
                  let low : d.dirty ≡ false =
                    ap (λ x. x.dirty) (sym desc-here ∙ ap t.desc (sym there)) ∙ c in
                  on (ap (λ (n : ℕ). (s.desc n).dirty) there ∙ dirty low)
                    (ap a.changed same ∙ clean low (ap b.changed (sym same) ∙ un))
              | inr miss ↦
                  let (ne, e) = other q j miss at' in
                  on (ap (λ x. x.dirty) (sym e) ∙ c) (sym (others q ne) ∙ un)
            ],
          ),
      out,
    )

    frame-pinned :
        (q : ℕ × ℤ) (j : ℕ) → frame_of s q ≡ some j → b.changed q ≡ true → 0 < (t.desc j).pin_cnt
    frame-pinned q j at' changed = elim (Bool-cases (page_key_eq q k)) [
      | inl hit ↦
          let (same, there) = here q j hit at' in
          let (pos_pin, _) = pins (ap b.changed (sym same) ∙ changed) in
          rw (there, desc-here) pos_pin
      | inr miss ↦
          let (ne, e) = other q j miss at' in rw e (v.pinned q j at' (sym (others q ne) ∙ changed))
    ]

    desc-other : (j : ℕ) → (j == i) ≡ false → t.desc j ≡ s.desc j
    desc-other j miss = ground (arith, miss)

    same_fields : (j : ℕ) → ((t.desc j).valid ≡ (s.desc j).valid) × (key_of t j ≡ key_of s j)
    same_fields j = elim (Bool-cases (j == i)) [
      | inl hit ↦
          let e : j ≡ i = (==_iff j i).0 hit in rw (e, desc-here) (valid, λ x. (file x, page_no x))
      | inr miss ↦ (
        ground arith,
        λ x. (
          ap (λ (y : BufDesc). y.file) (desc-other j miss) x,
          ap (λ (y : BufDesc). y.page_no) (desc-other j miss) x,
        ),
      )
    ]

    frame-unused : (j : ℕ) → j < s.num_bufs → (t.desc j).valid ≡ false → (t.desc j).dirty ≡ false
    frame-unused j lt idle = elim (Bool-cases (j == i)) [
      | inl hit ↦
          let e : j ≡ i = (==_iff j i).0 hit in
          let (_, held, _, _) = v.pool.sound.1 k i at in
          absurd (false≢true (sym idle ∙ (same_fields j).0 ∙ rw e held))
      | inr miss ↦
          ap (λ (y : BufDesc). y.dirty) (desc-other j miss)
          ∙ v.unused j (λ x. x) lt (sym (same_fields j).0 ∙ idle)
    ]

    pub frame-ShowsPages : ShowsPages t b
    frame-ShowsPages = record {
      pool = set_frame-IsPool i d s v.pool valid file page_no;
      apart = v.apart;
      listed = λ j free lt held.
          let (listed, o) = v.listed j free lt (sym (same_fields j).0 ∙ held) in
          let e = (same_fields j).1 in (rw e listed, rw (ap (λ (y : ℕ × ℤ). y.0) e) o);
      unused = λ j _ lt idle. frame-unused j lt idle;
      pinned = frame-pinned;
      pages = λ q r at'.
          let (o, shows) = v.pages q r (sym (content q) ∙ at') in (o, frame-Shows q r shows);
    }
