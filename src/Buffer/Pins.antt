-- ===== src/Buffer/Pins.antt =====
-- What the callers of the buffer manager get: the page that they asked for, pinned in its frame.
use database_management_syst.Common.{
  ℕ, ◌<◌, ◌≡◌, refl, subst, none, some, arith, inl, inr, Bool-cases, if◌then◌else◌, ==_iff, ℤ,
  eq_ℤ_iff, page_key, page_key_eq_iff,
}
use database_management_syst.Status.{Res, ok, err, undefined}
use database_management_syst.Monad.{◌>>=◌, and_then-ok}
use database_management_syst.Platform.{Platform}
use database_management_syst.System.{Sys, set_desc}
use database_management_syst.BufHash
use database_management_syst.HashTable
use database_management_syst.HashTable.Laws.{view, lookup-ok}
use database_management_syst.Buffer.{
  set_frame, alloc_buf, fill_frame, enter_frame, store_table, load_page, pin_frame, on_lookup,
  read_page,
}
use database_management_syst.Buffer.Sound.{frame_of, HoldsPage}
use database_management_syst.Buffer.Calls.{IsPool, read_page-Preserves}

-- A page that is entered is found.
insert-found :
    (n : ℕ) (k : ℕ × ℤ) (i : ℕ) (t u : BufHash.FrameTable)
    → BufHash.insert n k i t ≡ ok u
    → (if BufHash.in_array n k then view (BufHash.hash n) u k else none) ≡ some i
unfolding BufHash.insert HashTable.insert view HashTable.find
insert-found n k i t u e =
    ground (arith, page_key_eq_iff k k, eq_ℤ_iff (BufHash.hash n k) (BufHash.hash n k))

pub lookup-found :
    (n : ℕ) (k : ℕ × ℤ) (i : ℕ) (t : BufHash.FrameTable)
    → BufHash.lookup n k t ≡ ok i
    → (if BufHash.in_array n k then view (BufHash.hash n) t k else none) ≡ some i
unfolding BufHash.lookup
lookup-found n k i t e = elim (Bool-cases (BufHash.in_array n k)) [
  | inl lies ↦ rw lies (lookup-ok (BufHash.hash n) k t (rw lies at e))
  | inr out ↦ absurd (ground arith)
]

module _ {P : Platform} where
  -- The table leads to the frame, and somebody has it pinned.
  abbrev pub IsPinnedAt : ℕ × ℤ → ℕ → Sys P → Type 0
  IsPinnedAt k i t = (frame_of t k ≡ some i) × (0 < (t.desc i).pin_cnt)

  stored :
      (k : ℕ × ℤ) (i : ℕ) (s t : Sys P) (r : Res BufHash.FrameTable)
      → BufHash.insert s.ht_size k i s.frame_table ≡ r
      → store_table (set_frame i (set_desc k.0 k.1) s) r ≡ (ok tt, t)
      → IsPinnedAt k i t
  unfolding set_desc
  stored k i s t (ok u) inserted e =
      subst (λ (y : Res (Unit {0}) × Sys P). IsPinnedAt k i y.1) e
        (insert-found s.ht_size k i s.frame_table u inserted, ground (arith, ==_iff i i))
  stored k i s t (err x) inserted e = absurd (ground arith)
  stored k i s t undefined inserted e = absurd (ground arith)

  enter_frame-IsPinnedAt :
      (k : ℕ × ℤ) (i : ℕ) (s t : Sys P) → enter_frame k.0 k.1 i s ≡ (ok tt, t) → IsPinnedAt k i t
  unfolding enter_frame
  enter_frame-IsPinnedAt k i s t e =
      stored k i s t (BufHash.insert s.ht_size k i s.frame_table) refl e

  -- The result that carries the frame.
  abbrev Pinned : ℕ × ℤ → Res ℕ × Sys P → Type 0
  Pinned k (ok i, t) = IsPinnedAt k i t
  Pinned k (err e, t) = Unit {0}
  Pinned k (undefined, t) = Unit {0}

  load_page-Pinned :
      (k : ℕ × ℤ) (i : ℕ) (s t : Sys P) → load_page k.0 k.1 s ≡ (ok i, t) → IsPinnedAt k i t
  unfolding load_page ◌>>=◌
  load_page-Pinned k i s t e =
      let (frame, u, _, e1) = and_then-ok _ (alloc_buf s) e in
      let (_, v, _, e2) = and_then-ok _ (fill_frame k.0 k.1 frame u) e1 in
      let (_, w, entered, e3) = and_then-ok _ (enter_frame k.0 k.1 frame v) e2 in
      subst (Pinned k) e3 (enter_frame-IsPinnedAt k frame v w entered)

  found_cases :
      (k : ℕ × ℤ) (i : ℕ) (s t : Sys P) (r : Res ℕ)
      → BufHash.lookup s.ht_size k s.frame_table ≡ r
      → on_lookup r (λ frame u. (ok frame, pin_frame frame u)) (λ e. load_page k.0 k.1) s
        ≡ (ok i, t)
      → IsPinnedAt k i t
  unfolding pin_frame
  found_cases k i s t (ok frame) found e =
      subst (Pinned k) e
        (lookup-found s.ht_size k frame s.frame_table found, ground (arith, ==_iff frame frame))
  found_cases k i s t (err x) found e = load_page-Pinned k i s t e
  found_cases k i s t undefined found e = absurd (ground arith)

  -- A readPage that succeeds on a sound pool gives a frame of the pool that is valid, holds the
  -- page asked for and is pinned, and the hash table leads to it.
  pub read_page-HoldsPage :
      (k : ℕ × ℤ) (i : ℕ) (s t : Sys P)
      → IsPool s
      → read_page k.0 k.1 s ≡ (ok i, t)
      → HoldsPage t k i × IsPinnedAt k i t
  unfolding read_page
  read_page-HoldsPage k i s t v e =
      let at = found_cases k i s t (BufHash.lookup s.ht_size k s.frame_table) refl e in
      let pool = subst (λ (y : Res ℕ × Sys P). IsPool y.1) e (read_page-Preserves k.0 k.1 s v) in
      (pool.sound.1 k i at.0, at)
