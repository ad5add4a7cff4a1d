-- ===== src/Page/Memory.antt =====
-- The bytes of a page's data area, and the copies that page.cpp makes by memcpy and bcopy.
use database_management_syst.Common.{
  ℕ, zero, suc, ◌+◌, ◌-◌, ◌<◌, ◌≡◌, refl, List, [], ◌∷◌, arith, ltb, leb, ◌&&◌, if◌then◌else◌,
  length, get_or,
}

-- `n` bytes from offset `off` on.
unfoldable pub read_bytes : (ℕ → ℕ) → ℕ → ℕ → List ℕ
read_bytes m off zero = []
read_bytes m off (suc n) = m off ∷ read_bytes m (off + 1) n

-- memcpy(&data[dst], src, length of src)
abbrev pub memcpy : (ℕ → ℕ) → ℕ → List ℕ → ℕ → ℕ
memcpy m dst src k = if leb dst k && ltb k (dst + length src) then get_or src (k - dst) 0 else m k

-- bcopy(&data[src], &data[dst], cnt), which allows the two ranges to overlap
abbrev pub bcopy : (ℕ → ℕ) → ℕ → ℕ → ℕ → ℕ → ℕ
bcopy m src dst cnt k = if leb dst k && ltb k (dst + cnt) then m (src + (k - dst)) else m k

-- Two ranges that hold the same bytes read the same.
pub read_bytes_congr :
    (m m' : ℕ → ℕ) (off off' n : ℕ)
    → ((k : ℕ) → k < n → m (off + k) ≡ m' (off' + k))
    → read_bytes m off n ≡ read_bytes m' off' n
unfolding read_bytes
read_bytes_congr m m' off off' zero h = refl
read_bytes_congr m m' off off' (suc n) h =
    let start : m off ≡ m' off' = ground (arith, h 0) in
    let rest = read_bytes_congr m m' (off + 1) (off' + 1) n (λ k lt. ground (arith, h (k + 1))) in
    cc

pub read_bytes-eq :
    (m : ℕ → ℕ) (off : ℕ) (src : List ℕ)
    → ((k : ℕ) → k < length src → m (off + k) ≡ get_or src k 0)
    → read_bytes m off (length src) ≡ src
unfolding read_bytes
read_bytes-eq m off [] h = refl
read_bytes-eq m off (x ∷ src) h =
    let start : m off ≡ x = ground (arith, h 0) in
    let rest = read_bytes-eq m (off + 1) src (λ k lt. ground (arith, h (suc k))) in cc

-- What memcpy wrote is read back.
pub read_bytes-memcpy :
    (m : ℕ → ℕ) (dst : ℕ) (src : List ℕ) → read_bytes (memcpy m dst src) dst (length src) ≡ src
read_bytes-memcpy m dst src = read_bytes-eq _ dst src (λ k lt. ground arith)
