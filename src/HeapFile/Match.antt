-- ===== src/HeapFile/Match.antt =====
-- heapfile.cpp, HeapFileScan::startScan and matchRec: the filter of a scan.
--
-- An integer is stored with its low byte first. The sign of a difference of floats is a parameter:
-- it may also be neither, where an operand is not a number.
use database_management_syst.Common.{
  ℕ, zero, suc, ◌+◌, ◌-◌, ◌*◌, ◌%◌, ◌^◌, Bool, true, false, ◌||◌, not, Option, none, some, List, [],
  ◌∷◌, ltb, leb, ◌==◌, if◌then◌else◌, length, get_or, ℤ, pos, negsuc, to_int32,
}
use database_management_syst.Status.{Res, ok, err, bad_scan_parm}
use database_management_syst.HeapFile.{
  Datatype, string, integer, float, Operator, lt, lte, eq, gte, gt, ne, Filter, HeapFile,
}

pub data Sign : Type 0 where
  negative null positive unordered : Sign

-- The sign of a float: `diff` compared with 0.0 by each operator.
abbrev pub holds : Operator → Sign → Bool
holds lt negative = true
holds lte negative = true
holds lte null = true
holds eq null = true
holds gte null = true
holds gte positive = true
holds gt positive = true
holds ne negative = true
holds ne positive = true
holds ne unordered = true
holds _ _ = false

abbrev pub sign_ℤ : ℤ → Sign
sign_ℤ (pos zero) = null
sign_ℤ (pos (suc n)) = positive
sign_ℤ (negsuc n) = negative

-- memcpy of `n` bytes from a place in a block.
unfoldable pub slice : List ℕ → ℕ → ℕ → List ℕ
slice bytes off zero = []
slice bytes off (suc n) = get_or bytes off 0 ∷ slice bytes (off + 1) n

-- The word of four bytes.
unfoldable pub word : List ℕ → ℕ
word bytes =
    get_or bytes 0 0
    + 256 * get_or bytes 1 0
    + 65536 * get_or bytes 2 0
    + 16777216 * get_or bytes 3 0

-- `iattr - ifltr`, which wraps around.
unfoldable pub int_diff : ℕ → ℕ → ℤ
int_diff a b = to_int32 (a % 2 ^ 32 + 2 ^ 32 - b % 2 ^ 32)

-- strncmp on at most `n` bytes: the first difference decides, and a common 0 ends it.
unfoldable pub strncmp : ℕ → List ℕ → List ℕ → Sign
strncmp zero a b = null
strncmp (suc n) a b =
    let x = get_or a 0 0 in
    let y = get_or b 0 0 in
    let rest = strncmp n (slice a 1 (length a - 1)) (slice b 1 (length b - 1)) in
    if ltb x y then negative else if ltb y x then positive else if x == 0 then null else rest

module _ (float_sign : List ℕ → List ℕ → Sign) where
  unfoldable pub diff_sign : Filter → List ℕ → Sign
  unfolding slice word int_diff strncmp
  diff_sign f rec = elim f.type [
    | integer ↦ sign_ℤ (int_diff (word (slice rec f.offset f.length)) (word f.value))
    | float ↦ float_sign (slice rec f.offset f.length) f.value
    | string ↦ strncmp f.length (slice rec f.offset (length rec - f.offset)) f.value
  ]

  unfoldable pub match_rec : Option Filter → List ℕ → Bool
  unfolding diff_sign
  match_rec none rec = true
  match_rec (some f) rec =
      if leb (length rec) (f.offset + f.length - 1) then false else holds f.op (diff_sign f rec)

abbrev pub size_fits : Datatype → ℕ → Bool
size_fits string n = true
size_fits integer n = n == 4
size_fits float n = n == 4

-- The parameters of a filtered scan; a null `value` asks for no filter.
unfoldable pub start_scan : ℤ → ℤ → Datatype → Option (List ℕ) → Operator → HeapFile → Res HeapFile
start_scan offset len type none op h = ok (record h { filter = none })
start_scan (negsuc o) len type (some value) op h = err bad_scan_parm
start_scan (pos o) (negsuc l) type (some value) op h = err bad_scan_parm
start_scan (pos o) (pos l) type (some value) op h =
    if l == 0 || not (size_fits type l)
    then err bad_scan_parm
    else ok (record h {
      filter = some (record { offset = o; length = l; type = type; value = value; op = op });
    })
