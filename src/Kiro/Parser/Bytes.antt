-- ===== src/Kiro/Parser/Bytes.antt =====
-- What the parser takes from Rust's slices, integers and strings. Reading past the end of a slice
-- is a fault (Rust panics). A `String` is the list of its UTF-8 bytes.
use kiro_rs_tool.Prelude.{
  ℕ, ◌+◌, ◌-◌, ◌*◌, ◌≤◌, ◌<◌, ◌≡◌, ap, ◌∙◌, ◌&&◌, Option, none, some, List, ◌++◌, arith, leb,
  if◌then◌else◌, length, get_elem?, take, drop, get_elem?-append, get_elem?_total, length-append,
  take-append, drop-append, length-drop,
}
use kiro_rs_tool.Kiro.Parser.Error.{ParseResult, ok, fault, out_of_bounds, ◌>>=◌, Returns}

index_or : Option ℕ → ParseResult ℕ
index_or none = fault out_of_bounds
index_or (some b) = ok b

-- `buffer[i]`
unfoldable pub index : List ℕ → ℕ → ParseResult ℕ
unfolding index_or
index buffer i = index_or (get_elem? buffer i)

-- `&buffer[from..to]`
unfoldable pub slice : List ℕ → ℕ → ℕ → ParseResult (List ℕ)
slice buffer from to =
    if leb from to && leb to (length buffer)
    then ok (take (to - from) (drop from buffer))
    else fault out_of_bounds

-- `u16::from_be_bytes([buffer[i], buffer[i + 1]])`
unfoldable pub be16 : List ℕ → ℕ → ParseResult ℕ
unfolding index
be16 buffer i = do a ← index buffer i; b ← index buffer (i + 1); ok (a * 256 + b)

-- `u32::from_be_bytes([buffer[i], …, buffer[i + 3]])`
unfoldable pub be32 : List ℕ → ℕ → ParseResult ℕ
unfolding be16
be32 buffer i = do high ← be16 buffer i; low ← be16 buffer (i + 2); ok (high * 65536 + low)

-- `u64::from_be_bytes` of eight bytes
unfoldable pub be64 : List ℕ → ℕ → ParseResult ℕ
unfolding be32
be64 buffer i = do high ← be32 buffer i; low ← be32 buffer (i + 4); ok (high * 4294967296 + low)

module _ (buffer : List ℕ) (i : ℕ) where
  pub slice-Returns : (to : ℕ) → i ≤ to → to ≤ length buffer → Returns (slice buffer i to)
  unfolding slice
  slice-Returns to h k = ground arith

  pub slice_lem :
      (to : ℕ)
      → i ≤ to
      → to ≤ length buffer
      → slice buffer i to ≡ ok (take (to - i) (drop i buffer))
  unfolding slice
  slice_lem to h k = ground arith

pub slice_prefix :
    (buffer : List ℕ) (to : ℕ) → to ≤ length buffer → slice buffer 0 to ≡ ok (take to buffer)
slice_prefix buffer to h =
    slice_lem buffer 0 to (omega arith) h ∙ ap (λ k. ok (take k buffer)) (omega arith)

-- A read inside the buffer gives a number.
abbrev pub Reads : ParseResult ℕ → Type 0
Reads r = (v : ℕ) × (r ≡ ok v)

pub index_total : (buffer : List ℕ) (i : ℕ) → i < length buffer → Reads (index buffer i)
unfolding index
index_total buffer i h = let (b, e) = get_elem?_total buffer i h in (b, rw (e, index_or))

-- Two numbers read one after the other.
Reads-two :
    (m n : ParseResult ℕ) (f : ℕ → ℕ → ℕ) → Reads m → Reads n → Reads (do a ← m; b ← n; ok (f a b))
Reads-two m n f (a, d) (b, e) = (f a b, rw (d, e))

pub be16_total : (buffer : List ℕ) (i : ℕ) → i + 2 ≤ length buffer → Reads (be16 buffer i)
unfolding be16
be16_total buffer i h =
    Reads-two (index buffer i) (index buffer (i + 1)) _ (index_total buffer i (omega arith))
      (index_total buffer (i + 1) (omega arith))

pub be32_total : (buffer : List ℕ) (i : ℕ) → i + 4 ≤ length buffer → Reads (be32 buffer i)
unfolding be32
be32_total buffer i h =
    Reads-two (be16 buffer i) (be16 buffer (i + 2)) _ (be16_total buffer i (omega arith))
      (be16_total buffer (i + 2) (omega arith))

pub be64_total : (buffer : List ℕ) (i : ℕ) → i + 8 ≤ length buffer → Reads (be64 buffer i)
unfolding be64
be64_total buffer i h =
    Reads-two (be32 buffer i) (be32 buffer (i + 4)) _ (be32_total buffer i (omega arith))
      (be32_total buffer (i + 4) (omega arith))

-- Reads inside the buffer do not see what is appended to it.
module _ (buffer more : List ℕ) where
  pub index-append : (i : ℕ) → i < length buffer → index (buffer ++ more) i ≡ index buffer i
  unfolding index
  index-append i h = ap index_or (get_elem?-append buffer more i h)

  pub be16-append : (i : ℕ) → i + 2 ≤ length buffer → be16 (buffer ++ more) i ≡ be16 buffer i
  unfolding be16
  be16-append i h = rw (index-append i (omega arith), index-append (i + 1) (omega arith))

  pub be32-append : (i : ℕ) → i + 4 ≤ length buffer → be32 (buffer ++ more) i ≡ be32 buffer i
  unfolding be32
  be32-append i h = rw (be16-append i (omega arith), be16-append (i + 2) (omega arith))

  pub slice-append :
      (from to : ℕ)
      → from ≤ to
      → to ≤ length buffer
      → slice (buffer ++ more) from to ≡ slice buffer from to
  slice-append from to h k = rw (
    slice_lem buffer from to h k,
    slice_lem (buffer ++ more) from to h (omega (arith, length-append buffer more)),
    drop-append from buffer more (omega arith),
    take-append (to - from) (drop from buffer) more (omega (arith, length-drop from buffer)),
  )

-- Reads return.
pub Reads-Returns : (r : ParseResult ℕ) → Reads r → Returns r
Reads-Returns r (v, e) = rw e tt
