-- ===== src/Segment/Laws.antt =====
-- What the operations of a segment do to the bytes that it shows.
use go_lcc.Base.{
  ℕ, ◌+◌, ◌-◌, ◌^◌, ◌≤◌, ◌<◌, ◌≡◌, refl, arith, ap, ◌∙◌, leb, if◌then◌else◌, u32, length-splice,
  true, false, slice, splice, take-splice, ◌⊎◌, inl, inr, slice-splice_before, drop-splice,
}
use go_lcc.Status.{ok, err, stack_overflow, stack_underflow, invalid_address}
use go_lcc.Exec.{◌>>=◌}
use go_lcc.Bytes.{le_bytes, le_value, le_read}
use go_lcc.Bytes.Laws.{le_value-slice-splice, length-le_bytes}
use go_lcc.Segment.{
  MemorySegment, view, reslice, get_uint, put_uint, read_uint, write_uint, append_uint,
  truncate_uint,
}
use go_lcc.Segment.Safe.{Fits}

leb→either : (a b : ℕ) → ((a ≤ b) × (leb a b ≡ true)) ⊎ ((b < a) × (leb a b ≡ false))
leb→either a b = ground arith

module _ (c n : ℕ) (s : MemorySegment) (f : Fits c s) where
  -- A push that fits writes behind the length.
  pub append_uint-eq-ok :
      (v : ℕ)
      → s.len + n ≤ c
      → append_uint n v s
        ≡ (ok tt, record { array = splice s.array s.len (le_bytes n v); len = s.len + n })
  unfolding append_uint reslice put_uint ◌>>=◌
  append_uint-eq-ok v room =
      let here : u32 s.len ≡ s.len = omega arith in
      let there : u32 (s.len + n) ≡ s.len + n = omega arith in ground (arith, here, there)

  -- A push with no room changes nothing.
  pub append_uint-overflow : (v : ℕ) → c < s.len + n → append_uint n v s ≡ (err stack_overflow, s)
  unfolding append_uint ◌>>=◌
  append_uint-overflow v full = let here : u32 s.len ≡ s.len = omega arith in ground (arith, here)

  -- A pop from too few bytes changes nothing.
  pub truncate_uint-underflow : s.len < n → truncate_uint n s ≡ (err stack_underflow, s)
  unfolding truncate_uint ◌>>=◌
  truncate_uint-underflow few = ground arith

  -- A pop returns the n top bytes as a number and cuts them off.
  pub truncate_uint-eq-ok :
      n ≤ s.len
      → truncate_uint n s
        ≡ (ok (le_value (slice s.array (s.len - n) n)), record s { len = s.len - n })
  unfolding truncate_uint reslice get_uint le_read ◌>>=◌
  truncate_uint-eq-ok enough =
      let there : u32 (s.len - n) ≡ s.len - n = omega arith in ground (arith, there)

-- A push of n bytes to a segment of capacity c: where they fit it puts the value's n low bytes behind
-- the length, which grows by n, and where they do not it fails and changes nothing.
pub append_uint_lem :
    (c n : ℕ) (s : MemorySegment) (v : ℕ)
    → Fits c s
    → append_uint n v s ≡ (
        if leb (s.len + n) c
        then (ok tt, record { array = splice s.array s.len (le_bytes n v); len = s.len + n })
        else (err stack_overflow, s))
append_uint_lem c n s v f = elim (leb→either (s.len + n) c) [
  | inl (room, e) ↦ rw e (append_uint-eq-ok c n s f v room)
  | inr (full, e) ↦ rw e (append_uint-overflow c n s f v full)
]

-- A pop of n bytes: it gives the number of the top n bytes and cuts them off, or, where the segment
-- shows fewer, fails and changes nothing.
pub truncate_uint_lem :
    (c n : ℕ) (s : MemorySegment)
    → Fits c s
    → truncate_uint n s ≡ (
        if leb n s.len
        then (ok (le_value (slice s.array (s.len - n) n)), record s { len = s.len - n })
        else (err stack_underflow, s))
truncate_uint_lem c n s f = elim (leb→either n s.len) [
  | inl (enough, e) ↦ rw e (truncate_uint-eq-ok c n s f enough)
  | inr (few, e) ↦ rw e (truncate_uint-underflow c n s f few)
]

-- A push of a value below 256 ^ n to a segment with room for n bytes, then a pop of the same size: the
-- value comes back and the segment shows what it showed.
pub truncate_uint-append_uint :
    (c n : ℕ) (s : MemorySegment) (v : ℕ)
    → Fits c s
    → s.len + n ≤ c
    → v < 256 ^ n
    → ((truncate_uint n (append_uint n v s).1).0 ≡ ok v)
      × (view (truncate_uint n (append_uint n v s).1).1 ≡ view s)
truncate_uint-append_uint c n s v f room small =
    let pushed : append_uint n v s
        ≡ (ok tt, record { array = splice s.array s.len (le_bytes n v); len = s.len + n }) =
      append_uint-eq-ok c n s f v room in
    let t : MemorySegment = record {
      array = splice s.array s.len (le_bytes n v);
      len = s.len + n;
    } in
    let ft : Fits c t = record {
      within = room;
      backed = length-splice s.array s.len (le_bytes n v) ∙ f.backed;
      small = f.small;
    } in
    let popped : truncate_uint n t
        ≡ (ok (le_value (slice t.array (s.len + n - n) n)), record t { len = s.len + n - n }) =
      truncate_uint-eq-ok c n t ft (omega arith) in
    let back : s.len + n - n ≡ s.len = omega arith in
    rw (pushed, popped, back)
      (
        ap ok (le_value-slice-splice n s.array s.len v (omega (arith, f.backed)) small),
        take-splice s.array s.len (le_bytes n v) s.len (omega arith),
      )

module _ (c n : ℕ) (s : MemorySegment) (f : Fits c s) where
  -- A read in bounds gives the number of the bytes there.
  pub read_uint-eq-ok :
      (offset : ℕ)
      → offset + n ≤ s.len
      → read_uint n offset s ≡ (ok (le_value (slice s.array offset n)), s)
  unfolding read_uint get_uint le_read ◌>>=◌
  read_uint-eq-ok offset h = ground arith

  pub write_uint-eq-ok :
      (offset v : ℕ)
      → offset + n ≤ s.len
      → write_uint n offset v s ≡ (ok tt, record s { array = splice s.array offset (le_bytes n v) })
  unfolding write_uint put_uint ◌>>=◌
  write_uint-eq-ok offset v h = ground arith

-- A read behind the length fails, and so does a write, and nothing changes.
pub out_of_bounds :
    (n offset v : ℕ) (s : MemorySegment)
    → s.len < offset + n
    → (read_uint n offset s ≡ (err invalid_address, s))
      × (write_uint n offset v s ≡ (err invalid_address, s))
unfolding read_uint write_uint ◌>>=◌
out_of_bounds n offset v s h = (ground arith, ground arith)

write-Fits :
    (c n : ℕ) (s : MemorySegment) (offset v : ℕ)
    → Fits c s
    → Fits c (record s { array = splice s.array offset (le_bytes n v) })
write-Fits c n s offset v f = record {
  within = f.within;
  backed = length-splice s.array offset (le_bytes n v) ∙ f.backed;
  small = f.small;
}

-- A write in bounds of a value below 256 ^ n succeeds, and a read of the same size at the same offset
-- then gives the value.
pub read_uint-write_uint :
    (c n : ℕ) (s : MemorySegment) (offset v : ℕ)
    → Fits c s
    → offset + n ≤ s.len
    → v < 256 ^ n
    → ((write_uint n offset v s).0 ≡ ok tt)
      × ((read_uint n offset (write_uint n offset v s).1).0 ≡ ok v)
read_uint-write_uint c n s offset v f h small = rw (write_uint-eq-ok c n s f offset v h) (
  refl,
  rw (read_uint-eq-ok c n _ (write-Fits c n s offset v f) offset h)
      (ap ok (le_value-slice-splice n s.array offset v (omega (arith, f.backed)) small)),
)

-- A write leaves every read of bytes that it does not touch as it was, errors included.
pub read_uint-write_uint_ne :
    (c n : ℕ) (s : MemorySegment) (offset v m at : ℕ)
    → Fits c s
    → (at + m ≤ offset) ⊎ (offset + n ≤ at)
    → (read_uint m at (write_uint n offset v s).1).0 ≡ (read_uint m at s).0
unfolding read_uint get_uint le_read write_uint put_uint ◌>>=◌
read_uint-write_uint_ne c n s offset v m at f (inl before) = ground (
  arith,
  slice-splice_before s.array offset (le_bytes n v) at m before,
  length-splice s.array offset (le_bytes n v),
)
read_uint-write_uint_ne c n s offset v m at f (inr behind) = ground (
  arith,
  drop-splice s.array offset (le_bytes n v) at (omega (arith, length-le_bytes n v)),
  length-splice s.array offset (le_bytes n v),
)
