-- ===== src/Segment/Safe.antt =====
-- The capacity and the bounds of a segment of cova/segment-memory.go.
use go_lcc.Base.{
  ℕ, ◌+◌, ◌-◌, ◌^◌, ◌≤◌, ◌<◌, ◌≡◌, arith, u32, length, length-splice, length-replicate, take, drop,
  slice, splice,
}
use go_lcc.Status.{ok}
use go_lcc.Exec.{◌>>=◌}
use go_lcc.Exec.Safe.{Safe, safe_rules}
use go_lcc.Bytes.{le_bytes, le_read}
use go_lcc.Kinds.{ValueKind}
use go_lcc.Segment.{
  MemorySegment, new_memory_segment, reslice, get_uint, put_uint, read_uint, write_uint,
  append_uint, append_from, truncate_uint, append_bits, truncate_bits, truncate_to, view,
  append_uint8, append_uint16, append_uint32, append_uint64, truncate_uint8, truncate_uint16,
  truncate_uint32, truncate_uint64,
}

-- A segment of capacity c, which is a `uint32`.
pub record Fits (c : ℕ) (s : MemorySegment) : Type 0 where
  pub within : s.len ≤ c
  pub backed : length s.array ≡ c
  pub small : c < 2 ^ 32

pub new_memory_segment-Fits : (n c : ℕ) → n ≤ c → c < 2 ^ 32 → Fits c (new_memory_segment n c)
unfolding new_memory_segment
new_memory_segment-Fits n c h k = record {
  within = h;
  backed = ground (arith, length-replicate {A = ℕ} c 0);
  small = k;
}

module _ (c : ℕ) where
  pub read_uint-Safe : (n offset : ℕ) → Safe (Fits c) (read_uint n offset)
  unfolding read_uint get_uint le_read ◌>>=◌
  read_uint-Safe n offset = record { keeps = λ s h. ground arith; no_panic = λ s h. ground arith }

  pub write_uint-Safe : (n offset v : ℕ) → Safe (Fits c) (write_uint n offset v)
  unfolding write_uint put_uint ◌>>=◌
  write_uint-Safe n offset v = record {
    keeps = λ s h. ground (arith, length-splice s.array offset (le_bytes n v));
    no_panic = λ s h. ground arith;
  }

  pub append_uint-Safe : (n v : ℕ) → Safe (Fits c) (append_uint n v)
  unfolding append_uint reslice put_uint ◌>>=◌
  append_uint-Safe n v = record {
    keeps = λ s h. ground (arith, length-splice s.array (u32 s.len) (le_bytes n v));
    no_panic = λ s h. ground arith;
  }

  pub truncate_uint-Safe : (n : ℕ) → Safe (Fits c) (truncate_uint n)
  unfolding truncate_uint reslice get_uint le_read ◌>>=◌
  truncate_uint-Safe n = record { keeps = λ s h. ground arith; no_panic = λ s h. ground arith }

  pub append_from-Safe :
      (source : MemorySegment) (offset n : ℕ) → Safe (Fits c) (append_from source offset n)
  unfolding append_from reslice ◌>>=◌
  append_from-Safe source offset n = record {
    keeps = λ s h. ground (
      arith,
      length-splice s.array (u32 s.len)
          (take (u32 (u32 s.len + n) - u32 s.len) (slice (view source) offset n)),
    );
    no_panic = λ s h. ground arith;
  }

  pub append_bits-Safe : (kind : ValueKind) (bits : ℕ) → Safe (Fits c) (append_bits kind bits)
  unfolding append_uint8 append_uint16 append_uint32 append_uint64 append_bits
  append_bits-Safe kind bits = search (safe_rules, append_uint-Safe)

  pub truncate_bits-Safe : (kind : ValueKind) → Safe (Fits c) (truncate_bits kind)
  unfolding truncate_uint8 truncate_uint16 truncate_uint32 truncate_uint64 truncate_bits
  truncate_bits-Safe kind = search (safe_rules, truncate_uint-Safe)

-- A segment that is cut and one that is written to, of capacities c and d.
abbrev pub BothFit : ℕ → ℕ → MemorySegment × MemorySegment → Type 0
BothFit c d (source, destination) = Fits c source × Fits d destination

pub truncate_to-Safe : (c d offset n : ℕ) → Safe (BothFit c d) (truncate_to offset n)
unfolding truncate_to
truncate_to-Safe c d offset n = record {
  keeps = λ (s, t) (hs, ht). (
    ground arith,
    ground (
      arith,
      length-splice t.array offset (take n (drop (u32 (u32 s.len + 2 ^ 32 - n)) (view s))),
    ),
  );
  no_panic = λ (s, t) (hs, ht). ground arith;
}

-- With enough bytes on the one side and enough room on the other the move succeeds: it cuts n bytes
-- off the source and leaves the destination's length.
pub truncate_to-eq-ok :
    (c d offset n : ℕ) (s t : MemorySegment)
    → Fits c s
    → Fits d t
    → 0 < n
    → n ≤ s.len
    → offset + n ≤ t.len
    → truncate_to offset n (s, t) ≡ (
      ok tt,
      (
        record s { len = s.len - n },
        record t { array = splice t.array offset (take n (drop (s.len - n) (view s))) },
      ),
    )
unfolding truncate_to
truncate_to-eq-ok c d offset n s t hs ht pos fits room =
    let from : u32 (u32 s.len + 2 ^ 32 - n) ≡ s.len - n = omega arith in ground (arith, from)

-- The destination keeps its length, whatever happens.
pub truncate_to-len :
    (offset n : ℕ) (s t : MemorySegment) → (truncate_to offset n (s, t)).1.1.len ≡ t.len
unfolding truncate_to
truncate_to-len offset n s t = ground arith
