-- ===== src/Memory/Laws.antt =====
-- Addresses, and stores and loads through them.
use go_lcc.Base.{ℕ, ◌+◌, ◌^◌, ◌≤◌, ◌<◌, ◌≡◌, ◌≢◌, refl, arith, ◌∙◌, true, ◌==◌}
use go_lcc.Status.{ok}
use go_lcc.Exec.{Exec, lift, ◌>>=◌}
use go_lcc.Segment.{MemorySegment, read_uint, write_uint}
use go_lcc.Segment.Safe.{Fits}
use go_lcc.Segment.Laws.{read_uint-write_uint}
use go_lcc.Memory.{
  ProgramMemory, update, make_address, segment_of, index_of, segment_const, segment_count,
  segment_for_address, writable_segment_for_address, on_segment, read_by, write_by,
}

-- An address that is made of a segment's number, below 2 ^ 8, and an index below 2 ^ 24 names both.
pub make_address_lem :
    (segment index : ℕ)
    → segment < 2 ^ 8
    → index < 2 ^ 24
    → (segment_of (make_address segment index) ≡ segment)
      × (index_of (make_address segment index) ≡ index)
unfolding make_address segment_of index_of
make_address_lem segment index hs hi = (omega arith, omega arith)

-- An address of a segment that there is.
abbrev pub IsMapped : ℕ → Type 0
IsMapped address = (0 < segment_of address) × (segment_of address < segment_count)

segment_for_address-eq-ok :
    (address : ℕ) → IsMapped address → segment_for_address address ≡ ok (segment_of address)
unfolding segment_for_address
segment_for_address-eq-ok address h = ground arith

writable_segment_for_address-eq-ok :
    (address : ℕ)
    → IsMapped address
    → segment_of address ≢ segment_const
    → writable_segment_for_address address ≡ ok (segment_of address)
unfolding writable_segment_for_address segment_for_address
writable_segment_for_address-eq-ok address h ne = ground arith

read_by-eq-on_segment :
    (read : ℕ → Exec MemorySegment ℕ) (address : ℕ) (m : ProgramMemory)
    → IsMapped address
    → read_by read address m ≡ on_segment (segment_of address) (read (index_of address)) m
unfolding read_by lift ◌>>=◌
read_by-eq-on_segment read address m h = rw (segment_for_address-eq-ok address h) refl

write_by-eq-on_segment :
    (write : ℕ → ℕ → Exec MemorySegment (Unit {0})) (address v : ℕ) (m : ProgramMemory)
    → IsMapped address
    → segment_of address ≢ segment_const
    → write_by write address v m ≡ on_segment (segment_of address) (write (index_of address) v) m
unfolding write_by lift ◌>>=◌
write_by-eq-on_segment write address v m h ne =
    rw (writable_segment_for_address-eq-ok address h ne) refl

on_segment-update :
    {A : Type 0} (i : ℕ) (op : Exec MemorySegment A) (m : ProgramMemory) (s : MemorySegment)
    → (on_segment i op (update m i s)).0 ≡ (op s).0
unfolding on_segment update
on_segment-update i op m s = let same : (i == i) ≡ true = ground arith in rw same refl

-- A store of n bytes through an address of a segment that may be written, in its bounds, succeeds;
-- a load of n bytes through the same address then gives the value that was stored; and every other
-- segment is what it was.
pub load-store :
    (n c : ℕ) (m : ProgramMemory) (address v other : ℕ)
    → IsMapped address
    → segment_of address ≢ segment_const
    → Fits c (m.segment (segment_of address))
    → index_of address + n ≤ (m.segment (segment_of address)).len
    → v < 256 ^ n
    → other ≢ segment_of address
    → ((write_by (write_uint n) address v m).0 ≡ ok tt)
      × ((read_by (read_uint n) address (write_by (write_uint n) address v m).1).0 ≡ ok v)
      × ((write_by (write_uint n) address v m).1.segment other ≡ m.segment other)
load-store n c m address v other h ne f room small away =
    let s : MemorySegment = m.segment (segment_of address) in
    let (done, back) = read_uint-write_uint c n s (index_of address) v f room small in
    rw (write_by-eq-on_segment (write_uint n) address v m h ne) (
      (unfold on_segment in done),
      rw (read_by-eq-on_segment (read_uint n) address _ h) (
          unfold on_segment in
          on_segment-update (segment_of address) (read_uint n (index_of address)) m _ ∙ back),
      (unfold on_segment update in ground arith),
    )

-- No store of n bytes, through whatever address, changes the constants, whether it succeeds or fails.
pub write_by-constants :
    (n address v : ℕ) (m : ProgramMemory)
    → (write_by (write_uint n) address v m).1.segment segment_const ≡ m.segment segment_const
unfolding write_by writable_segment_for_address segment_for_address on_segment update lift ◌>>=◌
write_by-constants n address v m = ground arith
