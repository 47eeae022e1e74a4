-- ===== src/Memory/Tests.antt =====
-- The theorems on addresses and memory at concrete inputs.
use go_lcc.Base.{ℕ, ◌≡◌, ◌*◌, ◌+◌, ◌^◌, arith}
use go_lcc.Status.{ok}
use go_lcc.Segment.{read_uint, write_uint}
use go_lcc.Segment.Safe.{new_memory_segment-Fits}
use go_lcc.Memory.{
  ProgramMemory, make_address, segment_of, index_of, new_program_memory, read_by, write_by,
  segment_const,
}
use go_lcc.Memory.Laws.{make_address_lem, load-store, write_by-constants}

-- Sixteen bytes of data and four of constants.
abbrev small_memory : ProgramMemory
unfolding new_program_memory
small_memory = new_program_memory 0 4 16 0 0 0

make_address_lem_example : (segment_of (make_address 5 8) ≡ 5) × (index_of (make_address 5 8) ≡ 8)
make_address_lem_example = make_address_lem 5 8 (omega arith) (omega arith)

-- The address of the eighth byte of the data.
abbrev data_8 : ℕ
data_8 = 5 * 2 ^ 24 + 8

load-store_example :
    ((write_by (write_uint 4) data_8 70000 small_memory).0 ≡ ok tt)
    × ((read_by (read_uint 4) data_8 (write_by (write_uint 4) data_8 70000 small_memory).1).0
        ≡ ok 70000)
    × ((write_by (write_uint 4) data_8 70000 small_memory).1.segment segment_const
        ≡ small_memory.segment segment_const)
unfolding segment_of index_of small_memory
load-store_example =
    load-store 4 16 small_memory data_8 70000 segment_const (omega arith, omega arith) (omega arith)
      (new_memory_segment-Fits 16 16 (omega arith) (omega arith)) (omega arith) (omega arith)
      (omega arith)

write_by-constants_example :
    (write_by (write_uint 2) (4 * 2 ^ 24) 7 small_memory).1.segment segment_const
    ≡ small_memory.segment segment_const
write_by-constants_example = write_by-constants 2 (4 * 2 ^ 24) 7 small_memory
