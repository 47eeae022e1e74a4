-- ===== src/Segment/Tests.antt =====
-- The theorems on segments at concrete inputs.
use go_lcc.Base.{◌≡◌, refl, arith, ◌+◌, leb, [], ◌∷◌, inl, if◌then◌else◌, splice, slice}
use go_lcc.Status.{ok, err, stack_overflow, stack_underflow}
use go_lcc.Bytes.{le_bytes, le_value}
use go_lcc.Segment.{MemorySegment, view, append_uint, truncate_uint, read_uint, write_uint}
use go_lcc.Segment.Safe.{Fits}
use go_lcc.Segment.Laws.{
  append_uint_lem, truncate_uint_lem, truncate_uint-append_uint, read_uint-write_uint,
  read_uint-write_uint_ne,
}

-- A segment that shows three bytes of eight.
abbrev three : MemorySegment
three = record { array = 1 ∷ 2 ∷ 3 ∷ 4 ∷ 5 ∷ 6 ∷ 7 ∷ 8 ∷ []; len = 3 }

three-Fits : Fits 8 three
three-Fits = record { within = omega arith; backed = refl; small = omega arith }

append_uint_lem_example : append_uint 8 258 three ≡ (
    if leb (3 + 8) 8
    then (ok tt, record { array = splice three.array 3 (le_bytes 8 258); len = 11 })
    else (err stack_overflow, three))
append_uint_lem_example = append_uint_lem 8 8 three 258 three-Fits

truncate_uint_lem_example : truncate_uint 2 three ≡ (
    if leb 2 3
    then (ok (le_value (slice three.array 1 2)), record three { len = 1 })
    else (err stack_underflow, three))
truncate_uint_lem_example = truncate_uint_lem 8 2 three three-Fits

truncate_uint-append_uint_example :
    ((truncate_uint 4 (append_uint 4 70000 three).1).0 ≡ ok 70000)
    × (view (truncate_uint 4 (append_uint 4 70000 three).1).1 ≡ view three)
truncate_uint-append_uint_example =
    truncate_uint-append_uint 8 4 three 70000 three-Fits (omega arith) (omega arith)

read_uint-write_uint_example :
    ((write_uint 2 1 515 three).0 ≡ ok tt)
    × ((read_uint 2 1 (write_uint 2 1 515 three).1).0 ≡ ok 515)
read_uint-write_uint_example =
    read_uint-write_uint 8 2 three 1 515 three-Fits (omega arith) (omega arith)

read_uint-write_uint_ne_example :
    (read_uint 1 0 (write_uint 2 1 515 three).1).0 ≡ (read_uint 1 0 three).0
read_uint-write_uint_ne_example =
    read_uint-write_uint_ne 8 2 three 1 515 1 0 three-Fits (inl (omega arith))
