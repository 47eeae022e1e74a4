-- ===== src/Bytes.antt =====
-- The little-endian layout of unsigned integers in bytes: Go's `encoding/binary`, which
-- cova/segment-memory.go and cova/code-memory.go read and write through.
pub mod Laws
use go_lcc.Base.{
  ℕ, zero, suc, ◌+◌, ◌*◌, ◌/◌, ◌%◌, List, [], ◌∷◌, length, slice, splice, leb, if◌then◌else◌,
}
use go_lcc.Status.{Result, ok, panic}

-- The n low bytes of v, the lowest first.
unfoldable pub le_bytes : ℕ → ℕ → List ℕ
le_bytes zero v = []
le_bytes (suc n) v = (v % 256) ∷ le_bytes n (v / 256)

unfoldable pub le_value : List ℕ → ℕ
le_value [] = 0
le_value (b ∷ bs) = b + 256 * le_value bs

-- binary.LittleEndian.UintN(data[off:]) for N = 8 n, which panics if the bytes are not there.
unfoldable pub le_read : ℕ → List ℕ → ℕ → Result ℕ
le_read n bytes off =
    if leb (off + n) (length bytes) then ok (le_value (slice bytes off n)) else panic

-- binary.LittleEndian.PutUintN(data[off:], v)
unfoldable pub le_put : ℕ → List ℕ → ℕ → ℕ → Result (List ℕ)
le_put n bytes off v =
    if leb (off + n) (length bytes) then ok (splice bytes off (le_bytes n v)) else panic
