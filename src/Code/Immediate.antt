-- ===== src/Code/Immediate.antt =====
-- AppendImmediate and ReadImmediateChecked of cova/code-memory.go.
use go_lcc.Base.{
  ℕ, ◌+◌, ◌^◌, ◌≤◌, ◌<◌, ◌≡◌, refl, arith, ◌∙◌, false, ltb, ◌==◌, ◌++◌, length, length-append,
}
use go_lcc.Status.{ok}
use go_lcc.Exec.{◌>>=◌}
use go_lcc.Bytes.{le_bytes}
use go_lcc.Bytes.Laws.{length-le_bytes}
use go_lcc.Kinds.{ValueKind, size}
use go_lcc.Code.{CodeMemory, append_immediate, read_immediate_checked, read_immediate, read_at_ip}
use go_lcc.Code.Stream.{append_value-eq-ok, read_at_ip-append}

append_immediate-eq-ok :
    (kind : ValueKind) (code : CodeMemory) (v : ℕ)
    → 0 < size kind
    → v < 256 ^ size kind
    → append_immediate code kind v ≡ ok (code ++ le_bytes (size kind) v)
unfolding append_immediate size
append_immediate-eq-ok ValueKind.no_kind code v h small = absurd (omega arith)
append_immediate-eq-ok ValueKind.void code v h small = absurd (omega arith)
append_immediate-eq-ok (ValueKind.other n) code v h small = absurd (omega arith)
append_immediate-eq-ok kind code v h small = ground (
  arith,
  append_value-eq-ok 1 code v,
  append_value-eq-ok 2 code v,
  append_value-eq-ok 4 code v,
  append_value-eq-ok 8 code v,
)

read_immediate-eq-read_at_ip :
    (kind : ValueKind) (code : CodeMemory) (ip : ℕ)
    → 0 < size kind
    → read_immediate code kind ip ≡ read_at_ip (size kind) code ip
unfolding read_immediate size
read_immediate-eq-read_at_ip ValueKind.no_kind code ip h = absurd (omega arith)
read_immediate-eq-read_at_ip ValueKind.void code ip h = absurd (omega arith)
read_immediate-eq-read_at_ip (ValueKind.other n) code ip h = absurd (omega arith)
read_immediate-eq-read_at_ip _ code ip h = refl

-- An immediate of a kind that has a size, which fits that size, appended to code and followed by any
-- other code: the append adds its bytes, and the checked read at the place where it was appended
-- gives it back and moves the pointer behind it, which must be below 2 ^ 32.
pub read_immediate_checked-append_immediate :
    (kind : ValueKind) (before after : CodeMemory) (v : ℕ)
    → 0 < size kind
    → v < 256 ^ size kind
    → length before + size kind < 2 ^ 32
    → (append_immediate before kind v ≡ ok (before ++ le_bytes (size kind) v))
      × (read_immediate_checked (before ++ (le_bytes (size kind) v ++ after)) kind (length before)
          ≡ (ok v, length before + size kind))
unfolding read_immediate_checked ◌>>=◌
read_immediate_checked-append_immediate kind before after v h small short =
    let code : CodeMemory = before ++ (le_bytes (size kind) v ++ after) in
    let fits : length before + size kind ≤ length code = omega (
      arith,
      length-append before (le_bytes (size kind) v ++ after),
      length-append (le_bytes (size kind) v) after,
      length-le_bytes (size kind) v,
    ) in
    let sized : (size kind == 0) ≡ false = ground arith in
    let inside : ltb (length code) (length before + size kind) ≡ false = ground arith in
    (
      append_immediate-eq-ok kind before v h small,
      rw (sized, inside)
          (read_immediate-eq-read_at_ip kind code (length before) h
            ∙ read_at_ip-append (size kind) before after v small short),
    )
