-- ===== src/Compiler.antt =====
-- cova/compile.go: the operators that the compiler emits instructions for.
use go_lcc.Base.{Bool, true, false, Option, none, some}
use go_lcc.Kinds.{ArithmeticOp, CompareOp}
use go_lcc.Ast.{BinaryOp, AssignOp}

-- isComparisonOperator
unfoldable pub is_comparison_operator : BinaryOp → Bool
is_comparison_operator BinaryOp.equal = true
is_comparison_operator BinaryOp.not_equal = true
is_comparison_operator BinaryOp.less = true
is_comparison_operator BinaryOp.greater = true
is_comparison_operator BinaryOp.less_equal = true
is_comparison_operator BinaryOp.greater_equal = true
is_comparison_operator _ = false

-- comparisonOperators; `none` is a missing key.
unfoldable pub comparison_operators : BinaryOp → Option CompareOp
comparison_operators BinaryOp.equal = some CompareOp.equal
comparison_operators BinaryOp.not_equal = some CompareOp.not_equal
comparison_operators BinaryOp.less = some CompareOp.less
comparison_operators BinaryOp.less_equal = some CompareOp.less_equal
comparison_operators BinaryOp.greater = some CompareOp.greater
comparison_operators BinaryOp.greater_equal = some CompareOp.greater_equal
comparison_operators _ = none

-- arithmeticOperators
unfoldable pub arithmetic_operators : BinaryOp → Option ArithmeticOp
arithmetic_operators BinaryOp.add = some ArithmeticOp.add
arithmetic_operators BinaryOp.sub = some ArithmeticOp.sub
arithmetic_operators BinaryOp.mul = some ArithmeticOp.mul
arithmetic_operators BinaryOp.div = some ArithmeticOp.div
arithmetic_operators BinaryOp.modulo = some ArithmeticOp.modulo
arithmetic_operators BinaryOp.bitwise_and = some ArithmeticOp.bitwise_and
arithmetic_operators BinaryOp.bitwise_or = some ArithmeticOp.bitwise_or
arithmetic_operators BinaryOp.bitwise_xor = some ArithmeticOp.bitwise_xor
arithmetic_operators BinaryOp.shift_left = some ArithmeticOp.shift_left
arithmetic_operators BinaryOp.shift_right = some ArithmeticOp.shift_right
arithmetic_operators _ = none

-- isIntegerBinaryOperator
unfoldable pub is_integer_binary_operator : BinaryOp → Bool
is_integer_binary_operator BinaryOp.modulo = true
is_integer_binary_operator BinaryOp.bitwise_and = true
is_integer_binary_operator BinaryOp.bitwise_or = true
is_integer_binary_operator BinaryOp.bitwise_xor = true
is_integer_binary_operator BinaryOp.shift_left = true
is_integer_binary_operator BinaryOp.shift_right = true
is_integer_binary_operator _ = false

-- compoundBinaryOperators
unfoldable pub compound_binary_operators : AssignOp → Option BinaryOp
compound_binary_operators AssignOp.simple = none
compound_binary_operators AssignOp.add = some BinaryOp.add
compound_binary_operators AssignOp.sub = some BinaryOp.sub
compound_binary_operators AssignOp.mul = some BinaryOp.mul
compound_binary_operators AssignOp.div = some BinaryOp.div
compound_binary_operators AssignOp.modulo = some BinaryOp.modulo
compound_binary_operators AssignOp.shift_left = some BinaryOp.shift_left
compound_binary_operators AssignOp.shift_right = some BinaryOp.shift_right
compound_binary_operators AssignOp.bitwise_and = some BinaryOp.bitwise_and
compound_binary_operators AssignOp.bitwise_xor = some BinaryOp.bitwise_xor
compound_binary_operators AssignOp.bitwise_or = some BinaryOp.bitwise_or
