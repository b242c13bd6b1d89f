-- ===== src/Arch/Ubsan.antt =====
-- kernel/src/arch/ubsan.cpp: the handlers that the compiler calls where the behaviour is undefined.
--
-- A handler panics with the text "<what> in file <file>, line <line>, column <column>"; it returns the
-- parts of that text here. The values that some handlers get are numbers.
pub mod Violations
use epsilon_os.Base.{ℕ}
use Prim.Native.String.{String}
use epsilon_os.Arch.Ubsan.Violations.{
  SourceLocation, InvalidValueData, NonnullArgData, NonnullReturnData, OverflowData, VlaBoundData,
  ShiftOutOfBoundsData, OutOfBoundsData, TypeMismatchData, AlignmentAssumptionData, UnreachableData,
  ImplicitConversionData, InvalidBuiltinData, PointerOverflowData, FunctionTypeMismatchData,
}

pub record Report : Type 0 where
  pub what : String
  pub file : String
  pub line : ℕ
  pub column : ℕ

unfoldable pub print_location : SourceLocation → String → Report
print_location l s = record { what = s; file = l.file; line = l.line; column = l.column }

unfoldable pub handle_load_invalid_value : InvalidValueData → ℕ → Report
unfolding print_location
handle_load_invalid_value d value = print_location d.location "load invalid value"

unfoldable pub handle_nonnull_arg : NonnullArgData → Report
unfolding print_location
handle_nonnull_arg d = print_location d.location "nonull arg"

unfoldable pub handle_nullability_arg : NonnullArgData → Report
unfolding print_location
handle_nullability_arg d = print_location d.location "nullability arg"

unfoldable pub handle_nonnull_return_v1 : NonnullReturnData → SourceLocation → Report
unfolding print_location
handle_nonnull_return_v1 d location = print_location location "nonull return"

unfoldable pub handle_nullability_return_v1 : NonnullReturnData → SourceLocation → Report
unfolding print_location
handle_nullability_return_v1 d location = print_location location "nullability return"

unfoldable pub handle_vla_bound_not_positive : VlaBoundData → ℕ → Report
unfolding print_location
handle_vla_bound_not_positive d value = print_location d.location "bound not positive"

unfoldable pub handle_add_overflow : OverflowData → ℕ → ℕ → Report
unfolding print_location
handle_add_overflow d lhs rhs = print_location d.location "add overflow"

unfoldable pub handle_sub_overflow : OverflowData → ℕ → ℕ → Report
unfolding print_location
handle_sub_overflow d lhs rhs = print_location d.location "sub overflow"

unfoldable pub handle_negate_overflow : OverflowData → ℕ → Report
unfolding print_location
handle_negate_overflow d value = print_location d.location "negate overflow"

unfoldable pub handle_mul_overflow : OverflowData → ℕ → ℕ → Report
unfolding print_location
handle_mul_overflow d lhs rhs = print_location d.location "mul overflow"

unfoldable pub handle_shift_out_of_bounds : ShiftOutOfBoundsData → ℕ → ℕ → Report
unfolding print_location
handle_shift_out_of_bounds d lhs rhs = print_location d.location "shift out of bounds"

unfoldable pub handle_divrem_overflow : OverflowData → ℕ → ℕ → Report
unfolding print_location
handle_divrem_overflow d lhs rhs = print_location d.location "divrem overflow"

unfoldable pub handle_out_of_bounds : OutOfBoundsData → ℕ → Report
unfolding print_location
handle_out_of_bounds d value = print_location d.location "out of bounds"

unfoldable pub handle_type_mismatch_v1 : TypeMismatchData → ℕ → Report
unfolding print_location
handle_type_mismatch_v1 d value = print_location d.location "type mismatch"

unfoldable pub handle_alignment_assumption : AlignmentAssumptionData → ℕ → ℕ → ℕ → Report
unfolding print_location
handle_alignment_assumption d value other third = print_location d.location "alignment assumption"

unfoldable pub handle_builtin_unreachable : UnreachableData → Report
unfolding print_location
handle_builtin_unreachable d = print_location d.location "unreachable"

unfoldable pub handle_missing_return : UnreachableData → Report
unfolding print_location
handle_missing_return d = print_location d.location "missing return"

unfoldable pub handle_implicit_conversion : ImplicitConversionData → ℕ → ℕ → Report
unfolding print_location
handle_implicit_conversion d lhs rhs = print_location d.location "implicit conversion"

unfoldable pub handle_invalid_builtin : InvalidBuiltinData → Report
unfolding print_location
handle_invalid_builtin d = print_location d.location "invalid builtin"

unfoldable pub handle_pointer_overflow : PointerOverflowData → ℕ → ℕ → Report
unfolding print_location
handle_pointer_overflow d lhs rhs = print_location d.location "pointer overflow"

unfoldable pub handle_function_type_mismatch : FunctionTypeMismatchData → ℕ → Report
unfolding print_location
handle_function_type_mismatch d value = print_location d.location "function type mismatch"
