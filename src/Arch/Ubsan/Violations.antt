-- ===== src/Arch/Ubsan/Violations.antt =====
-- kernel/include/arch/ubsan.hpp: what the compiler passes to the handlers of undefined behaviour.
--
-- A reference to a type descriptor stands for the descriptor. A field `type` is called `checked_type`.
use epsilon_os.Base.{ℕ, ℤ}
use Prim.Native.String.{String}

pub record SourceLocation : Type 0 where
  pub file : String
  pub line : ℕ
  pub column : ℕ

pub record TypeDescriptor : Type 0 where
  pub kind : ℕ
  pub info : ℕ
  pub name : String

pub record InvalidValueData : Type 0 where
  pub location : SourceLocation
  pub checked_type : TypeDescriptor

pub record NonnullArgData : Type 0 where
  pub location : SourceLocation
  pub attribute_location : SourceLocation
  pub argument_index : ℤ

pub record NonnullReturnData : Type 0 where
  pub attribute_location : SourceLocation

pub record OverflowData : Type 0 where
  pub location : SourceLocation
  pub checked_type : TypeDescriptor

pub record VlaBoundData : Type 0 where
  pub location : SourceLocation
  pub checked_type : TypeDescriptor

pub record ShiftOutOfBoundsData : Type 0 where
  pub location : SourceLocation
  pub lhs_type : TypeDescriptor
  pub rhs_type : TypeDescriptor

pub record OutOfBoundsData : Type 0 where
  pub location : SourceLocation
  pub array_type : TypeDescriptor
  pub index_type : TypeDescriptor

pub record TypeMismatchData : Type 0 where
  pub location : SourceLocation
  pub checked_type : TypeDescriptor
  pub log_alignment : ℕ
  pub type_check_kind : ℕ

pub record AlignmentAssumptionData : Type 0 where
  pub location : SourceLocation
  pub assumption_location : SourceLocation
  pub checked_type : TypeDescriptor

pub record UnreachableData : Type 0 where
  pub location : SourceLocation

pub record ImplicitConversionData : Type 0 where
  pub location : SourceLocation
  pub from_type : TypeDescriptor
  pub to_type : TypeDescriptor
  pub kind : ℕ

pub record InvalidBuiltinData : Type 0 where
  pub location : SourceLocation
  pub kind : ℕ

pub record PointerOverflowData : Type 0 where
  pub location : SourceLocation

pub record FunctionTypeMismatchData : Type 0 where
  pub location : SourceLocation
  pub checked_type : TypeDescriptor
