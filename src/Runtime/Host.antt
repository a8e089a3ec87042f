-- ===== src/Runtime/Host.antt =====
-- What the runtime (eyeflow-server/src/runtime) uses of JavaScript's own values and of the clock.
-- `Value` is the type of all values that a register holds.
use eyeflow.Common.{ℕ, String, Bool, Option, or_else, List}
use eyeflow.Common.Eq.{nat_equality}
use eyeflow.Common.JsMap.{lookup}
use eyeflow.Compiler.Ir.{Values}

-- `same` of `values` is `===`; `as_array` answers the elements of an array.
pub record Host : Type 1 where
  pub values : Values
  pub null : values.Value
  pub undefined : values.Value
  pub is_nullish : values.Value → Bool
  pub is_truthy : values.Value → Bool
  pub as_array : values.Value → Option (List values.Value)
  pub array : List values.Value → values.Value
  pub object : List (String × values.Value) → values.Value
  pub text : String → values.Value
  pub number : ℕ → values.Value
  pub boolean : Bool → values.Value
  -- The value's own text, for a value that is a string.
  pub as_text : values.Value → Option String

-- The registers, a `Map<number, any>`; a register that was never set reads as `undefined`.
abbrev pub Registers : Host → Type 0
Registers host = List (ℕ × host.values.Value)

unfoldable pub get : (host : Host) → ℕ → Registers host → host.values.Value
unfolding lookup
get host r registers = or_else (lookup r registers) host.undefined
