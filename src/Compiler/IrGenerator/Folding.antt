-- ===== src/Compiler/IrGenerator/Folding.antt =====
-- eyeflow-server/src/compiler/ir-generator/services/constant-folding.service.ts. `decimal` writes a
-- number in decimal; the metadata and comments of instructions are left out.
use Prim.Native.String.{◌++◌ as concat}
use text.Mathlib.Text.{find?}
use eyeflow.Common.{
  ℕ, suc, ◌*◌, String, Bool, true, false, ◌||◌, Option, none, some, List, [], ◌∷◌, ◌++◌, length,
  is_some, if◌then◌else◌,
}
use eyeflow.Common.Eq.{◌==◌, string_equality}
use eyeflow.Compiler.IrGenerator.{
  read, transform, RegisterType, int, float, string, buffer, object, any, IrInstruction,
  DataClassification, constant, compile_time_computed, ClassifiedVariable, OptimizationPlan,
}

pub record ConstantFoldingResult : Type 0 where
  pub instructions : List IrInstruction
  pub folded_count : ℕ
  pub saved_instructions : ℕ

abbrev named_type : String → RegisterType
named_type t =
    if t == "object"
    then object
    else if t == "float"
    then float
    else if t == "int"
    then int
    else if t == "buffer"
    then buffer
    else any

-- A constant is a string if the name of its type contains the word.
abbrev constant_type : String → RegisterType
constant_type t = if is_some (find? t "string") || (t == "string") then string else named_type t

abbrev computed_type : String → RegisterType
computed_type t = if t == "string" then string else named_type t

-- `sourceOperation || varName`
abbrev source_of : Option String → String → String
source_of none name = name
source_of (some s) name = if s == "" then name else s

abbrev pub is_constant : DataClassification → Bool
is_constant constant = true
is_constant _ = false

abbrev pub is_computed : DataClassification → Bool
is_computed compile_time_computed = true
is_computed _ = false

module _ (decimal : ℕ → String) where
  abbrev constant_instruction : ℕ → String → ClassifiedVariable → IrInstruction
  constant_instruction index name classified = record {
    id = concat "const_" name;
    opcode = read;
    operands = [];
    result_registers =
        (record {
          id = concat "r" (decimal index);
          register_type = constant_type classified.variable_type;
          value = name;
        })
        ∷ [];
    dependencies = [];
  }

  -- The loop over the map, from register `index` on.
  unfoldable pub generate_from : ℕ → List (String × ClassifiedVariable) → List IrInstruction
  generate_from index [] = []
  generate_from index ((name, classified) ∷ rest) =
      let more = generate_from (suc index) rest in
      let skipped = generate_from index rest in
      if is_constant classified.classification
      then constant_instruction index name classified ∷ more
      else skipped

  unfoldable pub generate_constant_instructions : OptimizationPlan → List IrInstruction
  unfolding generate_from
  generate_constant_instructions plan = elim plan.classifications_map [
    | none ↦ []
    | some entries ↦ generate_from 0 entries
  ]

  abbrev computed_instruction : ℕ → String → ClassifiedVariable → IrInstruction
  computed_instruction index name classified = record {
    id = concat "computed_" name;
    opcode = transform;
    operands = [];
    result_registers =
        (record {
          id = concat "r" (decimal index);
          register_type = computed_type classified.variable_type;
          value = source_of classified.source_operation name;
        })
        ∷ [];
    dependencies = classified.depends_on;
  }

  unfoldable pub precompute_from : ℕ → List (String × ClassifiedVariable) → List IrInstruction
  precompute_from index [] = []
  precompute_from index ((name, classified) ∷ rest) =
      let more = precompute_from (suc index) rest in
      let skipped = precompute_from index rest in
      if is_computed classified.classification
      then computed_instruction index name classified ∷ more
      else skipped

  unfoldable pub precompute_expressions : OptimizationPlan → List IrInstruction
  unfolding precompute_from
  precompute_expressions plan = elim plan.classifications_map [
    | none ↦ []
    | some entries ↦ precompute_from 100 entries
  ]

  unfoldable pub fold_constants : OptimizationPlan → ConstantFoldingResult
  unfolding generate_constant_instructions precompute_expressions
  fold_constants plan =
      let constants = generate_constant_instructions plan in
      record {
        instructions = constants ++ precompute_expressions plan;
        folded_count = length constants;
        saved_instructions = length constants * 2;
      }
