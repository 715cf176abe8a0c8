-- ===== src/Ccl/Typing.antt =====
-- The types in a module of icn-ccl-wasm-codegen/src/emit.rs, as the validation of WebAssembly reads
-- them: the index of a type counts all types of the module, that of a function the imports first.
use icn_v.Base.{
  ℕ, zero, suc, ◌+◌, ◌-◌, ◌<◌, String, ◌≡◌, refl, ap, ◌∙◌, Bool, true, false, List, [], ◌∷◌, ◌++◌,
  Option, none, some, arith, if◌then◌else◌, ltb, length, inl, inr, Option-cases,
}
use mathlib.Core.List.{append_assoc}
use icn_v.Ccl.Opcodes.{Opcode, Program}
use icn_v.Ccl.Emit.{
  ValType, i32, i64, f64, Instruction, FuncType, Module, Codecs, host_types, push_bytes, emit_op,
  emit_ops, program_to_wasm,
}

abbrev pub nth : {A : Type 0} → ℕ → List A → Option A
nth k [] = none
nth zero (x ∷ xs) = some x
nth (suc k) (x ∷ xs) = nth k xs

abbrev type_at : {F : Type 0} → Module F → Option ℕ → Option FuncType
type_at w none = none
type_at w (some i) = nth i w.types

abbrev second : {A : Type 0} {B : Type 0} → Option (A × B) → Option B
second none = none
second (some p) = some p.1

-- The type of a function of the module.
unfoldable pub function_type : {F : Type 0} → Module F → ℕ → Option FuncType
function_type w k =
    if ltb k (length w.imports)
    then type_at w (second (nth k w.imports))
    else type_at w (nth (k - length w.imports) w.functions)

abbrev same_type : ValType → ValType → Bool
same_type i32 i32 = true
same_type i64 i64 = true
same_type f64 f64 = true
same_type _ _ = false

-- The stack without the operands of a call, the last operand on top.
abbrev pop_last : ValType → Option (List ValType) → Option (List ValType)
pop_last t none = none
pop_last t (some []) = none
pop_last t (some (u ∷ st)) = if same_type u t then some st else none

abbrev pop_all : List ValType → List ValType → Option (List ValType)
pop_all [] st = some st
pop_all (t ∷ ts) st = pop_last t (pop_all ts st)

abbrev called : Option FuncType → List ValType → Option (List ValType)
called none st = none
called (some t) st = elim (pop_all t.params st) [
  | none ↦ none
  | some rest ↦ some (t.results ++ rest)
]

-- The types on the stack after the code, if it is well typed.
unfoldable pub check :
    {F : Type 0}
    → (ℕ → Option FuncType)
    → List (Instruction F)
    → List ValType
    → Option (List ValType)
check types [] st = some st
check types (Instruction.i32_const n ∷ is) st = check types is (i32 ∷ st)
check types (Instruction.i64_const n ∷ is) st = check types is (i64 ∷ st)
check types (Instruction.f64_const x ∷ is) st = check types is (f64 ∷ st)
check types (Instruction.call k ∷ is) st = elim (called (types k) st) [
  | none ↦ none
  | some rest ↦ check types is rest
]
check types (Instruction.local_set i ∷ is) st = elim (pop_last i32 (some st)) [
  | none ↦ none
  | some rest ↦ check types is rest
]
check types (Instruction.local_get i ∷ is) st = check types is (i32 ∷ st)
check types (Instruction.end_code ∷ is) st = check types is st

-- The type under which a runtime looks up the entry point, and what it finds.
abbrev pub entry_type : {F : Type 0} → Module F → Option FuncType
entry_type w = elim (nth 0 w.exports) [ none ↦ none | some e ↦ function_type w e.1 ]

-- The opcodes whose call gets operands of other types than its function has in the module.
pub data Mistyped {F : Type 0} : Opcode F → Type 0 where
  anchors : (path : Option String) (data_ref : String) → Mistyped (Opcode.anchor_data path data_ref)
  uses : (resource_type : String) (amount : ℕ) → Mistyped (Opcode.use_resource resource_type amount)
  checks : (start finish : F) → Mistyped (Opcode.range_check start finish)
  transfers :
      (token_type : String) (amount : ℕ) (sender : Option String) (recipient : String)
      → Mistyped (Opcode.transfer_token token_type amount sender recipient)
  submits :
      (wasm_cid : String) (description input entry resources qos : Option String)
      (bid deadline : Option ℕ) (metadata : Option String)
      → Mistyped
          (Opcode.submit_job wasm_cid description input entry resources qos bid deadline metadata)

module _ {F Stage Policy : Type 0} (codecs : Codecs Stage Policy) where
  -- In the module of any program the type of every host function is that of the one before it: the
  -- first gets the type () → i32 that is meant for `_start`, and `_start` gets that of
  -- `host_submit_mesh_job`, with four parameters.
  pub program_to_wasm_types :
      (ops : Program F)
      → let w = program_to_wasm codecs ops in
        (function_type w 0 ≡ some (record { params = []; results = i32 ∷ [] }))
        × ((k : ℕ) → k < 16 → function_type w (k + 1) ≡ nth k host_types)
        × (entry_type w ≡ some (record { params = i32 ∷ i32 ∷ i32 ∷ i32 ∷ []; results = i32 ∷ [] }))
  unfolding program_to_wasm function_type
  program_to_wasm_types ops = (refl, shifted, refl)
    where
      shifted :
          (k : ℕ) → k < 16 → function_type (program_to_wasm codecs ops) (k + 1) ≡ nth k host_types
      shifted k h = ground arith

  emit_op-Mistyped :
      (ops : Program F) (op : Opcode F) (o : ℕ) (rest : List (Instruction F)) (st : List ValType)
      → Mistyped op
      → check (function_type (program_to_wasm codecs ops)) ((emit_op codecs op o).body ++ rest) st
        ≡ none
  unfolding program_to_wasm function_type check emit_op push_bytes
  emit_op-Mistyped ops _ o rest st (Mistyped.anchors path data_ref) = refl
  emit_op-Mistyped ops _ o rest st (Mistyped.uses resource_type amount) = refl
  emit_op-Mistyped ops _ o rest st (Mistyped.checks start finish) = refl
  emit_op-Mistyped ops _ o rest st (Mistyped.transfers token_type amount sender recipient) = refl
  emit_op-Mistyped ops _ o rest st (Mistyped.submits a b c d e f g h i) = refl

  -- Code that is not well typed after every stack is not after any code either.
  check-append :
      (types : ℕ → Option FuncType) (is rest : List (Instruction F)) (st : List ValType)
      → ((st' : List ValType) → check types rest st' ≡ none)
      → check types (is ++ rest) st ≡ none
  unfolding check
  check-append types [] rest st h = h st
  check-append types (Instruction.i32_const n ∷ is) rest st h =
      check-append types is rest (i32 ∷ st) h
  check-append types (Instruction.i64_const n ∷ is) rest st h =
      check-append types is rest (i64 ∷ st) h
  check-append types (Instruction.f64_const x ∷ is) rest st h =
      check-append types is rest (f64 ∷ st) h
  check-append types (Instruction.call k ∷ is) rest st h =
      elim (Option-cases (called (types k) st)) [
        | inl stuck ↦ rw (stuck, check) refl
        | inr (st', goes) ↦ rw (goes, check) (check-append types is rest st' h)
      ]
  check-append types (Instruction.local_set i ∷ is) rest st h =
      elim (Option-cases (pop_last i32 (some st))) [
        | inl stuck ↦ rw (stuck, check) refl
        | inr (st', goes) ↦ rw (goes, check) (check-append types is rest st' h)
      ]
  check-append types (Instruction.local_get i ∷ is) rest st h =
      check-append types is rest (i32 ∷ st) h
  check-append types (Instruction.end_code ∷ is) rest st h = check-append types is rest st h

  emit_ops-Mistyped :
      (all before after : Program F) (op : Opcode F) (o : ℕ) (rest : List (Instruction F))
      → Mistyped op
      → (st : List ValType)
      → check
          (function_type (program_to_wasm codecs all))
          ((emit_ops codecs (before ++ op ∷ after) o).body ++ rest)
          st
        ≡ none
  unfolding emit_ops
  emit_ops-Mistyped all [] after op o rest h st =
      ap (λ (is : List (Instruction F)). check (function_type (program_to_wasm codecs all)) is st)
        (append_assoc (emit_op codecs op o).body _ rest)
      ∙ emit_op-Mistyped all op o _ st h
  emit_ops-Mistyped all (p ∷ before) after op o rest h st =
      let o' = (emit_op codecs p o).offset in
      ap (λ (is : List (Instruction F)). check (function_type (program_to_wasm codecs all)) is st)
        (append_assoc (emit_op codecs p o).body _ rest)
      ∙ check-append (function_type (program_to_wasm codecs all)) (emit_op codecs p o).body _ st
          (emit_ops-Mistyped all before after op o' rest h)

  -- No module of a program that anchors data, uses a resource, checks a range, transfers a token or
  -- submits a job is well typed: some call in its code gets operands of other types than the function
  -- has in the module.
  pub program_to_wasm-Mistyped :
      (before after : Program F) (op : Opcode F)
      → Mistyped op
      → let w = program_to_wasm codecs (before ++ op ∷ after) in
        check (function_type w) w.body [] ≡ none
  unfolding program_to_wasm check
  program_to_wasm-Mistyped before after op h =
      emit_ops-Mistyped (before ++ op ∷ after) before after op 128
        (Instruction.local_get 0 ∷ Instruction.end_code ∷ []) h []
