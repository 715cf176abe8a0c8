-- ===== src/Ccl/Tests.antt =====
-- Tests of the code generator, and the theorems about it at concrete inputs.
use icn_v.Base.{ℕ, ◌+◌, ◌<◌, ◌≡◌, refl, true, [], ◌∷◌, map, none, some, arith}
use icn_v.Economics.Key.{ResourceType}
use icn_v.Ccl.Dsl.{RuleValue, no_rules, rule, else_rules, ActionStep, DslModule}
use icn_v.Ccl.Opcodes.{Opcode, Program}
use icn_v.Ccl.Generate.{
  Formats, generate, walk_module, walk_value, walk_steps, walk_step, is_function_call,
}
use icn_v.Ccl.Brackets.{Nested, generate-Nested}
use icn_v.Ccl.Emit.{i32, Codecs, as_bytes, host_types, program_to_wasm}
use icn_v.Ccl.Memory.{image, Laid}
use icn_v.Ccl.Calls.{expected, pushed_calls, AllMatch}
use icn_v.Ccl.Compile.{data_size, program_to_wasm_lem}
use icn_v.Ccl.Typing.{
  nth, function_type, check, entry_type, Mistyped, program_to_wasm_types, program_to_wasm-Mistyped,
}

-- Floating-point numbers are numbers here, and the writers write nothing of their argument.
abbrev formats : Formats ℕ
formats = record {
  json_value = λ v. some "json";
  json_text = λ t. none;
  json_rules = λ rs. some "rules";
  show_float = λ x. "0.5";
  debug_module = λ m. "module";
}

abbrev codecs : Codecs (Unit {0}) (Unit {0})
codecs = record {
  parse_resources = λ json. some (("CPU", 5) ∷ []);
  parse_qos = λ json. none;
  to_cbor = λ params. 1 ∷ 2 ∷ 3 ∷ [];
  to_lowercase = λ name. "cpu";
}

abbrev bylaws : DslModule ℕ
bylaws = DslModule.section (record {
  kind = "bylaws";
  title = none;
  rules = rule "quorum" (RuleValue.range 0 1 (rule "votes" (RuleValue.number 7) no_rules)) (
      rule "if"
        (RuleValue.if_expr "x > 1" no_rules
          (else_rules (rule "y" (RuleValue.boolean true) no_rules)))
        no_rules);
})

abbrev handler : DslModule ℕ
handler = DslModule.action_handler (record {
  event = "passed";
  steps =
      ActionStep.perform_metered_action "notify" ResourceType.io 3
      ∷ ActionStep.anchored (record { data_reference = "cid"; path = none })
      ∷ [];
})

generated :
    generate formats (bylaws ∷ handler ∷ [])
    ≡ Opcode.begin_section "bylaws" none
      ∷ Opcode.begin_section "range_0.5_0.5" (some "quorum")
      ∷ Opcode.set_property "votes" "json"
      ∷ Opcode.end_section
      ∷ Opcode.if_op "x > 1"
      ∷ Opcode.else_op
      ∷ Opcode.set_property "y" "json"
      ∷ Opcode.end_if
      ∷ Opcode.end_section
      ∷ Opcode.on_event "passed"
      ∷ Opcode.use_resource "Io" 3
      ∷ Opcode.todo "Perform action: notify"
      ∷ Opcode.anchor_data none "cid"
      ∷ []
unfolding generate walk_module walk_value walk_steps walk_step is_function_call
generated = refl

generate-Nested_example : Nested (generate formats (bylaws ∷ handler ∷ []))
generate-Nested_example = generate-Nested formats (bylaws ∷ handler ∷ [])

abbrev program : Program ℕ
program =
    Opcode.begin_section "role" none
    ∷ Opcode.mint_token "hours" 4 none none
    ∷ Opcode.end_section
    ∷ Opcode.submit_job "cid" none none none (some "{}") none none none none
    ∷ []

program_to_wasm_lem_example :
    let w = program_to_wasm codecs program in
    Laid w.segments 0 (128 + data_size codecs program)
    × AllMatch (image w.segments) (map (expected codecs) program) (pushed_calls w.body [])
unfolding data_size expected as_bytes program_to_wasm
program_to_wasm_lem_example = program_to_wasm_lem codecs program (omega arith)

program_to_wasm_types_example :
    let w = program_to_wasm codecs program in
    (function_type w 0 ≡ some (record { params = []; results = i32 ∷ [] }))
    × ((k : ℕ) → k < 16 → function_type w (k + 1) ≡ nth k host_types)
    × (entry_type w ≡ some (record { params = i32 ∷ i32 ∷ i32 ∷ i32 ∷ []; results = i32 ∷ [] }))
program_to_wasm_types_example = program_to_wasm_types codecs program

program_to_wasm-Mistyped_example :
    let w =
      program_to_wasm {F = ℕ} codecs
        (Opcode.on_event "passed" ∷ Opcode.use_resource "Io" 3 ∷ Opcode.end_section ∷ []) in
    check (function_type w) w.body [] ≡ none
program_to_wasm-Mistyped_example =
    program_to_wasm-Mistyped {F = ℕ} codecs (Opcode.on_event "passed" ∷ [])
      (Opcode.end_section ∷ []) (Opcode.use_resource "Io" 3) (Mistyped.uses "Io" 3)
