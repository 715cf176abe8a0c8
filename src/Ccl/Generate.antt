-- ===== src/Ccl/Generate.antt =====
-- `WasmGenerator` of icn-ccl-wasm-codegen/src/lib.rs. It pushes opcodes to one vector: a walk gives
-- the opcodes that it pushes, in their order.
use icn_v.Base.{
  String, Bool, false, List, [], ◌∷◌, ◌++◌, Option, none, some, if◌then◌else◌, string_eq, prefixed,
}
use icn_v.Economics.Key.{ResourceType}
use icn_v.Ccl.Dsl.{
  RuleValue, no_values, Rules, no_rules, rule, ElseRules, no_else, else_rules, ActionStep,
  DslModule,
}
use icn_v.Ccl.Opcodes.{Opcode, Program}

-- What the generator writes with `serde_json::to_string`, after `unwrap_or_else`, with `format!` of
-- an `f64` and with the derived `Debug` of a module.
pub record Formats (F : Type 0) : Type 0 where
  pub json_value : RuleValue F → Option String
  pub json_text : String → Option String
  pub json_rules : Rules F → Option String
  pub show_float : F → String
  pub debug_module : DslModule F → String

-- `#[derive(Display)]`
abbrev pub show_resource : ResourceType → String
show_resource ResourceType.cpu = "Cpu"
show_resource ResourceType.memory = "Memory"
show_resource ResourceType.io = "Io"
show_resource ResourceType.token = "Token"

-- `unwrap_or_else(|_| text)`
abbrev pub or_text : String → Option String → String
or_text text none = text
or_text text (some s) = s

module _ {F : Type 0} where
  unfoldable pub is_function_call : Rules F → Bool
  is_function_call no_rules = false
  is_function_call (rule key v rs) = string_eq.eqb key "function_name"

  -- `kv.iter().find(|k| k.key == "args").map(|k| &k.value).unwrap_or(&RuleValue::List(vec![]))`
  unfoldable pub find_args : Rules F → RuleValue F
  find_args no_rules = RuleValue.list no_values
  find_args (rule key v rs) = if string_eq.eqb key "args" then v else find_args rs

module _ {F : Type 0} (formats : Formats F) where
  abbrev pub serialization_error : String
  serialization_error = "\"<serialization error>\""

  unfoldable pub walk_function_call : String → RuleValue F → Program F
  walk_function_call fn_name args =
      Opcode.call_host fn_name (or_text "{}" (formats.json_value args)) ∷ []

  abbrev pub property : String → RuleValue F → Program F
  property key v = Opcode.set_property key (or_text serialization_error (formats.json_value v)) ∷ []

  unfoldable mutual
    -- The arms of the `match` of `walk_rules`; the arm of an `if` is `walk_if_expr`.
    pub walk_value : String → RuleValue F → Program F
    walk_value key (RuleValue.if_expr condition then_rules others) =
        Opcode.if_op condition ∷ (walk_rules then_rules ++ (walk_else others ++ Opcode.end_if ∷ []))
    walk_value key (RuleValue.range start finish rules) =
        Opcode.begin_section
          (prefixed "range_"
            (prefixed (formats.show_float start) (prefixed "_" (formats.show_float finish))))
          (some key)
        ∷ (walk_rules rules ++ Opcode.end_section ∷ [])
    walk_value key (RuleValue.map kv) =
        let nested = walk_rules kv in
        if is_function_call kv then walk_function_call key (find_args kv) else nested
    walk_value key (RuleValue.string s) = property key (RuleValue.string s)
    walk_value key (RuleValue.number x) = property key (RuleValue.number x)
    walk_value key (RuleValue.boolean b) = property key (RuleValue.boolean b)
    walk_value key (RuleValue.list vs) = property key (RuleValue.list vs)

    pub walk_rules : Rules F → Program F
    walk_rules no_rules = []
    walk_rules (rule key v rs) = walk_value key v ++ walk_rules rs

    pub walk_else : ElseRules F → Program F
    walk_else no_else = []
    walk_else (else_rules rs) = Opcode.else_op ∷ walk_rules rs

  abbrev pub payload_json : Option (Rules F) → Option String
  payload_json none = none
  payload_json (some rs) = some (or_text "[]" (formats.json_rules rs))

  unfoldable pub walk_step : ActionStep F → Program F
  walk_step (ActionStep.metered m) =
      Opcode.mint_token m.resource_type m.amount m.recipient (payload_json m.payload) ∷ []
  walk_step (ActionStep.anchored a) = Opcode.anchor_data a.path a.data_reference ∷ []
  walk_step (ActionStep.perform_metered_action ident resource amount) =
      Opcode.use_resource (show_resource resource) amount
      ∷ Opcode.todo (prefixed "Perform action: " ident)
      ∷ []
  walk_step (ActionStep.transfer_token token_type amount sender recipient) =
      Opcode.transfer_token token_type amount (some sender) recipient ∷ []

  unfoldable pub walk_steps : List (ActionStep F) → Program F
  walk_steps [] = []
  walk_steps (step ∷ steps) = walk_step step ++ walk_steps steps

  abbrev pub describe : Option String → Program F
  describe none = []
  describe (some text) =
      Opcode.set_property "description" (or_text serialization_error (formats.json_text text)) ∷ []

  abbrev pub unhandled : DslModule F → Program F
  unhandled m = Opcode.todo (prefixed "Unhandled DslModule: " (formats.debug_module m)) ∷ []

  unfoldable pub walk_module : DslModule F → Program F
  walk_module (DslModule.proposal p) =
      Opcode.create_proposal p.title (some p.version) ∷ walk_rules p.rules
  walk_module (DslModule.action_handler h) = Opcode.on_event h.event ∷ walk_steps h.steps
  walk_module (DslModule.section s) =
      Opcode.begin_section s.kind s.title ∷ (walk_rules s.rules ++ Opcode.end_section ∷ [])
  walk_module (DslModule.role r) =
      Opcode.begin_section "role" (some r.name)
      ∷ (describe r.description ++ (walk_rules r.attributes ++ Opcode.end_section ∷ []))
  walk_module (DslModule.vote v) = unhandled (DslModule.vote v)
  walk_module (DslModule.anchor a) = unhandled (DslModule.anchor a)
  walk_module (DslModule.metered_action m) = unhandled (DslModule.metered_action m)

  unfoldable pub generate : List (DslModule F) → Program F
  generate [] = []
  generate (m ∷ ms) = walk_module m ++ generate ms
