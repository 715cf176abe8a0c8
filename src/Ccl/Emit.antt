-- ===== src/Ccl/Emit.antt =====
-- `program_to_wasm` of icn-ccl-wasm-codegen/src/emit.rs. The sections that it hands to
-- `wasm_encoder` are the fields of a `Module`. The code and the data sections only grow: emitting
-- gives what is appended to them, and the next free offset. An `i32` and an `i64` stand for their
-- bits, as numbers below 2 ^ 32 and 2 ^ 64.
use Prim.Native.Char.{code}
use icn_v.Base.{
  ℕ, zero, suc, ◌+◌, ◌/◌, ◌%◌, String, Bool, false, ◌&&◌, List, [], ◌∷◌, ◌++◌, Option, none, some,
  if◌then◌else◌, ltb, length, string_eq, wrap32, ◌||◌,
}
use icn_v.HashMap.{HashMap}
use icn_v.Economics.Key.{ResourceType}
use icn_v.Ccl.Opcodes.{Opcode, Program}

-- The UTF-8 bytes of a character and of a text.
abbrev pub utf8 : ℕ → List ℕ
utf8 c =
    if ltb c 128
    then c ∷ []
    else if ltb c 2048
    then (192 + c / 64) ∷ (128 + c % 64) ∷ []
    else if ltb c 65536
    then (224 + c / 4096) ∷ (128 + c / 64 % 64) ∷ (128 + c % 64) ∷ []
    else (240 + c / 262144) ∷ (128 + c / 4096 % 64) ∷ (128 + c / 64 % 64) ∷ (128 + c % 64) ∷ []

unfoldable pub as_bytes : String → List ℕ
as_bytes String.[] = []
as_bytes (String.◌∷◌ c s) = utf8 (code c) ++ as_bytes s

pub data ValType : Type 0 where
  i32 i64 f64 : ValType

pub data Instruction (F : Type 0) : Type 0 where
  i32_const i64_const call local_set local_get : ℕ → Instruction F
  f64_const : F → Instruction F
  end_code : Instruction F

-- An active data segment of memory 0.
pub record Segment : Type 0 where
  pub offset : ℕ
  pub bytes : List ℕ

pub record FuncType : Type 0 where
  pub params : List ValType
  pub results : List ValType

-- The sections of a module.
pub data SectionId : Type 0 where
  type_section import_section function_section memory_section : SectionId
  export_section code_section data_section : SectionId

-- The order of the sections, and what is in them.
pub record Module (F : Type 0) : Type 0 where
  pub sections : List SectionId
  pub types : List FuncType
  -- the name in "icn_host", and the index of the type
  pub imports : List (String × ℕ)
  pub functions : List ℕ
  pub memory_minimum : ℕ
  pub segments : List Segment
  pub locals : List ValType
  pub body : List (Instruction F)
  -- an exported function and its index
  pub exports : List (String × ℕ)

-- What is appended to the code and to the data, and the next free offset.
pub record Emitted (F : Type 0) : Type 0 where
  pub body : List (Instruction F)
  pub segments : List Segment
  pub offset : ℕ

pub data QosProfile : Type 0 where
  best_effort low_latency cost_optimized guaranteed_completion : QosProfile

pub data WorkflowType : Type 0 where
  single_wasm_module sequential_pipeline dag_workflow : WorkflowType

-- `MeshJobParams` of icn-types/src/mesh.rs. The generator sets no stages and no policy.
pub record MeshJobParams (Stage Policy : Type 0) : Type 0 where
  pub wasm_cid : String
  pub description : String
  pub resources_required : List (ResourceType × ℕ)
  pub qos_profile : QosProfile
  pub deadline : Option ℕ
  pub input_data_cid : Option String
  pub max_acceptable_bid_tokens : Option ℕ
  pub explicit_mana_cost : Option ℕ
  pub workflow_type : WorkflowType
  pub stages : Option (List Stage)
  pub is_interactive : Bool
  pub expected_output_schema_cid : Option String
  pub execution_policy : Option Policy

-- `serde_json::from_str` at two types, `serde_cbor::to_vec` after `unwrap_or_default`, and
-- `to_lowercase`.
pub record Codecs (Stage Policy : Type 0) : Type 0 where
  pub parse_resources : String → Option (HashMap String ℕ)
  pub parse_qos : String → Option QosProfile
  pub to_cbor : MeshJobParams Stage Policy → List ℕ
  pub to_lowercase : String → String

-- The `match` on the lower-case name of a resource.
abbrev pub resource_named : String → Option ResourceType
resource_named name =
    if string_eq.eqb name "cpu" || string_eq.eqb name "compute"
    then some ResourceType.cpu
    else if string_eq.eqb name "memory"
    then some ResourceType.memory
    else if string_eq.eqb name "io"
    then some ResourceType.io
    else if string_eq.eqb name "token"
    then some ResourceType.token
    else none

abbrev pub or_empty : Option String → String
or_empty none = ""
or_empty (some s) = s

abbrev pub or_version : Option String → String
or_version none = "0.0.0"
or_version (some s) = s

abbrev pub takes : List ValType → FuncType
takes params = record { params = params; results = [] }

-- `vec![0u8; n]`
unfoldable pub zeros : ℕ → List ℕ
zeros zero = []
zeros (suc n) = 0 ∷ zeros n

-- The types of the imported functions, in the order of their indices.
abbrev pub host_types : List FuncType
host_types =
    takes (i32 ∷ i32 ∷ i32 ∷ i32 ∷ [])
    ∷ takes []
    ∷ takes (i32 ∷ i32 ∷ i32 ∷ i32 ∷ [])
    ∷ takes (i32 ∷ i64 ∷ i32 ∷ i32 ∷ [])
    ∷ takes (i32 ∷ i32 ∷ i32 ∷ i32 ∷ [])
    ∷ takes (i32 ∷ i32 ∷ i32 ∷ i32 ∷ [])
    ∷ takes (i32 ∷ i32 ∷ [])
    ∷ takes []
    ∷ takes []
    ∷ takes (i32 ∷ i32 ∷ i32 ∷ i32 ∷ [])
    ∷ takes (i32 ∷ i32 ∷ [])
    ∷ takes (i32 ∷ i32 ∷ [])
    ∷ takes (i32 ∷ i32 ∷ [])
    ∷ takes (f64 ∷ f64 ∷ [])
    ∷ takes (i32 ∷ i64 ∷ [])
    ∷ takes (i32 ∷ i64 ∷ i32 ∷ i32 ∷ [])
    ∷ record { params = i32 ∷ i32 ∷ i32 ∷ i32 ∷ []; results = i32 ∷ [] }
    ∷ []

abbrev pub host_fns : List (String × ℕ)
host_fns =
    ("begin_section", 0)
    ∷ ("end_section", 1)
    ∷ ("create_proposal", 2)
    ∷ ("mint_token", 3)
    ∷ ("anchor_data", 4)
    ∷ ("call_host", 5)
    ∷ ("log_if_condition", 6)
    ∷ ("log_else", 7)
    ∷ ("log_endif", 8)
    ∷ ("set_property", 9)
    ∷ ("log_todo", 10)
    ∷ ("on_event", 11)
    ∷ ("log_range_check", 12)
    ∷ ("range_check", 13)
    ∷ ("use_resource", 14)
    ∷ ("transfer_token", 15)
    ∷ ("host_submit_mesh_job", 16)
    ∷ []

module _ {Stage Policy : Type 0} (codecs : Codecs Stage Policy) where
  -- The loop over the parsed resources, which passes over unknown names.
  unfoldable pub known_resources : HashMap String ℕ → List (ResourceType × ℕ)
  known_resources [] = []
  known_resources ((name, amount) ∷ m) =
      let rest = known_resources m in
      elim (resource_named (codecs.to_lowercase name)) [
        | none ↦ rest
        | some res_type ↦ (res_type, amount) ∷ rest
      ]

  abbrev pub resources_of : Option String → List (ResourceType × ℕ)
  resources_of none = []
  resources_of (some json) = elim (codecs.parse_resources json) [
    | none ↦ []
    | some m ↦ known_resources m
  ]

  abbrev pub qos_of : Option String → QosProfile
  qos_of none = best_effort
  qos_of (some json) = elim (codecs.parse_qos json) [ none ↦ best_effort | some profile ↦ profile ]

  abbrev pub job_params :
      String
      → Option String
      → Option String
      → Option String
      → Option String
      → Option ℕ
      → Option ℕ
      → MeshJobParams Stage Policy
  job_params wasm_cid description input_data_cid resources qos bid deadline = record {
    wasm_cid = wasm_cid;
    description = or_empty description;
    resources_required = resources_of resources;
    qos_profile = qos_of qos;
    deadline = deadline;
    input_data_cid = input_data_cid;
    max_acceptable_bid_tokens = bid;
    explicit_mana_cost = none;
    workflow_type = single_wasm_module;
    stages = none;
    is_interactive = false;
    expected_output_schema_cid = none;
    execution_policy = none;
  }

-- The buffer that the host writes the identifier of a job to.
abbrev pub job_id_buffer_size : ℕ
job_id_buffer_size = 128

abbrev pub job_id_buffer_offset : ℕ
job_id_buffer_offset = 0

-- `string_len > 0`, where the length is cast to an `i32`.
abbrev pub positive_i32 : ℕ → Bool
positive_i32 n = ltb 0 n && ltb n 2147483648

module _ {F : Type 0} where
  abbrev pub instructions : List (Instruction F) → ℕ → Emitted F
  instructions is offset = record { body = is; segments = []; offset = offset }

  -- One emission after another.
  abbrev pub after : Emitted F → (ℕ → Emitted F) → Emitted F
  after e next =
      let n = next e.offset in
      record { body = e.body ++ n.body; segments = e.segments ++ n.segments; offset = n.offset }

  -- The data of a text or of a job: a segment if it is not empty, its pointer and its length.
  unfoldable pub push_bytes : List ℕ → ℕ → Emitted F
  push_bytes bytes offset =
      let len = wrap32 (length bytes) in
      record {
        body = Instruction.i32_const offset ∷ Instruction.i32_const len ∷ [];
        segments =
            if positive_i32 len then (record { offset = offset; bytes = bytes }) ∷ [] else [];
        offset = if positive_i32 len then wrap32 (offset + len) else offset;
      }

  abbrev pub encode_push_string : String → ℕ → Emitted F
  encode_push_string s = push_bytes (as_bytes s)

  abbrev pub call_fn : ℕ → ℕ → Emitted F
  call_fn k = instructions (Instruction.call k ∷ [])

  abbrev pub push_i64 : ℕ → ℕ → Emitted F
  push_i64 n = instructions (Instruction.i64_const n ∷ [])

  abbrev pub push_f64 : F → ℕ → Emitted F
  push_f64 x = instructions (Instruction.f64_const x ∷ [])

module _ {F Stage Policy : Type 0} (codecs : Codecs Stage Policy) where
  -- The `match` on an opcode.
  unfoldable pub emit_op : Opcode F → ℕ → Emitted F
  emit_op (Opcode.begin_section kind title) o =
      after (encode_push_string kind o)
        λ o. after (encode_push_string (or_empty title) o) λ o. call_fn 0 o
  emit_op Opcode.end_section o = call_fn 1 o
  emit_op (Opcode.create_proposal title version) o =
      after (encode_push_string title o)
        λ o. after (encode_push_string (or_version version) o) λ o. call_fn 2 o
  emit_op (Opcode.mint_token res_type amount recipient payload) o =
      after (encode_push_string res_type o) λ o. after (push_i64 amount o) λ o.
        after (encode_push_string (or_empty recipient) o)
          λ o. after (encode_push_string (or_empty payload) o) λ o. call_fn 3 o
  emit_op (Opcode.anchor_data path data_ref) o =
      after (encode_push_string (or_empty path) o)
        λ o. after (encode_push_string data_ref o) λ o. call_fn 4 o
  emit_op (Opcode.call_host fn_name args_payload) o =
      after (encode_push_string fn_name o)
        λ o. after (encode_push_string args_payload o) λ o. call_fn 5 o
  emit_op (Opcode.if_op condition) o = after (encode_push_string condition o) λ o. call_fn 6 o
  emit_op Opcode.else_op o = call_fn 7 o
  emit_op Opcode.end_if o = call_fn 8 o
  emit_op (Opcode.set_property key value_json) o =
      after (encode_push_string key o) λ o. after (encode_push_string value_json o) λ o. call_fn 9 o
  emit_op (Opcode.todo msg) o = after (encode_push_string msg o) λ o. call_fn 10 o
  emit_op (Opcode.on_event event) o = after (encode_push_string event o) λ o. call_fn 11 o
  emit_op (Opcode.range_check start finish) o =
      after (push_f64 start o) λ o. after (push_f64 finish o) λ o. call_fn 13 o
  emit_op (Opcode.use_resource resource_type amount) o =
      after (encode_push_string resource_type o) λ o. after (push_i64 amount o) λ o. call_fn 14 o
  emit_op (Opcode.transfer_token token_type amount sender recipient) o =
      after (encode_push_string token_type o) λ o. after (push_i64 amount o) λ o.
        after (encode_push_string (or_empty sender) o)
          λ o. after (encode_push_string recipient o) λ o. call_fn 15 o
  emit_op (Opcode.submit_job cid description input entry resources qos bid deadline metadata) o =
      let params = job_params codecs cid description input resources qos bid deadline in
      after (push_bytes (codecs.to_cbor params) o) (
        instructions (
          Instruction.i32_const job_id_buffer_offset
          ∷ Instruction.i32_const job_id_buffer_size
          ∷ Instruction.call 16
          ∷ Instruction.local_set 0
          ∷ []))

  unfoldable pub emit_ops : Program F → ℕ → Emitted F
  emit_ops [] o = instructions [] o
  emit_ops (op ∷ ops) o = after (emit_op op o) (emit_ops ops)

  unfoldable pub program_to_wasm : Program F → Module F
  program_to_wasm ops =
      let e = emit_ops ops (job_id_buffer_offset + job_id_buffer_size) in
      record {
        sections =
            SectionId.type_section ∷ SectionId.import_section ∷ SectionId.function_section
            ∷ SectionId.memory_section ∷ SectionId.data_section ∷ SectionId.code_section
            ∷ SectionId.export_section ∷ [];
        types = record { params = []; results = i32 ∷ [] } ∷ host_types;
        imports = host_fns;
        functions = 17 ∷ [];
        memory_minimum = 1;
        segments =
            record { offset = job_id_buffer_offset; bytes = zeros job_id_buffer_size } ∷ e.segments;
        locals = i32 ∷ [];
        body =
            Instruction.i32_const 0
            ∷ Instruction.local_set 0
            ∷ (e.body ++ Instruction.local_get 0 ∷ Instruction.end_code ∷ []);
        exports = ("_start", 17) ∷ [];
      }
