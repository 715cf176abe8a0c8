-- ===== src/Ccl/Calls.antt =====
-- What the code of icn-ccl-wasm-codegen/src/emit.rs asks of the host: the calls it makes and the operands
-- that it pushes for each, with the texts that stand in the memory that the data segments fill. The types
-- of the functions, which declare other operands for some, are those of Typing.
use icn_v.Base.{string_eq}
use icn_v.Economics.Key.{ResourceType}
use icn_v.HashMap.{HashMap, get}
use icn_v.Base.{Option, none, some, false}
use icn_v.Base.{ℕ, String, ◌≡◌, List, [], ◌∷◌, ◌++◌, length, sum_by}
use icn_v.Ccl.Memory.{StandsAt}
use icn_v.Ccl.Opcodes.{Opcode}
use icn_v.Ccl.Emit.{
  as_bytes, Instruction, Codecs, or_empty, or_version, MeshJobParams, QosProfile, best_effort,
  single_wasm_module, job_id_buffer_size, job_id_buffer_offset,
}

-- An argument of a call: bytes that are passed as a pointer and a length, or a number.
pub data Arg (F : Type 0) : Type 0 where
  bytes : List ℕ → Arg F
  num32 num64 : ℕ → Arg F
  float : F → Arg F

pub data Value (F : Type 0) : Type 0 where
  v32 v64 : ℕ → Value F
  vf : F → Value F

abbrev pub text : {F : Type 0} → String → Arg F
text s = bytes (as_bytes s)

-- The names of the resources of a job.
abbrev pub resource_names : HashMap String ResourceType
resource_names =
    ("cpu", ResourceType.cpu)
    ∷ ("compute", ResourceType.cpu)
    ∷ ("memory", ResourceType.memory)
    ∷ ("io", ResourceType.io)
    ∷ ("token", ResourceType.token)
    ∷ []

module _ {Stage Policy : Type 0} (codecs : Codecs Stage Policy) where
  -- The resources that a text asks for: those whose lower-case name is known. None without a text, or
  -- with one that is not a map of amounts.
  abbrev pub resource_list : HashMap String ℕ → List (ResourceType × ℕ)
  resource_list [] = []
  resource_list ((name, amount) ∷ m) = elim (get (codecs.to_lowercase name) resource_names) [
    | none ↦ resource_list m
    | some kind ↦ (kind, amount) ∷ resource_list m
  ]

  abbrev pub resources_asked : Option String → List (ResourceType × ℕ)
  resources_asked none = []
  resources_asked (some json) = elim (codecs.parse_resources json) [
    | none ↦ []
    | some m ↦ resource_list m
  ]

  -- The profile that a text asks for, and the best effort without one that can be read.
  abbrev pub profile_asked : Option String → QosProfile
  profile_asked none = best_effort
  profile_asked (some json) = elim (codecs.parse_qos json) [
    | none ↦ best_effort
    | some profile ↦ profile
  ]

  -- The job that an opcode submits: a single module, with what the opcode says.
  abbrev pub job_asked :
      String
      → (description input resources qos : Option String) → (bid deadline : Option ℕ)
      → MeshJobParams Stage Policy
  job_asked cid description input resources qos bid deadline = record {
    wasm_cid = cid;
    description = or_empty description;
    resources_required = resources_asked resources;
    qos_profile = profile_asked qos;
    deadline = deadline;
    input_data_cid = input;
    max_acceptable_bid_tokens = bid;
    explicit_mana_cost = none;
    workflow_type = single_wasm_module;
    stages = none;
    is_interactive = false;
    expected_output_schema_cid = none;
    execution_policy = none;
  }

module _ {F Stage Policy : Type 0} (codecs : Codecs Stage Policy) where
  -- The host function of an opcode, by its index, and its arguments.
  unfoldable pub expected : Opcode F → ℕ × List (Arg F)
  expected (Opcode.begin_section kind title) = (0, text kind ∷ text (or_empty title) ∷ [])
  expected Opcode.end_section = (1, [])
  expected (Opcode.create_proposal title version) = (2, text title ∷ text (or_version version) ∷ [])
  expected (Opcode.mint_token res_type amount recipient payload) =
      (3, text res_type ∷ num64 amount ∷ text (or_empty recipient) ∷ text (or_empty payload) ∷ [])
  expected (Opcode.anchor_data path data_ref) = (4, text (or_empty path) ∷ text data_ref ∷ [])
  expected (Opcode.call_host fn_name args_payload) = (5, text fn_name ∷ text args_payload ∷ [])
  expected (Opcode.if_op condition) = (6, text condition ∷ [])
  expected Opcode.else_op = (7, [])
  expected Opcode.end_if = (8, [])
  expected (Opcode.set_property key value_json) = (9, text key ∷ text value_json ∷ [])
  expected (Opcode.todo msg) = (10, text msg ∷ [])
  expected (Opcode.on_event event) = (11, text event ∷ [])
  expected (Opcode.range_check start finish) = (13, float start ∷ float finish ∷ [])
  expected (Opcode.use_resource resource_type amount) = (14, text resource_type ∷ num64 amount ∷ [])
  expected (Opcode.transfer_token token_type amount sender recipient) =
      (15, text token_type ∷ num64 amount ∷ text (or_empty sender) ∷ text recipient ∷ [])
  expected (Opcode.submit_job cid description input entry resources qos bid deadline metadata) = (
    16,
    bytes (codecs.to_cbor (job_asked codecs cid description input resources qos bid deadline))
        ∷ num32 job_id_buffer_offset
        ∷ num32 job_id_buffer_size
        ∷ [],
  )

module _ {F : Type 0} where
  -- The calls of the code, each with all the values pushed since the call before it.
  unfoldable pub pushed_calls : List (Instruction F) → List (Value F) → List (ℕ × List (Value F))
  pushed_calls [] pushed = []
  pushed_calls (Instruction.i32_const n ∷ is) pushed = pushed_calls is (pushed ++ v32 n ∷ [])
  pushed_calls (Instruction.i64_const n ∷ is) pushed = pushed_calls is (pushed ++ v64 n ∷ [])
  pushed_calls (Instruction.f64_const x ∷ is) pushed = pushed_calls is (pushed ++ vf x ∷ [])
  pushed_calls (Instruction.call k ∷ is) pushed = (k, pushed) ∷ pushed_calls is []
  pushed_calls (Instruction.local_set i ∷ is) pushed = pushed_calls is []
  pushed_calls (Instruction.local_get i ∷ is) pushed = pushed_calls is pushed
  pushed_calls (Instruction.end_code ∷ is) pushed = pushed_calls is pushed

module _ {F : Type 0} (memory : List ℕ) where
  -- The values are those of the arguments.
  abbrev pub Matches : List (Arg F) → List (Value F) → Type 0
  Matches [] [] = Unit
  Matches (bytes bs ∷ args) (v32 ptr ∷ v32 len ∷ vs) =
      StandsAt memory ptr bs × (len ≡ length bs) × Matches args vs
  Matches (num32 n ∷ args) (v32 m ∷ vs) = (m ≡ n) × Matches args vs
  Matches (num64 n ∷ args) (v64 m ∷ vs) = (m ≡ n) × Matches args vs
  Matches (float x ∷ args) (vf y ∷ vs) = (y ≡ x) × Matches args vs
  Matches _ _ = ⊥

  -- The calls are those that are expected, in their order.
  abbrev pub AllMatch : List (ℕ × List (Arg F)) → List (ℕ × List (Value F)) → Type 0
  AllMatch [] [] = Unit
  AllMatch (e ∷ es) (c ∷ cs) = (c.0 ≡ e.0) × Matches e.1 c.1 × AllMatch es cs
  AllMatch _ _ = ⊥

abbrev pub arg_size : {F : Type 0} → Arg F → ℕ
arg_size (bytes bs) = length bs
arg_size _ = 0

-- The bytes that the arguments of a program take in the memory.
abbrev pub args_size : {F : Type 0} → List (Arg F) → ℕ
args_size args = sum_by arg_size args
