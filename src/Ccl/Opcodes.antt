-- ===== src/Ccl/Opcodes.antt =====
-- `Opcode` of icn-ccl-wasm-codegen/src/opcodes.rs. A `Program` is its list of opcodes.
use icn_v.Base.{ℕ, String, List, Option}

pub data Opcode (F : Type 0) : Type 0 where
  create_proposal : (title : String) → (version : Option String) → Opcode F
  on_event : (event : String) → Opcode F
  mint_token :
      (res_type : String)
      → (amount : ℕ) → (recipient : Option String) → (payload : Option String) → Opcode F
  anchor_data : (path : Option String) → (data_ref : String) → Opcode F
  use_resource : (resource_type : String) → (amount : ℕ) → Opcode F
  transfer_token :
      (token_type : String)
      → (amount : ℕ) → (sender : Option String) → (recipient : String) → Opcode F
  submit_job :
      (wasm_cid : String)
      → (description : Option String) → (input_data_cid : Option String)
      → (entry_function : Option String) → (required_resources_json : Option String)
      → (qos_profile_json : Option String) → (max_acceptable_bid_tokens : Option ℕ)
      → (deadline_utc_ms : Option ℕ) → (metadata_json : Option String) → Opcode F
  call_host : (fn_name : String) → (args_payload : String) → Opcode F
  if_op : (condition : String) → Opcode F
  else_op end_if : Opcode F
  range_check : (start finish : F) → Opcode F
  begin_section : (kind : String) → (title : Option String) → Opcode F
  end_section : Opcode F
  set_property : (key : String) → (value_json : String) → Opcode F
  todo : String → Opcode F

abbrev pub Program : Type 0 → Type 0
Program F = List (Opcode F)
