-- ===== src/Runtime/HostCalls.antt =====
-- The host functions of crates/runtime/icn-core-vm/src/lib.rs. An `i32` or `i64` argument is its
-- bits as a natural number, a byte of the memory is a number, and the check that bytes are UTF-8 is
-- a parameter. What a module computes between its calls is wasmtime's: a module is the calls that it
-- makes, each with the memory it has then, and the trap that ends it, if any.
use icn_v.Base.{
  ℕ, ◌+◌, ◌-◌, String, ◌||◌, List, [], ◌∷◌, ◌++◌, Option, none, some, if◌then◌else◌, ltb, wrap32,
  wrap64, length, skip, take, Result, ok, err, ◌>>=◌,
}

pub record ExecutionMetrics : Type 0 where
  pub host_calls : ℕ
  pub io_bytes : ℕ
  pub anchored_cids_count : ℕ
  pub job_submissions_count : ℕ
  pub mana_cost : Option ℕ

pub record JobSubmission : Type 0 where
  pub wasm_cid : String
  pub description : String
  pub resource_type : String
  pub resource_amount : ℕ
  pub priority : String

pub record HostContext : Type 0 where
  pub metrics : ExecutionMetrics
  pub logs : List String
  pub anchored_cids : List String
  pub resource_usage : List (String × ℕ)
  pub job_submissions : List JobSubmission
  pub coop_id : Option String
  pub community_id : Option String

abbrev pub default_context : HostContext
default_context = record {
  metrics = record {
    host_calls = 0;
    io_bytes = 0;
    anchored_cids_count = 0;
    job_submissions_count = 0;
    mana_cost = none;
  };
  logs = [];
  anchored_cids = [];
  resource_usage = [];
  job_submissions = [];
  coop_id = none;
  community_id = none;
}

abbrev pub with_organization : Option String → Option String → HostContext → HostContext
with_organization coop community c = record c { coop_id = coop; community_id = community }

-- `len as u64` of an `i32` extends the sign.
abbrev pub i32_as_u64 : ℕ → ℕ
i32_as_u64 n = if ltb n 2147483648 then n else n + 18446744069414584320

-- `data.get(from..to)`
unfoldable pub get_range : ℕ → ℕ → List ℕ → Option (List ℕ)
get_range from to mem =
    if ltb to from || ltb (length mem) to then none else some (take (to - from) (skip from mem))

-- `metrics.host_calls += 1` and `metrics.io_bytes += n`
abbrev pub count_call : HostContext → HostContext
count_call c = record c {
  metrics = record (c.metrics) { host_calls = wrap64 (c.metrics.host_calls + 1) };
}

abbrev pub count_io : ℕ → HostContext → HostContext
count_io n c = record c {
  metrics = record (c.metrics) { io_bytes = wrap64 (c.metrics.io_bytes + n) };
}

abbrev pub count_results : HostContext → HostContext
count_results c = record c {
  metrics = record (c.metrics) {
    anchored_cids_count = length c.anchored_cids;
    job_submissions_count = length c.job_submissions;
  };
}

-- A text in the memory: its address and its length.
pub record Span : Type 0 where
  pub ptr : ℕ
  pub len : ℕ

pub data HostCall : Type 0 where
  log_message anchor_cid : Span → HostCall
  check_authorization record_usage : Span → (amount : ℕ) → HostCall
  submit_job : (wasm_cid desc rsrc_type : Span) (rsrc_amount : ℕ) (priority : Span) → HostCall

-- What a call leaves of the context when it has read its texts.
abbrev pub logged : Span → HostContext → String → HostContext
logged s c message = count_io (i32_as_u64 s.len) (record c { logs = c.logs ++ message ∷ [] })

abbrev pub anchored : Span → HostContext → String → HostContext
anchored s c cid_str =
    count_io (i32_as_u64 s.len) (record c { anchored_cids = c.anchored_cids ++ cid_str ∷ [] })

abbrev pub recorded : Span → ℕ → HostContext → String → HostContext
recorded s amount c resource_type =
    count_io (i32_as_u64 s.len)
      (record c { resource_usage = c.resource_usage ++ (resource_type, amount) ∷ [] })

abbrev pub submitted : ℕ → HostContext → JobSubmission → HostContext
submitted lens c job =
    count_io (i32_as_u64 lens) (record c { job_submissions = c.job_submissions ++ job ∷ [] })

module _ (from_utf8 : List ℕ → Option String) where
  -- The range ends at `ptr as u32 + len as u32`, which wraps.
  unfoldable pub read_text : List ℕ → Span → String → String → Result String String
  read_text mem s no_access no_utf8 = elim (get_range s.ptr (wrap32 (s.ptr + s.len)) mem) [
    | none ↦ err no_access
    | some bytes ↦ elim (from_utf8 bytes) [ none ↦ err no_utf8 | some text ↦ ok text ]
  ]

  unfoldable pub log_function : List ℕ → Span → HostContext → Result HostContext String
  log_function mem s c = do
    message ← read_text mem s "Invalid memory access" "Invalid UTF-8 in log message"
    ok (logged s c message)

  unfoldable pub anchor_function : List ℕ → Span → HostContext → Result HostContext String
  anchor_function mem s c = do
    cid_str ← read_text mem s "Invalid memory access" "Invalid UTF-8 in CID"
    ok (anchored s c cid_str)

  -- The result that the module gets of this function and of `submit_job_function` is always 1.
  unfoldable pub check_auth_function : List ℕ → Span → HostContext → Result HostContext String
  check_auth_function mem s c = do
    resource_type ← read_text mem s "Invalid memory access" "Invalid UTF-8 in resource type"
    ok c

  unfoldable pub record_usage_function : List ℕ → Span → ℕ → HostContext → Result HostContext String
  record_usage_function mem s amount c = do
    resource_type ← read_text mem s "Invalid memory access" "Invalid UTF-8 in resource type"
    ok (recorded s amount c resource_type)

  unfoldable pub read_job : List ℕ → Span → Span → Span → ℕ → Span → Result JobSubmission String
  read_job mem cid desc kind amount prio = do
    wasm_cid ← read_text mem cid "Invalid memory access for WASM CID" "Invalid UTF-8 in WASM CID"
    description ←
        read_text mem desc "Invalid memory access for description"
          "Invalid UTF-8 in job description"
    resource_type ←
        read_text mem kind "Invalid memory access for resource type"
          "Invalid UTF-8 in resource type"
    priority ←
        read_text mem prio "Invalid memory access for priority" "Invalid UTF-8 in job priority"
    ok (record {
      wasm_cid = wasm_cid;
      description = description;
      resource_type = resource_type;
      resource_amount = amount;
      priority = priority;
    })

  unfoldable pub submit_job_function :
      List ℕ → Span → Span → Span → ℕ → Span → HostContext → Result HostContext String
  submit_job_function mem cid desc kind amount prio c = do
    job ← read_job mem cid desc kind amount prio
    ok (submitted (wrap32 (cid.len + desc.len + kind.len + prio.len)) c job)

  -- What follows the counting of a call, by the host function.
  unfoldable pub host_function : HostCall → List ℕ → HostContext → Result HostContext String
  host_function (log_message s) mem c = log_function mem s c
  host_function (anchor_cid s) mem c = anchor_function mem s c
  host_function (check_authorization s amount) mem c = check_auth_function mem s c
  host_function (record_usage s amount) mem c = record_usage_function mem s amount c
  host_function (submit_job cid desc kind amount prio) mem c =
      submit_job_function mem cid desc kind amount prio c

  -- A call is counted first. One that fails traps, and leaves the context as it was counted.
  unfoldable pub call_host :
      HostCall → Option (List ℕ) → HostContext → Result (Unit {0}) String × HostContext
  call_host call none c = (err "Failed to find memory export", count_call c)
  call_host call (some mem) c = elim (host_function call mem (count_call c)) [
    | err e ↦ (err e, count_call c)
    | ok c' ↦ (ok tt, c')
  ]

  -- The calls of a module, up to the first that fails.
  unfoldable pub run_calls :
      List (HostCall × Option (List ℕ)) → HostContext → Result (Unit {0}) String × HostContext
  run_calls [] c = (ok tt, c)
  run_calls ((call, memory) ∷ calls) c =
      let (r, c') = call_host call memory c in
      let rest = run_calls calls c' in elim r [ err e ↦ (err e, c') | ok _ ↦ rest ]

  -- `anchored_cids_count` and `job_submissions_count` are set whether the run fails or not.
  unfoldable pub execute :
      List (HostCall × Option (List ℕ))
      → Option String
      → HostContext
      → Result (Unit {0}) String × HostContext
  execute calls trap context =
      let (r, c) = run_calls calls context in
      let counted = count_results c in
      elim r [
        | err e ↦ (err e, counted)
        | ok _ ↦ elim trap [ none ↦ (ok tt, counted) | some e ↦ (err e, counted) ]
      ]
