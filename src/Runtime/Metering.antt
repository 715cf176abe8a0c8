-- ===== src/Runtime/Metering.antt =====
-- What the metrics of crates/runtime/icn-core-vm/src/lib.rs measure.
use icn_v.Runtime.HostCalls.{Span, read_text}
use icn_v.Base.{ok_or}
use icn_v.Base.{
  ℕ, ◌+◌, ◌≤◌, ◌<◌, String, ◌≡◌, ◌⊎◌, refl, List, [], ◌∷◌, Option, none, some, wrap32, wrap64,
  length, skip, take, sum_by, err, Option-cases, Bool-cases, ltb, ltb→lt, arith, inl, inr,
}
use icn_v.Runtime.HostCalls.{
  HostContext, i32_as_u64, get_range, HostCall, log_message, anchor_cid, check_authorization,
  record_usage, submit_job,
}

range_lem :
    (ptr len : ℕ) (mem : List ℕ)
    → ptr < 4294967296
    → len < 4294967296
    → length mem < 4294967296
    → let range = get_range ptr (wrap32 (ptr + len)) mem in
      ((ptr + len ≤ length mem) × (range ≡ some (take len (skip ptr mem))))
      ⊎ ((length mem < ptr + len) × (range ≡ none))
unfolding get_range
range_lem ptr len mem p l m = elim (Bool-cases (ltb (length mem) (ptr + len))) [
  | inl beyond ↦ inr (omega (arith, ltb→lt _ _ beyond), ground (arith, ltb→lt _ _ beyond))
  | inr within ↦
      let fits : ptr + len ≤ length mem = ground (arith, within) in
      let same : wrap32 (ptr + len) ≡ ptr + len = omega arith in
      inl (fits, rw same (ground (arith, fits)))
]

-- Where the memory, of less than 4 GiB, holds a whole text, the host reads exactly its bytes and
-- refuses them only when they are not UTF-8. Any other address and length are refused as an invalid
-- access, also when their sum wraps at 2 ^ 32.
pub read_text_lem :
    (from_utf8 : List ℕ → Option String) (mem : List ℕ) (s : Span) (no_access no_utf8 : String)
    → s.ptr < 4294967296
    → s.len < 4294967296
    → length mem < 4294967296
    → let result = read_text from_utf8 mem s no_access no_utf8 in
      ((s.ptr + s.len ≤ length mem)
        × (result ≡ ok_or no_utf8 (from_utf8 (take s.len (skip s.ptr mem)))))
      ⊎ ((length mem < s.ptr + s.len) × (result ≡ err no_access))
unfolding read_text
read_text_lem from_utf8 mem s no_access no_utf8 p l m = elim (range_lem s.ptr s.len mem p l m) [
  | inr (beyond, e) ↦ inr (beyond, rw (e, read_text) refl)
  | inl (fits, e) ↦ inl (
    fits,
    elim (Option-cases (from_utf8 (take s.len (skip s.ptr mem)))) [
      | inl bad ↦ rw (e, read_text) (rw bad refl)
      | inr (text, good) ↦ rw (e, read_text) (rw good refl)
    ],
  )
]

-- Is a call of the kind?
abbrev pub is_log : HostCall → ℕ
is_log (log_message s) = 1
is_log (anchor_cid s) = 0
is_log (check_authorization s amount) = 0
is_log (record_usage s amount) = 0
is_log (submit_job cid desc kind amount prio) = 0

abbrev pub is_anchor : HostCall → ℕ
is_anchor (log_message s) = 0
is_anchor (anchor_cid s) = 1
is_anchor (check_authorization s amount) = 0
is_anchor (record_usage s amount) = 0
is_anchor (submit_job cid desc kind amount prio) = 0

abbrev pub is_usage : HostCall → ℕ
is_usage (log_message s) = 0
is_usage (anchor_cid s) = 0
is_usage (check_authorization s amount) = 0
is_usage (record_usage s amount) = 1
is_usage (submit_job cid desc kind amount prio) = 0

abbrev pub is_job : HostCall → ℕ
is_job (log_message s) = 0
is_job (anchor_cid s) = 0
is_job (check_authorization s amount) = 0
is_job (record_usage s amount) = 0
is_job (submit_job cid desc kind amount prio) = 1

-- The bytes that the host charges for a call.
abbrev charge : HostCall → ℕ
charge (log_message s) = i32_as_u64 s.len
charge (anchor_cid s) = i32_as_u64 s.len
charge (check_authorization s amount) = 0
charge (record_usage s amount) = i32_as_u64 s.len
charge (submit_job cid desc kind amount prio) =
    i32_as_u64 (wrap32 (cid.len + desc.len + kind.len + prio.len))

-- The texts of a call that the context keeps. What is only checked is not kept.
abbrev pub kept : HostCall → List Span
kept (log_message s) = s ∷ []
kept (anchor_cid s) = s ∷ []
kept (check_authorization s amount) = []
kept (record_usage s amount) = s ∷ []
kept (submit_job cid desc kind amount prio) = cid ∷ desc ∷ kind ∷ prio ∷ []

abbrev pub kept_bytes : HostCall → ℕ
kept_bytes call = sum_by (λ s. s.len) (kept call)

-- The texts that a call leaves in the context are shorter than 2 GiB together.
abbrev pub Short : HostCall × Option (List ℕ) → Type 0
Short e = kept_bytes e.0 < 2147483648

-- A context after some calls, with how many there are of each kind and their charges.
record Grown (n logs anchors usages jobs io : ℕ) (c c' : HostContext) : Type 0 where
  calls_lem : wrap64 c'.metrics.host_calls ≡ wrap64 (c.metrics.host_calls + n)
  io_lem : wrap64 c'.metrics.io_bytes ≡ wrap64 (c.metrics.io_bytes + io)
  logs_lem : length c'.logs ≡ length c.logs + logs
  anchors_lem : length c'.anchored_cids ≡ length c.anchored_cids + anchors
  usages_lem : length c'.resource_usage ≡ length c.resource_usage + usages
  jobs_lem : length c'.job_submissions ≡ length c.job_submissions + jobs

abbrev GrownBy : ℕ → HostCall → HostContext → HostContext → Type 0
GrownBy n call c c' =
    Grown n (is_log call) (is_anchor call) (is_usage call) (is_job call) (charge call) c c'

-- What an empty context holds after calls.
abbrev pub Metered : List (HostCall × Option (List ℕ)) → HostContext → Type 0
Metered calls c =
    (wrap64 c.metrics.host_calls ≡ wrap64 (length calls))
    × (wrap64 c.metrics.io_bytes ≡ wrap64 (sum_by (λ e. kept_bytes e.0) calls))
    × (length c.logs ≡ sum_by (λ e. is_log e.0) calls)
    × (length c.resource_usage ≡ sum_by (λ e. is_usage e.0) calls)
    × (length c.anchored_cids ≡ sum_by (λ e. is_anchor e.0) calls)
    × (c.metrics.anchored_cids_count ≡ sum_by (λ e. is_anchor e.0) calls)
    × (length c.job_submissions ≡ sum_by (λ e. is_job e.0) calls)
    × (c.metrics.job_submissions_count ≡ sum_by (λ e. is_job e.0) calls)

module _ (from_utf8 : List ℕ → Option String) where
  -- How often the calls of a module are of a kind, or what they are charged.
  abbrev GrownByAll : List (HostCall × Option (List ℕ)) → HostContext → HostContext → Type 0
  GrownByAll calls c c' =
      Grown (length calls) (sum_by (λ e. is_log e.0) calls) (sum_by (λ e. is_anchor e.0) calls)
        (sum_by (λ e. is_usage e.0) calls) (sum_by (λ e. is_job e.0) calls)
        (sum_by (λ e. charge e.0) calls) c c'
