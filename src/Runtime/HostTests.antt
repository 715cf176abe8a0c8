-- ===== src/Runtime/HostTests.antt =====
-- Tests of the host functions of icn-core-vm, and the theorems about them at concrete inputs.
use icn_v.Base.{err}
use icn_v.Base.{ok_or}
use icn_v.Base.{
  ℕ, ◌+◌, ◌≤◌, ◌<◌, String, ◌≡◌, ◌⊎◌, refl, List, [], ◌∷◌, Option, none, some, arith, length, skip,
  take,
}
use icn_v.Runtime.HostCalls.{
  default_context, get_range, Span, HostCall, log_message, anchor_cid, submit_job, read_text,
  read_job, log_function, anchor_function, submit_job_function, host_function, call_host, run_calls,
  execute,
}
use icn_v.Runtime.Metering.{read_text_lem}

-- Every text is one word.
abbrev word : List ℕ → Option String
word bytes = some "word"

abbrev memory : List ℕ
memory = 104 ∷ 101 ∷ 108 ∷ 108 ∷ 111 ∷ []

abbrev span : ℕ → ℕ → Span
span ptr len = record { ptr = ptr; len = len }

-- A module that logs two bytes, anchors three and submits a job.
abbrev calls : List (HostCall × Option (List ℕ))
calls =
    (log_message (span 0 2), some memory)
    ∷ (anchor_cid (span 2 3), some memory)
    ∷ (submit_job (span 0 1) (span 1 1) (span 2 1) 7 (span 3 1), some memory)
    ∷ []

bytes_counted : (execute word calls none default_context).1.metrics.io_bytes ≡ 9
unfolding execute run_calls call_host host_function log_function anchor_function submit_job_function
    read_job read_text get_range
bytes_counted = refl

-- The end of this range wraps to 4, before its start.
read_text_lem_example :
    let result = read_text word memory (span 4294967295 5) "no access" "no text" in
    ((4294967295 + 5 ≤ length memory)
      × (result ≡ ok_or "no text" (word (take 5 (skip 4294967295 memory)))))
    ⊎ ((length memory < 4294967295 + 5) × (result ≡ err "no access"))
read_text_lem_example =
    read_text_lem word memory (span 4294967295 5) "no access" "no text" (ground arith)
      (ground arith) (ground arith)
