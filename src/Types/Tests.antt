-- ===== src/Types/Tests.antt =====
-- The quorum configuration, the nodes and their store, job statuses and reputation at concrete inputs.
use icn_v.Identity.Quorum.{member}
use icn_v.Base.{All}
use icn_v.Base.{
  arith, ◌+◌, ◌/◌, Option, ℕ, ◌≤◌, ◌*◌, String, ◌≡◌, refl, ◌↔◌, Bool, true, false, List, [], ◌∷◌,
  none, some, nat_beq, Result, ok, err, string_eq,
}
use icn_v.HashMap.{HashMap, keys}
use icn_v.Identity.Quorum.{duplicate_signer, valid_signatures, verify, new_proof}
use icn_v.Identity.Quorum as Quorum
use icn_v.Identity.Weights.{Apart}
use icn_v.Types.JobStatus.{
  JobFailureReason, JobStatus, to_db_fields, from_db_fields, IsReadable,
  from_db_fields-to_db_fields,
}
use icn_v.Types.Reputation.{
  FloatOps, ReputationProfile, ReputationUpdateEvent, job_completed_successfully, average_u32,
  apply_metrics, apply_event,
}
use icn_v.Types.Standing.{IsConsistent, Below, apply_event-IsConsistent}
use icn_v.Types.Dag.{
  DagEventType, DagNode, DagError, DagNodeBuilder, new_builder, set_content, set_timestamp, Nodes,
  insert_node,
}
use icn_v.Types.DagLaws.{Reachable, created, inserted, Reachable-empty}
use icn_v.Types.QuorumConfig.{QuorumConfig, threshold, new_majority, apply_rule, validate_quorum}
use icn_v.Types.Validation.{validate_quorum-Reached, validate_quorum-verify}

abbrev parse : String → Result String String
parse s = ok s

abbrev two_thirds : QuorumConfig
two_thirds = record { rule = threshold 67; authorized_dids = "a" ∷ "b" ∷ "c" ∷ [] }

abbrev signers : List String
signers = "a" ∷ "c" ∷ []

-- Two of three are 66 percent.
not_reached : validate_quorum parse two_thirds ("a" ∷ "c" ∷ []) ≡ some (ok false)
unfolding validate_quorum apply_rule
not_reached = refl

validate_quorum-Reached_example :
    (validate_quorum parse two_thirds signers ≡ some (ok true))
    ↔ All (λ s. member s two_thirds.authorized_dids ≡ true) signers
      × Apart signers
      × (67 * 3 ≤ 2 * 100)
validate_quorum-Reached_example =
    validate_quorum-Reached parse two_thirds ("a" ∷ "c" ∷ []) (omega arith) tt

abbrev check : ℕ → List ℕ → ℕ → Bool
check key message sig = nat_beq key sig

abbrev allowed : HashMap String ℕ
allowed = ("a", 1) ∷ ("b", 2) ∷ ("c", 3) ∷ []

abbrev signatures : List (String × ℕ)
signatures = ("a", 1) ∷ ("c", 3) ∷ ("d", 4) ∷ []

validate_quorum-verify_example :
    (validate_quorum parse
        (new_majority (keys allowed))
        (valid_signatures check [] allowed signatures)
      ≡ some (ok true))
    ↔ (verify check [] allowed (new_proof Quorum.majority signatures) ≡ ok tt)
validate_quorum-verify_example =
    validate_quorum-verify parse check [] allowed signatures (refl, (refl, (refl, tt)))

abbrev node : DagNode ℕ
node = record {
  content = "node 1";
  parent = none;
  event_type = DagEventType.proposal;
  timestamp = 1;
  scope_id = "scope";
}

abbrev half_built : DagNodeBuilder ℕ
half_built = set_timestamp 1 (set_content "node 1" new_builder)

abbrev to_text : ℕ → String
to_text n = "cid"

abbrev after_insert : Nodes ℕ
after_insert = (insert_node to_text node []).1

after_insert-Reachable : Reachable to_text after_insert
after_insert-Reachable = inserted node [] created

Reachable-empty_example :
    (after_insert ≡ [])
    × ((n : DagNode ℕ) → (e : DagError ℕ) × ((insert_node to_text n after_insert).0 ≡ err e))
Reachable-empty_example = Reachable-empty to_text after_insert after_insert-Reachable

-- JSON that keeps the text of an execution error, and nothing else of a failure.
abbrev to_json : JobFailureReason → Option String
to_json (JobFailureReason.execution_error e) = some e
to_json _ = none

abbrev from_json : String → Option JobFailureReason
from_json text = some (JobFailureReason.execution_error text)

abbrev crashed : JobStatus
crashed = JobStatus.failed (JobFailureReason.execution_error "trap")

from_db_fields-to_db_fields_example :
    (from_db_fields from_json parse (to_db_fields to_json crashed) ≡ ok crashed)
    × ((other : JobStatus)
        → IsReadable to_json from_json parse other
        → to_db_fields to_json other ≡ to_db_fields to_json crashed
        → other ≡ crashed)
from_db_fields-to_db_fields_example =
    from_db_fields-to_db_fields to_json from_json parse crashed ("trap", refl, refl)

-- Floating-point numbers are stood for by natural numbers.
abbrev ops : FloatOps ℕ
ops = record { add = λ a b. a + b; mul = λ a b. a * b; div = λ a b. a / b; of_nat = λ n. n }

abbrev worker : ReputationProfile ℕ ℕ String ℕ
worker = record {
  node_id = "worker";
  last_updated = 3;
  total_jobs = 4;
  successful_jobs = 3;
  failed_jobs = 1;
  jobs_on_time = 2;
  jobs_late = 1;
  average_execution_ms = some 100;
  average_bid_accuracy = none;
  dishonesty_events = 0;
  endorsements = "a" ∷ "b" ∷ [];
  current_stake = none;
  computed_score = 5;
  latest_anchor_cid = none;
  mana_state = none;
}

abbrev finished : ReputationUpdateEvent ℕ ℕ String
finished = job_completed_successfully "job" 20 1 true none none true

new_average : (apply_event ops 9 finished worker).average_execution_ms ≡ some 80
unfolding apply_event apply_metrics average_u32
new_average = refl

apply_event-IsConsistent_example :
    IsConsistent ops (apply_event ops 9 finished worker)
    × ((b : ℕ)
        → 20 ≤ b
        → 100 ≤ b
        → Below b (apply_event ops 9 finished worker).average_execution_ms)
    × ((apply_event ops 9 finished worker).last_updated ≡ 9)
apply_event-IsConsistent_example =
    apply_event-IsConsistent ops 9 finished worker (refl, refl, (refl, (refl, tt))) (omega arith)
