-- ===== src/Types/JobStatus.antt =====
-- `JobStatus` of crates/common/icn-types/src/jobs/mod.rs and its columns in a database. A DID is its text;
-- parsing one (icn-identity/src/did.rs) and the JSON of a failure (serde_json) are parameters.
use icn_v.Base.{
  sym, ap, ◌∙◌, String, ◌≡◌, refl, Option, none, some, arith, if◌then◌else◌, ◌==◌, string_eq,
  Result, ok, err, ◌>>=◌, ok_or, map_err, prefixed,
}

pub data JobFailureReason : Type 0 where
  internal_error resource_limit_exceeded : JobFailureReason
  execution_error : String → JobFailureReason
  permission_denied invalid_input timeout manually_cancelled dependency_failed : JobFailureReason
  not_found network_error output_error service_provider_error : JobFailureReason
  unknown : String → JobFailureReason

pub data JobStatus : Type 0 where
  pending bidding completed cancelled bidding_expired : JobStatus
  assigned : (bidder_did : String) → JobStatus
  running : (runner : String) → JobStatus
  failed : (reason : JobFailureReason) → JobStatus

-- The five columns that `to_db_fields` returns.
pub record DbFields : Type 0 where
  pub status_type : String
  pub bidder_did : Option String
  pub node_id : Option String
  pub result_cid : Option String
  pub error_message : Option String

abbrev only : String → DbFields
only status = record {
  status_type = status;
  bidder_did = none;
  node_id = none;
  result_cid = none;
  error_message = none;
}

-- `serde_json::to_string(reason).ok()`
module _ (to_json : JobFailureReason → Option String) where
  unfoldable pub to_db_fields : JobStatus → DbFields
  to_db_fields JobStatus.pending = only "Pending"
  to_db_fields JobStatus.bidding = only "Bidding"
  to_db_fields (JobStatus.assigned did) = record (only "Assigned") { bidder_did = some did }
  to_db_fields (JobStatus.running did) = record (only "Running") { bidder_did = some did }
  to_db_fields JobStatus.completed = only "Completed"
  to_db_fields (JobStatus.failed reason) = record (only "Failed") { error_message = to_json reason }
  to_db_fields JobStatus.cancelled = only "Cancelled"
  to_db_fields JobStatus.bidding_expired = record (only "BiddingExpired") {
    error_message = some "Bidding expired without assignment";
  }

-- `serde_json::from_str(msg).ok()`, and the parsing of a DID.
module _ (from_json : String → Option JobFailureReason)
    (parse : String → Result String String) where
  abbrev reason_of : Option String → JobFailureReason
  reason_of none = JobFailureReason.unknown "No failure reason provided"
  reason_of (some msg) = elim (from_json msg) [
    | some reason ↦ reason
    | none ↦ JobFailureReason.unknown (prefixed "Unparsable failure reason from DB: " msg)
  ]

  -- The text of an error is that of `format!` up to the DID and the error of its parsing.
  unfoldable pub from_db_fields : DbFields → Result JobStatus String
  from_db_fields f =
      if f.status_type == "Pending"
      then ok JobStatus.pending
      else if f.status_type == "Bidding"
      then ok JobStatus.bidding
      else if f.status_type == "Assigned"
      then (ok_or "Missing bidder_did for Assigned status" f.bidder_did >>= λ text.
          map_err (prefixed "Invalid DID for Assigned status: ") (parse text) >>= λ did.
          ok (JobStatus.assigned did))
      else if f.status_type == "Running"
      then (ok_or "Missing runner_did for Running status" f.bidder_did >>= λ text.
          map_err (prefixed "Invalid DID for Running status: ") (parse text) >>= λ did.
          ok (JobStatus.running did))
      else if f.status_type == "Completed"
      then ok JobStatus.completed
      else if f.status_type == "Failed"
      then ok (JobStatus.failed (reason_of f.error_message))
      else if f.status_type == "Cancelled"
      then ok JobStatus.cancelled
      else if f.status_type == "BiddingExpired"
      then ok JobStatus.bidding_expired
      else err (prefixed "Unknown job status type from DB: " f.status_type)

module _ (to_json : JobFailureReason → Option String) (from_json : String → Option JobFailureReason)
    (parse : String → Result String String) where
  -- The DID of a status parses to itself, and the JSON of its failure can be written and reads back.
  abbrev pub IsReadable : JobStatus → Type 0
  IsReadable (JobStatus.assigned did) = parse did ≡ ok did
  IsReadable (JobStatus.running did) = parse did ≡ ok did
  IsReadable (JobStatus.failed r) =
      (msg : String) × (to_json r ≡ some msg) × (from_json msg ≡ some r)
  IsReadable _ = Unit

  read_back :
      (s : JobStatus)
      → IsReadable s
      → from_db_fields from_json parse (to_db_fields to_json s) ≡ ok s
  unfolding from_db_fields to_db_fields
  read_back JobStatus.pending h = refl
  read_back JobStatus.bidding h = refl
  read_back (JobStatus.assigned d) h = rw h refl
  read_back (JobStatus.running d) h = rw h refl
  read_back JobStatus.completed h = refl
  read_back (JobStatus.failed r) (msg, written, reads) = rw (written, reads, reason_of) refl
  read_back JobStatus.cancelled h = refl
  read_back JobStatus.bidding_expired h = refl

  -- A status that is written to its columns and read back is the same status, when its DID parses to
  -- itself and the JSON of its failure can be written and reads back. So the columns determine the status:
  -- two such statuses with the same columns are equal.
  pub from_db_fields-to_db_fields :
      (s : JobStatus)
      → IsReadable s
      → (from_db_fields from_json parse (to_db_fields to_json s) ≡ ok s)
        × ((other : JobStatus)
            → IsReadable other
            → to_db_fields to_json other ≡ to_db_fields to_json s
            → other ≡ s)
  from_db_fields-to_db_fields s h = (
    read_back s h,
    λ other h' same.
        let e : Result.ok other ≡ ok s =
          sym (read_back other h') ∙ ap (from_db_fields from_json parse) same ∙ read_back s h in
        ground arith,
  )
