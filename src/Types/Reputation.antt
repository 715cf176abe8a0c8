-- ===== src/Types/Reputation.antt =====
-- `ReputationProfile` and `apply_event` of crates/common/icn-types/src/reputation.rs. The operations on
-- floating-point numbers, the type of CIDs and that of the mana of a profile, which nothing here looks at,
-- are parameters; a time is a number, and the clock is an argument.
use icn_v.Base.{
  ℕ, ◌+◌, ◌*◌, ◌/◌, ◌%◌, String, Bool, not, List, [], ◌∷◌, ◌++◌, Option, none, some, if◌then◌else◌,
  nat_beq, min, saturating_add, saturating_sub, ◌==◌, string_eq,
}
use icn_v.Identity.Quorum.{member}

-- The operations on `f32` that `average_f32` uses.
pub record FloatOps (F : Type 0) : Type 0 where
  pub add : F → F → F
  pub mul : F → F → F
  pub div : F → F → F
  pub of_nat : ℕ → F

-- `F` is `f32`, `D` is `f64`, and `M` the type of `mana_state`.
pub record ReputationProfile (F D Cid M : Type 0) : Type 0 where
  pub node_id : String
  pub last_updated : ℕ
  pub total_jobs : ℕ
  pub successful_jobs : ℕ
  pub failed_jobs : ℕ
  pub jobs_on_time : ℕ
  pub jobs_late : ℕ
  pub average_execution_ms : Option ℕ
  pub average_bid_accuracy : Option F
  pub dishonesty_events : ℕ
  pub endorsements : List String
  pub current_stake : Option ℕ
  pub computed_score : D
  pub latest_anchor_cid : Option Cid
  pub mana_state : Option M

pub data ReputationUpdateEvent (F D Cid : Type 0) : Type 0 where
  job_completed_successfully :
      (job_id : Cid)
      → (execution_duration_ms : ℕ) → (bid_accuracy : F) → (on_time : Bool)
      → (anchor_cid : Option Cid) → (mana_cost : Option ℕ) → (verification_passed : Bool)
      → ReputationUpdateEvent F D Cid
  job_failed :
      (job_id : Cid)
      → (reason : String) → (anchor_cid : Option Cid) → (verification_failed : Bool)
      → ReputationUpdateEvent F D Cid
  dishonesty_penalty :
      (job_id : Option Cid)
      → (details : String) → (penalty_amount : Option ℕ) → ReputationUpdateEvent F D Cid
  stake_increased stake_decreased : (by_amount new_total_stake : ℕ) → ReputationUpdateEvent F D Cid
  endorsement_received : (from : String) → (context : Option String) → ReputationUpdateEvent F D Cid
  endorsement_revoked : (from : String) → (reason : Option String) → ReputationUpdateEvent F D Cid
  profile_score_manually_adjusted :
      (new_score previous_score : D) → (reason : String) → ReputationUpdateEvent F D Cid

-- `saturating_mul` on `u64`, and `saturating_add` on `u32`.
abbrev saturating_mul : ℕ → ℕ → ℕ
saturating_mul a b = min (a * b) 18446744073709551615

abbrev saturating_add32 : ℕ → ℕ → ℕ
saturating_add32 a b = min (a + b) 4294967295

unfoldable pub average_u32 : Option ℕ → ℕ → ℕ → ℕ
average_u32 none new_val count = new_val
average_u32 (some old_avg) new_val count =
    if nat_beq count 0
    then new_val
    else saturating_add (saturating_mul old_avg (saturating_sub count 1)) new_val
      / count
      % 4294967296

-- `retain(|d| d != from)`
unfoldable pub retain_others : String → List String → List String
retain_others from [] = []
retain_others from (d ∷ ds) =
    if not (d == from) then d ∷ retain_others from ds else retain_others from ds

module _ {F : Type 0} (ops : FloatOps F) where
  unfoldable pub average_f32 : Option F → F → ℕ → F
  average_f32 none new_val count = new_val
  average_f32 (some old_avg) new_val count =
      if nat_beq count 0
      then new_val
      else ops.div (ops.add (ops.mul old_avg (ops.of_nat (saturating_sub count 1))) new_val)
          (ops.of_nat count)

  module _ {D Cid M : Type 0} where
    -- The match on the event.
    unfoldable pub apply_metrics :
        ReputationUpdateEvent F D Cid → ReputationProfile F D Cid M → ReputationProfile F D Cid M
    apply_metrics (job_completed_successfully _ duration accuracy on_time _ _ _) p =
        let successful = saturating_add p.successful_jobs 1 in
        record p {
          successful_jobs = successful;
          jobs_on_time = if on_time then saturating_add p.jobs_on_time 1 else p.jobs_on_time;
          jobs_late = if on_time then p.jobs_late else saturating_add p.jobs_late 1;
          average_execution_ms = some (average_u32 p.average_execution_ms duration successful);
          average_bid_accuracy = some (average_f32 p.average_bid_accuracy accuracy successful);
          total_jobs = saturating_add p.total_jobs 1;
        }
    apply_metrics (job_failed _ _ _ _) p = record p {
      failed_jobs = saturating_add p.failed_jobs 1;
      total_jobs = saturating_add p.total_jobs 1;
    }
    apply_metrics (dishonesty_penalty _ _ _) p = record p {
      dishonesty_events = saturating_add32 p.dishonesty_events 1;
    }
    apply_metrics (stake_increased _ stake) p = record p { current_stake = some stake }
    apply_metrics (stake_decreased _ stake) p = record p { current_stake = some stake }
    apply_metrics (endorsement_received from _) p =
        if not (member from p.endorsements)
        then record p { endorsements = p.endorsements ++ from ∷ [] }
        else p
    apply_metrics (endorsement_revoked from _) p = record p {
      endorsements = retain_others from p.endorsements;
    }
    apply_metrics (profile_score_manually_adjusted score _ _) p = record p {
      computed_score = score;
    }

    unfoldable pub apply_event :
        ℕ
        → ReputationUpdateEvent F D Cid
        → ReputationProfile F D Cid M
        → ReputationProfile F D Cid M
    apply_event now event p = record (apply_metrics event p) { last_updated = now }
