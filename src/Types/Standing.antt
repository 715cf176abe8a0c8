-- ===== src/Types/Standing.antt =====
-- What a reputation profile keeps under events (icn-types/src/reputation.rs).
use native.Mathlib.Nat.{div-le_of_le-mul, mul-le-mul_right}
use icn_v.Base.{
  ℕ, ◌+◌, ◌*◌, ◌/◌, ◌≤◌, ◌<◌, String, ◌≡◌, refl, ◌⊎◌, inl, inr, true, false, List, [], ◌∷◌, ◌++◌,
  Option, none, some, arith, suc, zero, min, string_eq, eq_iff, u64_size, Bool-cases,
}
use icn_v.Identity.Quorum.{member}
use icn_v.Identity.Weights.{Apart}
use icn_v.Types.Reputation.{
  FloatOps, ReputationProfile, ReputationUpdateEvent, job_completed_successfully, job_failed,
  dishonesty_penalty, stake_increased, stake_decreased, endorsement_received, endorsement_revoked,
  profile_score_manually_adjusted, average_u32, retain_others, apply_metrics, apply_event,
}

member-append :
    (x d : String) (ds : List String)
    → member x (ds ++ d ∷ []) ≡ true
    → (member x ds ≡ true) ⊎ (d ≡ x)
member-append x d [] h = ground (arith, eq_iff d x)
member-append x d (y ∷ ys) h = ground (arith, member-append x d ys)

Apart-append :
    (d : String) (ds : List String) → member d ds ≡ false → Apart ds → Apart (ds ++ d ∷ [])
Apart-append d [] new h = (refl, tt)
Apart-append d (y ∷ ys) new h =
    ground (arith, Apart-append d ys, member-append y d ys, eq_iff d y, eq_iff y d)

member-retain_others :
    (x from : String) (ds : List String)
    → member x ds ≡ false
    → member x (retain_others from ds) ≡ false
unfolding retain_others
member-retain_others x from [] h = refl
member-retain_others x from (d ∷ ds) h = ground (arith, member-retain_others x from ds)

Apart-retain_others : (from : String) (ds : List String) → Apart ds → Apart (retain_others from ds)
unfolding retain_others
Apart-retain_others from [] h = tt
Apart-retain_others from (d ∷ ds) h =
    ground (arith, Apart-retain_others from ds h.1, member-retain_others d from ds h.0)

abbrev pub Below : ℕ → Option ℕ → Type 0
Below b none = Unit
Below b (some n) = n ≤ b

average_u32-Below :
    (b : ℕ) (prev : Option ℕ) (new count : ℕ)
    → Below b prev
    → new ≤ b
    → average_u32 prev new count ≤ b
unfolding average_u32
average_u32-Below b none new count h le = le
average_u32-Below b (some old) new zero h le = ground arith
average_u32-Below b (some old) new (suc n) h le =
    let part : old * n ≤ b * n = mul-le-mul_right n h in
    let sum = min (min (old * n) 18446744073709551615 + new) 18446744073709551615 in
    let whole : sum ≤ suc n * b = omega (arith, part) in
    let quotient : sum / suc n ≤ b = div-le_of_le-mul (suc n) whole in ground (arith, quotient)

-- No event lasts longer than `b`.
abbrev pub Lasts : {F D Cid : Type 0} → ℕ → ReputationUpdateEvent F D Cid → Type 0
Lasts b (job_completed_successfully _ duration _ _ _ _ _) = duration ≤ b
Lasts b _ = Unit

module _ {F D Cid M : Type 0} (ops : FloatOps F) where
  -- The counts of jobs add up, and nobody endorses twice.
  abbrev pub IsConsistent : ReputationProfile F D Cid M → Type 0
  IsConsistent p =
      (p.total_jobs ≡ p.successful_jobs + p.failed_jobs)
      × (p.successful_jobs ≡ p.jobs_on_time + p.jobs_late)
      × Apart p.endorsements

  apply_metrics-IsConsistent :
      (e : ReputationUpdateEvent F D Cid) (p : ReputationProfile F D Cid M)
      → IsConsistent p
      → p.total_jobs + 1 < u64_size
      → IsConsistent (apply_metrics ops e p)
  unfolding apply_metrics
  apply_metrics-IsConsistent (job_completed_successfully _ _ _ on_time _ _ _) p (t, s, a) small =
      (omega arith, ground arith, a)
  apply_metrics-IsConsistent (job_failed _ _ _ _) p (t, s, a) small = (omega arith, s, a)
  apply_metrics-IsConsistent (dishonesty_penalty _ _ _) p h small = h
  apply_metrics-IsConsistent (stake_increased _ _) p h small = h
  apply_metrics-IsConsistent (stake_decreased _ _) p h small = h
  apply_metrics-IsConsistent (endorsement_received from _) p (t, s, a) small =
      elim (Bool-cases (member from p.endorsements)) [
        | inl there ↦ rw there (t, s, a)
        | inr new ↦ rw new (t, s, Apart-append from p.endorsements new a)
      ]
  apply_metrics-IsConsistent (endorsement_revoked from _) p (t, s, a) small =
      (t, s, Apart-retain_others from p.endorsements a)
  apply_metrics-IsConsistent (profile_score_manually_adjusted _ _ _) p h small = h

  apply_metrics-Below :
      (b : ℕ) (e : ReputationUpdateEvent F D Cid) (p : ReputationProfile F D Cid M)
      → Lasts b e
      → Below b p.average_execution_ms
      → Below b (apply_metrics ops e p).average_execution_ms
  unfolding apply_metrics
  apply_metrics-Below b (job_completed_successfully _ duration _ _ _ _ _) p le h =
      average_u32-Below b p.average_execution_ms duration _ h le
  apply_metrics-Below b (job_failed _ _ _ _) p le h = h
  apply_metrics-Below b (dishonesty_penalty _ _ _) p le h = h
  apply_metrics-Below b (stake_increased _ _) p le h = h
  apply_metrics-Below b (stake_decreased _ _) p le h = h
  apply_metrics-Below b (endorsement_received from _) p le h =
      elim (Bool-cases (member from p.endorsements)) [ inl there ↦ rw there h | inr new ↦ rw new h ]
  apply_metrics-Below b (endorsement_revoked from _) p le h = h
  apply_metrics-Below b (profile_score_manually_adjusted _ _ _) p le h = h

  -- An event keeps a profile consistent, as long as its number of jobs has not reached the end of a `u64`: all
  -- jobs are the successful and the failed ones, the successful ones are those on time and those late, and
  -- nobody endorses twice. It keeps the average duration of jobs below every bound of the durations so
  -- far and of its own, and sets the time of the update.
  pub apply_event-IsConsistent :
      (now : ℕ) (e : ReputationUpdateEvent F D Cid) (p : ReputationProfile F D Cid M)
      → IsConsistent p
      → p.total_jobs + 1 < u64_size
      → IsConsistent (apply_event ops now e p)
        × ((b : ℕ)
            → Lasts b e
            → Below b p.average_execution_ms
            → Below b (apply_event ops now e p).average_execution_ms)
        × ((apply_event ops now e p).last_updated ≡ now)
  unfolding apply_event
  apply_event-IsConsistent now e p h small = (
    apply_metrics-IsConsistent e p h small,
    λ b le below. apply_metrics-Below b e p le below,
    refl,
  )
