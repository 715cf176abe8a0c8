-- ===== src/Agoranet/Query.antt =====
-- `query_transfers` of icn-agoranet/src/transfers.rs. Its stable sort is one by insertion here.
use icn_v.Base.{
  ℕ, String, Bool, true, false, not, ◌&&◌, ◌||◌, List, [], ◌∷◌, Option, none, some, zero, suc,
  if◌then◌else◌, ltb, leb, ◌==◌, string_eq, length, filterb,
}
use icn_v.Agoranet.Types.{entity_type_eq, Transfer, TransferQuery}

-- `if let Some(x) = o { if !test(x) { return false; } }`
abbrev pub holds {ℓ} : {A : Type ℓ} → (A → Bool) → Option A → Bool
holds test none = true
holds test (some a) = test a

-- `o == Some(true)`
abbrev is_true : Option Bool → Bool
is_true none = false
is_true (some b) = b

-- The match on `(from_only, to_only)`.
abbrev pub side_matches : Option Bool → Option Bool → (from_match to_match : Bool) → Bool
side_matches from_only to_only from_match to_match =
    if is_true from_only
    then from_match
    else if is_true to_only
    then to_match
    else from_match || to_match

module _ {Value : Type 0} where
  -- The filter by entity, with an identifier or without.
  unfoldable pub entity_matches : TransferQuery → Option String → Transfer Value → Bool
  entity_matches q (some entity_id) t =
      let from_match = t.from.id == entity_id in
      let to_match = t.to.id == entity_id in
      side_matches q.from_only q.to_only from_match to_match
      && holds
          (λ ty. not (
            (from_match && not (t.from.entity_type == ty))
            || (to_match && not (t.to.entity_type == ty))))
          q.entity_type
  entity_matches q none t =
      holds (λ ty. not (not (t.from.entity_type == ty) && not (t.to.entity_type == ty)))
        q.entity_type

  unfoldable pub matches : TransferQuery → Transfer Value → Bool
  matches q t =
      holds (λ fed. t.federation_id == fed) q.federation_id
      && entity_matches q q.entity_id t
      && holds (λ start. not (ltb t.timestamp start)) q.start_date
      && holds (λ end. not (ltb end t.timestamp)) q.end_date
      && holds (λ least. not (ltb t.amount least)) q.min_amount
      && holds (λ most. not (ltb most t.amount)) q.max_amount

  -- `sort_by(|a, b| b.timestamp.cmp(&a.timestamp))`
  unfoldable pub insert_newest : Transfer Value → List (Transfer Value) → List (Transfer Value)
  insert_newest t [] = t ∷ []
  insert_newest t (u ∷ us) =
      if leb u.timestamp t.timestamp then t ∷ u ∷ us else u ∷ insert_newest t us

  unfoldable pub sort_newest : List (Transfer Value) → List (Transfer Value)
  sort_newest [] = []
  sort_newest (t ∷ ts) = insert_newest t (sort_newest ts)

  -- `skip` and `truncate`
  unfoldable pub skip : ℕ → List (Transfer Value) → List (Transfer Value)
  skip n [] = []
  skip zero (t ∷ ts) = t ∷ ts
  skip (suc n) (t ∷ ts) = skip n ts

  unfoldable pub truncate : ℕ → List (Transfer Value) → List (Transfer Value)
  truncate n [] = []
  truncate zero (t ∷ ts) = []
  truncate (suc n) (t ∷ ts) = t ∷ truncate n ts

  abbrev pub from_offset : Option ℕ → List (Transfer Value) → List (Transfer Value)
  from_offset none ts = ts
  from_offset (some offset) ts = if ltb offset (length ts) then skip offset ts else []

  abbrev pub up_to_limit : Option ℕ → List (Transfer Value) → List (Transfer Value)
  up_to_limit none ts = ts
  up_to_limit (some limit) ts = if ltb limit (length ts) then truncate limit ts else ts

  unfoldable pub query_transfers : TransferQuery → List (Transfer Value) → List (Transfer Value)
  query_transfers q ts =
      up_to_limit q.limit (from_offset q.offset (sort_newest (filterb (matches q) ts)))
