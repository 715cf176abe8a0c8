-- ===== src/Agoranet/Answers.antt =====
-- What `query_transfers` of icn-agoranet/src/transfers.rs answers.
use mathlib.Core.List.{append-nil}
use icn_v.Agoranet.Types.{entity_type_eq}
use icn_v.Base.{string_eq, ◌==◌, not, ◌&&◌}
use icn_v.Agoranet.Query.{holds, side_matches, entity_matches}
use icn_v.Base.{◌↔◌, ◌⊎◌, ◌≢◌, String, ◌++◌, ◌||◌, false}
use icn_v.Base.{
  ap, inl, inr, ℕ, ◌-◌, ◌≤◌, ◌≡◌, refl, ◌∙◌, Bool, true, List, [], ◌∷◌, Option, none, some, arith,
  zero, suc, ltb, min, length, filterb, Bool-cases,
}
use icn_v.Agoranet.Types.{Transfer, TransferQuery}
use icn_v.Agoranet.Query.{
  matches, sort_newest, skip, truncate, from_offset, up_to_limit, query_transfers,
}
use icn_v.Agoranet.Sorting.{Newest, number, sort_newest-Newest, sort_newest-number}

-- How many of `n` an offset and a limit leave.
abbrev pub page_size : (offset limit : Option ℕ) → ℕ → ℕ
page_size none none n = n
page_size none (some limit) n = min limit n
page_size (some offset) none n = n - offset
page_size (some offset) (some limit) n = min limit (n - offset)

-- How many an offset leaves out of `n`.
abbrev pub skipped : (offset : Option ℕ) → ℕ → ℕ
skipped none n = 0
skipped (some offset) n = min offset n

page_size-both : (o l : Option ℕ) (n : ℕ) → page_size none l (page_size o none n) ≡ page_size o l n
page_size-both none none n = refl
page_size-both none (some l) n = refl
page_size-both (some o) none n = refl
page_size-both (some o) (some l) n = refl

-- What a query asks of a transfer, where it asks it.
abbrev pub Asks : {A : Type 0} → (A → Type 0) → Option A → Type 0
Asks P none = Unit
Asks P (some a) = P a

-- The side of a transfer on which an entity is looked for.
abbrev pub SideWanted : (from_only to_only : Option Bool) → (sender receiver : Type 0) → Type 0
SideWanted (some true) to_only sender receiver = sender
SideWanted from_only (some true) sender receiver = receiver
SideWanted from_only to_only sender receiver = sender ⊎ receiver

holds-Asks :
    {A : Type 0} (test : A → Bool) (P : A → Type 0) (o : Option A)
    → ((a : A) → (test a ≡ true) ↔ P a)
    → (holds test o ≡ true) ↔ Asks P o
holds-Asks test P none h = ground arith
holds-Asks test P (some a) h = h a

side_matches_iff :
    (from_only to_only : Option Bool) {P Q : Type 0} (a b : Bool)
    → (a ≡ true) ↔ P
    → (b ≡ true) ↔ Q
    → (side_matches from_only to_only a b ≡ true) ↔ SideWanted from_only to_only P Q
side_matches_iff (some true) to_only a b h k = h
side_matches_iff none none a b h k = ground (arith, h, k)
side_matches_iff none (some true) a b h k = k
side_matches_iff none (some false) a b h k = ground (arith, h, k)
side_matches_iff (some false) none a b h k = ground (arith, h, k)
side_matches_iff (some false) (some true) a b h k = k
side_matches_iff (some false) (some false) a b h k = ground (arith, h, k)

module _ {Value : Type 0} where
  -- A list is cut after its first elements.
  skip-cut :
      (n : ℕ) (ts : List (Transfer Value))
      → (first : List (Transfer Value)) × (first ++ skip n ts ≡ ts)
        × (length first ≡ min n (length ts))
        × (length (skip n ts) ≡ length ts - n)
  unfolding skip
  skip-cut n [] = ([], refl, omega arith, omega arith)
  skip-cut zero (t ∷ ts) = ([], refl, omega arith, omega arith)
  skip-cut (suc n) (t ∷ ts) =
      let (first, whole, size, left) = skip-cut n ts in
      (
        t ∷ first,
        ap (λ (us : List (Transfer Value)). t ∷ us) whole,
        omega (arith, size),
        omega (arith, left),
      )

  truncate-cut :
      (n : ℕ) (ts : List (Transfer Value))
      → (last : List (Transfer Value)) × (truncate n ts ++ last ≡ ts)
        × (length (truncate n ts) ≡ min n (length ts))
  unfolding truncate
  truncate-cut n [] = ([], refl, omega arith)
  truncate-cut zero (t ∷ ts) = (t ∷ ts, refl, omega arith)
  truncate-cut (suc n) (t ∷ ts) =
      let (last, whole, size) = truncate-cut n ts in
      (last, ap (λ (us : List (Transfer Value)). t ∷ us) whole, omega (arith, size))

  -- The place of a page in the list: an offset before it, and as much as fits in it.
  abbrev pub Page : (offset limit : Option ℕ) → (page ts : List (Transfer Value)) → Type 0
  Page offset limit page ts =
      (before : List (Transfer Value)) × (after : List (Transfer Value)) × (before
          ++ (page ++ after)
        ≡ ts)
      × (length before ≡ skipped offset (length ts))
      × (length page ≡ page_size offset limit (length ts))

  from_offset-cut :
      (o : Option ℕ) (ts : List (Transfer Value))
      → (first : List (Transfer Value)) × (first ++ from_offset o ts ≡ ts)
        × (length first ≡ skipped o (length ts))
        × (length (from_offset o ts) ≡ page_size o none (length ts))
  from_offset-cut none ts = ([], refl, refl, refl)
  from_offset-cut (some n) ts = elim (Bool-cases (ltb n (length ts))) [
    | inl e ↦ rw e (skip-cut n ts)
    | inr e ↦ rw e (ts, append-nil ts, ground (arith, e), ground (arith, e))
  ]

  up_to_limit-cut :
      (l : Option ℕ) (ts : List (Transfer Value))
      → (last : List (Transfer Value)) × (up_to_limit l ts ++ last ≡ ts)
        × (length (up_to_limit l ts) ≡ page_size none l (length ts))
  up_to_limit-cut none ts = ([], append-nil ts, refl)
  up_to_limit-cut (some n) ts = elim (Bool-cases (ltb n (length ts))) [
    | inl e ↦ rw e (truncate-cut n ts)
    | inr e ↦ rw e ([], append-nil ts, ground (arith, e))
  ]

  answer-Page :
      (o l : Option ℕ) (ts : List (Transfer Value)) → Page o l (up_to_limit l (from_offset o ts)) ts
  answer-Page o l ts =
      let (first, whole, size, left) = from_offset-cut o ts in
      let (last, rest, held) = up_to_limit-cut l (from_offset o ts) in
      (
        first,
        last,
        ap (λ (us : List (Transfer Value)). first ++ us) rest ∙ whole,
        size,
        held ∙ ap (page_size none l) left ∙ page_size-both o l (length ts),
      )

  abbrev pub EntityWanted : TransferQuery → Option String → Transfer Value → Type 0
  EntityWanted q none t =
      Asks (λ ty. (t.from.entity_type ≡ ty) ⊎ (t.to.entity_type ≡ ty)) q.entity_type
  EntityWanted q (some id) t =
      SideWanted q.from_only q.to_only (t.from.id ≡ id) (t.to.id ≡ id)
      × Asks
          (λ ty.
            ((t.from.id ≢ id) ⊎ (t.from.entity_type ≡ ty))
            × ((t.to.id ≢ id) ⊎ (t.to.entity_type ≡ ty)))
          q.entity_type

  abbrev pub Wanted : TransferQuery → Transfer Value → Type 0
  Wanted q t =
      Asks (λ fed. t.federation_id ≡ fed) q.federation_id
      × EntityWanted q q.entity_id t
      × Asks (λ first. first ≤ t.timestamp) q.start_date
      × Asks (λ last. t.timestamp ≤ last) q.end_date
      × Asks (λ least. least ≤ t.amount) q.min_amount
      × Asks (λ most. t.amount ≤ most) q.max_amount

  entity_matches_iff :
      (q : TransferQuery) (entity_id : Option String) (t : Transfer Value)
      → (entity_matches q entity_id t ≡ true) ↔ EntityWanted q entity_id t
  unfolding entity_matches
  entity_matches_iff q none t =
      holds-Asks _ (λ ty. (t.from.entity_type ≡ ty) ⊎ (t.to.entity_type ≡ ty)) q.entity_type
        (λ ty. ground (
          arith,
          entity_type_eq.eqb_iff t.from.entity_type ty,
          entity_type_eq.eqb_iff t.to.entity_type ty,
        ))
  entity_matches_iff q (some id) t = ground (
    arith,
    side_matches_iff q.from_only q.to_only (t.from.id == id) (t.to.id == id)
        (string_eq.eqb_iff t.from.id id) (string_eq.eqb_iff t.to.id id),
    holds-Asks
        (λ ty. not (
          ((t.from.id == id) && not (t.from.entity_type == ty))
          || ((t.to.id == id) && not (t.to.entity_type == ty))))
        (λ ty.
          ((t.from.id ≢ id) ⊎ (t.from.entity_type ≡ ty))
          × ((t.to.id ≢ id) ⊎ (t.to.entity_type ≡ ty)))
        q.entity_type
        (λ ty. ground (
          arith,
          string_eq.eqb_iff t.from.id id,
          string_eq.eqb_iff t.to.id id,
          entity_type_eq.eqb_iff t.from.entity_type ty,
          entity_type_eq.eqb_iff t.to.entity_type ty,
        )),
  )

  matches_iff : (q : TransferQuery) (t : Transfer Value) → (matches q t ≡ true) ↔ Wanted q t
  unfolding matches
  matches_iff q t = ground (
    arith,
    entity_matches_iff q q.entity_id t,
    holds-Asks (λ fed. t.federation_id == fed) (λ fed. t.federation_id ≡ fed) q.federation_id
        (string_eq.eqb_iff t.federation_id),
    holds-Asks (λ first. not (ltb t.timestamp first)) (λ first. first ≤ t.timestamp) q.start_date
        (λ first. ground arith),
    holds-Asks (λ last. not (ltb last t.timestamp)) (λ last. t.timestamp ≤ last) q.end_date
        (λ last. ground arith),
    holds-Asks (λ least. not (ltb t.amount least)) (λ least. least ≤ t.amount) q.min_amount
        (λ least. ground arith),
    holds-Asks (λ most. not (ltb most t.amount)) (λ most. t.amount ≤ most) q.max_amount
        (λ most. ground arith),
  )

  -- An answer is a page of the wanted transfers of the ledger, newest first: behind as many of them as
  -- the offset says, and as many as the limit allows and are left. The wanted ones are those of the
  -- federation, of the entity, on the side and of the type that the query names, and within its dates
  -- and amounts; each is among them as often as in the ledger.
  pub query_transfers-Answer :
      (q : TransferQuery) (ts : List (Transfer Value))
      → (wanted : Transfer Value → Bool) × ((t : Transfer Value) → (wanted t ≡ true) ↔ Wanted q t)
        × (sorted : List (Transfer Value)) × Newest sorted
        × ((p : Transfer Value → Bool) → number p sorted ≡ number p (filterb wanted ts))
        × Page q.offset q.limit (query_transfers q ts) sorted
  unfolding query_transfers
  query_transfers-Answer q ts =
      let all = filterb (matches q) ts in
      (
        matches q,
        matches_iff q,
        sort_newest all,
        sort_newest-Newest all,
        λ p. sort_newest-number p all,
        answer-Page q.offset q.limit (sort_newest all),
      )
