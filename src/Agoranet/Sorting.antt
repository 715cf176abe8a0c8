-- ===== src/Agoranet/Sorting.antt =====
-- The sort of `query_transfers` (icn-agoranet/src/transfers.rs): order, elements and length.
use icn_v.Base.{
  inl, inr, ℕ, ◌+◌, ◌≤◌, ◌≡◌, refl, Bool, true, List, [], ◌∷◌, arith, suc, if◌then◌else◌, leb,
  length, filterb, All, Bool-cases,
}
use icn_v.Agoranet.Types.{Transfer, TransferQuery}
use icn_v.Agoranet.Query.{matches, insert_newest, sort_newest}

module _ {Value : Type 0} where
  -- Newest first.
  abbrev pub Newest : List (Transfer Value) → Type 0
  Newest [] = Unit
  Newest (t ∷ ts) = All (λ u. u.timestamp ≤ t.timestamp) ts × Newest ts

  abbrev pub Matching : TransferQuery → List (Transfer Value) → Type 0
  Matching q ts = All (λ t. matches q t ≡ true) ts

  -- How many elements a test holds of.
  abbrev pub number : (Transfer Value → Bool) → List (Transfer Value) → ℕ
  number p ts = length (filterb p ts)

  insert_newest-All :
      (P : Transfer Value → Type 0) (t : Transfer Value) (ts : List (Transfer Value))
      → P t
      → All P ts
      → All P (insert_newest t ts)
  unfolding insert_newest
  insert_newest-All P t [] h hs = (h, tt)
  insert_newest-All P t (u ∷ us) h hs = elim (Bool-cases (leb u.timestamp t.timestamp)) [
    | inl e ↦ rw e (h, hs)
    | inr e ↦ rw e (hs.0, insert_newest-All P t us h hs.1)
  ]

  All-weaken :
      (a b : ℕ) (ts : List (Transfer Value))
      → a ≤ b
      → All (λ u. u.timestamp ≤ a) ts
      → All (λ u. u.timestamp ≤ b) ts
  All-weaken a b [] le h = tt
  All-weaken a b (t ∷ ts) le h = (omega (arith, h.0), All-weaken a b ts le h.1)

  insert_newest-Newest :
      (t : Transfer Value) (ts : List (Transfer Value)) → Newest ts → Newest (insert_newest t ts)
  unfolding insert_newest
  insert_newest-Newest t [] h = (tt, tt)
  insert_newest-Newest t (u ∷ us) h = elim (Bool-cases (leb u.timestamp t.timestamp)) [
    | inl e ↦
        let le : u.timestamp ≤ t.timestamp = ground arith in
        rw e ((le, All-weaken u.timestamp t.timestamp us le h.0), h)
    | inr e ↦ rw e (
      insert_newest-All (λ v. v.timestamp ≤ u.timestamp) t us (ground arith) h.0,
      insert_newest-Newest t us h.1,
    )
  ]

  insert_newest-number :
      (p : Transfer Value → Bool) (t : Transfer Value) (ts : List (Transfer Value))
      → number p (insert_newest t ts) ≡ (if p t then 1 else 0) + number p ts
  unfolding insert_newest
  insert_newest-number p t [] = ground arith
  insert_newest-number p t (u ∷ us) = ground (arith, insert_newest-number p t us)

  pub sort_newest-Newest : (ts : List (Transfer Value)) → Newest (sort_newest ts)
  unfolding sort_newest
  sort_newest-Newest [] = tt
  sort_newest-Newest (t ∷ ts) = insert_newest-Newest t (sort_newest ts) (sort_newest-Newest ts)

  pub sort_newest-All :
      (P : Transfer Value → Type 0) (ts : List (Transfer Value)) → All P ts → All P (sort_newest ts)
  unfolding sort_newest
  sort_newest-All P [] h = tt
  sort_newest-All P (t ∷ ts) h =
      insert_newest-All P t (sort_newest ts) h.0 (sort_newest-All P ts h.1)

  pub sort_newest-number :
      (p : Transfer Value → Bool) (ts : List (Transfer Value))
      → number p (sort_newest ts) ≡ number p ts
  unfolding sort_newest
  sort_newest-number p [] = refl
  sort_newest-number p (t ∷ ts) =
      ground (arith, insert_newest-number p t (sort_newest ts), sort_newest-number p ts)

  insert_newest-length :
      (t : Transfer Value) (ts : List (Transfer Value))
      → length (insert_newest t ts) ≡ suc (length ts)
  unfolding insert_newest
  insert_newest-length t [] = refl
  insert_newest-length t (u ∷ us) = ground (arith, insert_newest-length t us)

  pub sort_newest-length : (ts : List (Transfer Value)) → length (sort_newest ts) ≡ length ts
  unfolding sort_newest
  sort_newest-length [] = refl
  sort_newest-length (t ∷ ts) =
      omega (arith, insert_newest-length t (sort_newest ts), sort_newest-length ts)
