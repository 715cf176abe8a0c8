-- ===== src/Agoranet/Forum/TokenSums.antt =====
-- What the statistics of tokens in icn-agoranet/src/handlers.rs count.
use icn_v.Base.{
  ℕ, ◌+◌, ◌<◌, String, ◌≡◌, refl, sym, ap, subst, ◌∙◌, Bool, true, false, ◌||◌, List, [], ◌∷◌, ◌++◌,
  Option, none, some, string_eq, wrap64, filterb, filterb-ext, anyb, length, contains, sum_by,
  arith, Bool-cases, inl, inr,
}
use icn_v.Agoranet.Forum.Types.{TokenTransaction, InMemoryStore}
use icn_v.Agoranet.Forum.Listing.{
  GetTokenTransactionsQuery, transaction_passes, filter_token_transactions,
}
use icn_v.Agoranet.Forum.Stats.{
  transaction_in, set_insert, TokenStats, TokenSums, add_transaction, add_transactions, no_sums,
  get_token_stats,
}

abbrev is_operation : String → TokenTransaction → Bool
is_operation name tx = string_eq.eqb tx.operation name

abbrev total : List TokenTransaction → ℕ
total txs = sum_by (λ tx. tx.amount) txs

abbrev involves : String → TokenTransaction → Bool
involves a tx = string_eq.eqb tx.from_did a || string_eq.eqb tx.to_did a

-- No element of a list is repeated.
abbrev pub Distinct : List String → Type 0
Distinct [] = Unit
Distinct (a ∷ xs) = (contains a xs ≡ false) × Distinct xs

contains-append :
    (a b : String) (xs : List String)
    → contains a (xs ++ b ∷ []) ≡ (contains a xs || string_eq.eqb b a)
unfolding contains
contains-append a b [] = ground arith
contains-append a b (c ∷ xs) = ground (arith, contains-append a b xs)

append-Distinct :
    (b : String) (xs : List String) → Distinct xs → contains b xs ≡ false → Distinct (xs ++ b ∷ [])
unfolding contains
append-Distinct b [] h new = (refl, tt)
append-Distinct b (a ∷ xs) h new = (
  ground (arith, h.0, new, contains-append a b xs, string_eq.eqb_iff a b, string_eq.eqb_iff b a),
  append-Distinct b xs h.1 (ground (arith, new)),
)

set_insert-Distinct : (b : String) (xs : List String) → Distinct xs → Distinct (set_insert b xs)
set_insert-Distinct b xs h = elim (Bool-cases (contains b xs)) [
  | inl old ↦ rw old h
  | inr new ↦ rw new (append-Distinct b xs h new)
]

contains-set_insert :
    (a b : String) (xs : List String)
    → contains a (set_insert b xs) ≡ (contains a xs || string_eq.eqb b a)
contains-set_insert a b xs = elim (Bool-cases (contains b xs)) [
  | inl old ↦ rw old (elim (Bool-cases (string_eq.eqb b a)) [
    | inl same ↦
        let here : contains a xs ≡ true =
          sym (ap (λ c. contains c xs) ((string_eq.eqb_iff b a).0 same)) ∙ old in
        ground (arith, here, same)
    | inr other ↦ ground (arith, other)
  ])
  | inr new ↦ rw new (contains-append a b xs)
]

-- The sums after some transactions, from the sums before.
record Added (txs : List TokenTransaction) (t t' : TokenSums) : Type 0 where
  minted_lem : wrap64 t'.minted ≡ wrap64 (t.minted + total (filterb (is_operation "mint") txs))
  burnt_lem : wrap64 t'.burnt ≡ wrap64 (t.burnt + total (filterb (is_operation "burn") txs))
  volume_lem : wrap64 t'.volume ≡ wrap64 (t.volume + total txs)
  accounts_lem :
      (a : String) → contains a t'.accounts ≡ (contains a t.accounts || anyb (involves a) txs)

add_transactions_lem :
    (txs : List TokenTransaction) (t : TokenSums) → Added txs t (add_transactions txs t)
unfolding add_transactions add_transaction
add_transactions_lem [] t = record {
  minted_lem = omega arith;
  burnt_lem = omega arith;
  volume_lem = omega arith;
  accounts_lem = λ a. ground arith;
}
add_transactions_lem (tx ∷ txs) t =
    let rest = add_transactions_lem txs (add_transaction tx t) in
    record {
      minted_lem = ground (arith, rest.minted_lem);
      burnt_lem = ground (arith, rest.burnt_lem);
      volume_lem = ground (arith, rest.volume_lem);
      accounts_lem = λ a.
          rest.accounts_lem a
          ∙ ground (
            arith,
            contains-set_insert a tx.to_did (set_insert tx.from_did t.accounts),
            contains-set_insert a tx.from_did t.accounts,
          );
    }

-- What one step keeps of the sums.
record Kept (t : TokenSums) : Type 0 where
  minted_small : t.minted < 18446744073709551616
  burnt_small : t.burnt < 18446744073709551616
  volume_small : t.volume < 18446744073709551616
  distinct : Distinct t.accounts

add_transactions-Kept :
    (txs : List TokenTransaction) (t : TokenSums) → Kept t → Kept (add_transactions txs t)
unfolding add_transactions add_transaction
add_transactions-Kept [] t k = k
add_transactions-Kept (tx ∷ txs) t k = add_transactions-Kept txs (add_transaction tx t) (record {
  minted_small = ground (arith, k.minted_small);
  burnt_small = ground (arith, k.burnt_small);
  volume_small = omega arith;
  distinct =
      set_insert-Distinct tx.to_did _ (set_insert-Distinct tx.from_did t.accounts k.distinct);
})

abbrev pub tokens_query : Option String → Option String → GetTokenTransactionsQuery
tokens_query coop_id community_id = record {
  date = none;
  account = none;
  coop_id = coop_id;
  community_id = community_id;
  limit = none;
  offset = none;
}

tokens_found :
    (show_date : ℕ → String) (coop community : Option String) (txs : List TokenTransaction)
    → filterb (transaction_in coop community) txs
      ≡ filterb (transaction_passes show_date (tokens_query coop community)) txs
unfolding transaction_in transaction_passes
tokens_found show_date coop community txs = filterb-ext _ _ txs (λ tx. ground arith)

-- Statistics that summarise transactions: the sums of the amounts of the mints, of the burns and of
-- all, as `u64`s, and the number of different senders and receivers.
abbrev pub Summarises : TokenStats → List TokenTransaction → Type 0
Summarises stats txs =
    (stats.total_minted ≡ wrap64 (total (filterb (is_operation "mint") txs)))
    × (stats.total_burnt ≡ wrap64 (total (filterb (is_operation "burn") txs)))
    × (stats.daily_volume ≡ some (wrap64 (total txs)))
    × ((accounts : List String) × Distinct accounts
        × ((a : String) → contains a accounts ≡ anyb (involves a) txs)
        × (stats.active_accounts ≡ length accounts))

sums-Summarises :
    (txs : List TokenTransaction)
    → let sums = add_transactions txs no_sums in
      Summarises
        (record {
          total_minted = sums.minted;
          total_burnt = sums.burnt;
          active_accounts = length sums.accounts;
          daily_volume = some sums.volume;
        })
        txs
unfolding contains
sums-Summarises txs =
    let kept = add_transactions-Kept txs no_sums (record {
      minted_small = omega arith;
      burnt_small = omega arith;
      volume_small = omega arith;
      distinct = tt;
    }) in
    let added = add_transactions_lem txs no_sums in
    (
      omega (arith, kept.minted_small, added.minted_lem),
      omega (arith, kept.burnt_small, added.burnt_lem),
      ap some (omega (arith, kept.volume_small, added.volume_lem)),
      ((add_transactions txs no_sums).accounts, kept.distinct, added.accounts_lem, refl),
    )

module _ {L : Type 0} where
  -- The statistics of tokens summarise the transactions that the query of transactions finds for
  -- the same organizations, of every date: the sums of the minted, the burnt and all the amounts
  -- modulo 2 ^ 64, and the number of different accounts that send or receive.
  pub get_token_stats-Summarises :
      (show_date : ℕ → String) (coop community : Option String) (s : InMemoryStore L)
      → Summarises
          (get_token_stats coop community s)
          (filter_token_transactions show_date (tokens_query coop community) s)
  unfolding get_token_stats filter_token_transactions
  get_token_stats-Summarises show_date coop community s =
      subst (Summarises (get_token_stats coop community s))
        (tokens_found show_date coop community s.token_transactions)
        (sums-Summarises (filterb (transaction_in coop community) s.token_transactions))
