-- ===== src/Agoranet/Forum/Stats.antt =====
-- The statistics of receipts and of tokens in icn-agoranet/src/handlers.rs. A `HashSet` is a list
-- without repetitions.
use icn_v.Base.{
  ℕ, ◌+◌, ◌/◌, String, Bool, not, ◌&&◌, ◌||◌, List, [], ◌∷◌, ◌++◌, Option, some, if◌then◌else◌,
  string_eq, ltb, wrap64, filterb, length, contains, sum64_by, Result, ok, err,
}
use icn_v.HashMap.{HashMap, get_or, insert}
use icn_v.Agoranet.Auth.Types.{AuthError, AuthenticatedRequest}
use icn_v.Agoranet.Auth.Access.{has_org_scope_access}
use icn_v.Agoranet.Forum.Types.{ExecutionReceiptDetail, TokenTransaction, InMemoryStore}
use icn_v.Agoranet.Forum.Listing.{GetReceiptsQuery, GetTokenTransactionsQuery, passes, is_id}

pub record ReceiptStats : Type 0 where
  pub total_receipts : ℕ
  pub avg_cpu_usage : ℕ
  pub avg_memory_usage : ℕ
  pub avg_storage_usage : ℕ
  pub receipts_by_executor : HashMap String ℕ

pub record TokenStats : Type 0 where
  pub total_minted : ℕ
  pub total_burnt : ℕ
  pub active_accounts : ℕ
  pub daily_volume : Option ℕ

pub record ReceiptStatsResponse : Type 0 where
  pub stats : ReceiptStats
  pub coop_id : Option String
  pub community_id : Option String

pub record TokenStatsResponse : Type 0 where
  pub stats : TokenStats
  pub coop_id : Option String
  pub community_id : Option String

pub record GetReceiptStatsQuery : Type 0 where
  pub federation_id : Option String
  pub coop_id : Option String
  pub community_id : Option String

pub record GetTokenStatsQuery : Type 0 where
  pub federation_id : Option String
  pub coop_id : Option String
  pub community_id : Option String

unfoldable pub receipt_in : Option String → Option String → ExecutionReceiptDetail → Bool
receipt_in coop_id community_id r =
    passes (is_id r.summary.coop_id) coop_id && passes (is_id r.summary.community_id) community_id

unfoldable pub transaction_in : Option String → Option String → TokenTransaction → Bool
transaction_in coop_id community_id tx =
    passes (λ c. is_id tx.from_coop_id c || is_id tx.to_coop_id c) coop_id
    && passes (λ c. is_id tx.from_community_id c || is_id tx.to_community_id c) community_id

-- `resource_usage.get(kind).copied().unwrap_or(0)`
abbrev pub usage : String → ExecutionReceiptDetail → ℕ
usage kind r = get_or kind 0 r.summary.resource_usage

-- `*receipts_by_executor.entry(executor).or_insert(0) += 1`, for each receipt
unfoldable pub count_executors : List ExecutionReceiptDetail → HashMap String ℕ → HashMap String ℕ
count_executors [] m = m
count_executors (r ∷ rs) m =
    count_executors rs (insert r.summary.executor (wrap64 (get_or r.summary.executor 0 m + 1)) m)

abbrev pub average : ℕ → ℕ → ℕ
average sum n = if ltb 0 n then sum / n else 0

-- The sums that the loop over the transactions keeps.
pub record TokenSums : Type 0 where
  pub minted : ℕ
  pub burnt : ℕ
  pub volume : ℕ
  pub accounts : List String

-- `insert` of a set
abbrev pub set_insert : String → List String → List String
set_insert a set = if contains a set then set else set ++ a ∷ []

unfoldable pub add_transaction : TokenTransaction → TokenSums → TokenSums
add_transaction tx t = record {
  minted = if string_eq.eqb tx.operation "mint" then wrap64 (t.minted + tx.amount) else t.minted;
  burnt = if string_eq.eqb tx.operation "burn" then wrap64 (t.burnt + tx.amount) else t.burnt;
  volume = wrap64 (t.volume + tx.amount);
  accounts = set_insert tx.to_did (set_insert tx.from_did t.accounts);
}

unfoldable pub add_transactions : List TokenTransaction → TokenSums → TokenSums
add_transactions [] t = t
add_transactions (tx ∷ txs) t = add_transactions txs (add_transaction tx t)

abbrev pub no_sums : TokenSums
no_sums = record { minted = 0; burnt = 0; volume = 0; accounts = [] }

module _ {L : Type 0} where
  unfoldable pub get_receipt_stats : Option String → Option String → InMemoryStore L → ReceiptStats
  get_receipt_stats coop_id community_id s =
      let found = filterb (receipt_in coop_id community_id) s.receipts in
      record {
        total_receipts = length found;
        avg_cpu_usage = average (sum64_by (usage "CPU") found) (length found);
        avg_memory_usage = average (sum64_by (usage "Memory") found) (length found);
        avg_storage_usage = average (sum64_by (usage "Storage") found) (length found);
        receipts_by_executor = count_executors found [];
      }

  unfoldable pub get_token_stats : Option String → Option String → InMemoryStore L → TokenStats
  get_token_stats coop_id community_id s =
      let sums =
        add_transactions (filterb (transaction_in coop_id community_id) s.token_transactions)
          no_sums in
      record {
        total_minted = sums.minted;
        total_burnt = sums.burnt;
        active_accounts = length sums.accounts;
        daily_volume = some sums.volume;
      }

  unfoldable pub get_receipt_stats_handler :
      GetReceiptsQuery → InMemoryStore L → ReceiptStatsResponse
  get_receipt_stats_handler params s = record {
    stats = get_receipt_stats params.coop_id params.community_id s;
    coop_id = params.coop_id;
    community_id = params.community_id;
  }

  unfoldable pub get_token_stats_handler :
      GetTokenTransactionsQuery → InMemoryStore L → TokenStatsResponse
  get_token_stats_handler params s = record {
    stats = get_token_stats params.coop_id params.community_id s;
    coop_id = params.coop_id;
    community_id = params.community_id;
  }

  unfoldable pub get_receipt_stats_authorized :
      AuthenticatedRequest
      → GetReceiptStatsQuery
      → InMemoryStore L
      → Result ReceiptStatsResponse AuthError
  get_receipt_stats_authorized auth params s =
      if not
        (has_org_scope_access auth.claims params.federation_id params.coop_id params.community_id)
      then err AuthError.unauthorized_org_access
      else ok (record {
        stats = get_receipt_stats params.coop_id params.community_id s;
        coop_id = params.coop_id;
        community_id = params.community_id;
      })

  unfoldable pub get_token_stats_authorized :
      AuthenticatedRequest
      → GetTokenStatsQuery
      → InMemoryStore L
      → Result TokenStatsResponse AuthError
  get_token_stats_authorized auth params s =
      if not
        (has_org_scope_access auth.claims params.federation_id params.coop_id params.community_id)
      then err AuthError.unauthorized_org_access
      else ok (record {
        stats = get_token_stats params.coop_id params.community_id s;
        coop_id = params.coop_id;
        community_id = params.community_id;
      })
