-- ===== src/Agoranet/Forum/Authorized.antt =====
-- The queries of icn-agoranet/src/handlers.rs that check a token.
use icn_v.Base.{
  ℕ, String, Bool, false, not, List, Option, none, some, if◌then◌else◌, string_eq, Result, ok, err,
}
use icn_v.Agoranet.Auth.Types.{AuthError, AuthenticatedRequest}
use icn_v.Agoranet.Auth.Access.{has_org_scope_access, has_coop_operator_role}
use icn_v.Agoranet.Forum.Types.{
  ExecutionReceiptSummary, TokenBalance, TokenTransaction, InMemoryStore,
}
use icn_v.Agoranet.Forum.Listing.{
  GetReceiptsQuery, GetTokenBalancesQuery, GetTokenTransactionsQuery, filter_receipts,
  filter_token_balances, filter_token_transactions,
}

-- Is there a cooperative, and no community, of which the request lacks the operator's role?
abbrev pub lacks_operator : AuthenticatedRequest → Option String → Option String → Bool
lacks_operator auth none community_id = false
lacks_operator auth (some coop_id) none = not (has_coop_operator_role auth.claims coop_id)
lacks_operator auth (some coop_id) (some community_id) = false

module _ {L : Type 0} where
  unfoldable pub get_receipts_authorized :
      (ℕ → String)
      → AuthenticatedRequest
      → GetReceiptsQuery
      → InMemoryStore L
      → Result (List ExecutionReceiptSummary) AuthError
  get_receipts_authorized show_date auth params s =
      if not (has_org_scope_access auth.claims none params.coop_id params.community_id)
      then err AuthError.unauthorized_org_access
      else ok (filter_receipts show_date params s)

  unfoldable pub get_token_balances_authorized :
      AuthenticatedRequest
      → GetTokenBalancesQuery
      → InMemoryStore L
      → Result (List TokenBalance) AuthError
  get_token_balances_authorized auth params s =
      if not (has_org_scope_access auth.claims none params.coop_id params.community_id)
      then err AuthError.unauthorized_org_access
      else ok (filter_token_balances params s)

  unfoldable pub get_token_transactions_authorized :
      (ℕ → String)
      → AuthenticatedRequest
      → GetTokenTransactionsQuery
      → InMemoryStore L
      → Result (List TokenTransaction) AuthError
  get_token_transactions_authorized show_date auth params s =
      if not (has_org_scope_access auth.claims none params.coop_id params.community_id)
      then err AuthError.unauthorized_org_access
      else if lacks_operator auth params.coop_id params.community_id
      then err AuthError.not_coop_operator
      else ok (filter_token_transactions show_date params s)
