-- ===== src/Agoranet/Forum/Statistics.antt =====
-- What the statistics of icn-agoranet/src/handlers.rs count.
use icn_v.Base.{
  suc, map, filterb-ext, filterb-filterb, ℕ, ◌+◌, ◌<◌, String, ◌≡◌, refl, sym, ap, ◌∙◌, Bool, List,
  [], ◌∷◌, Option, none, some, string_eq, wrap64, filterb, length, arith,
}
use icn_v.HashMap.{HashMap, get, get_or, insert}
use icn_v.HashMap.Laws.{get_or-insert}
use icn_v.Agoranet.Forum.Types.{ExecutionReceiptDetail, InMemoryStore}
use icn_v.Agoranet.Forum.Listing.{GetReceiptsQuery, receipt_passes, filter_receipts}
use icn_v.Agoranet.Forum.Stats.{receipt_in, count_executors, get_receipt_stats}

abbrev executed_by : String → ExecutionReceiptDetail → Bool
executed_by x r = string_eq.eqb r.summary.executor x

count_executors_lem :
    (x : String) (rs : List ExecutionReceiptDetail) (m : HashMap String ℕ)
    → wrap64 (get_or x 0 (count_executors rs m))
      ≡ wrap64 (get_or x 0 m + length (filterb (executed_by x) rs))
unfolding count_executors
count_executors_lem x [] m = ground arith
count_executors_lem x (r ∷ rs) m =
    let n = get_or r.summary.executor 0 m in
    ground (
      arith,
      count_executors_lem x rs (insert r.summary.executor (wrap64 (n + 1)) m),
      get_or-insert r.summary.executor x (wrap64 (n + 1)) 0 m,
      string_eq.eqb_iff r.summary.executor x,
    )

-- Every count of a map is a `u64`.
abbrev IsU64s : HashMap String ℕ → Type 0
IsU64s m = (x : String) → get_or x 0 m < 18446744073709551616

insert-IsU64s :
    (k : String) (v : ℕ) (m : HashMap String ℕ)
    → v < 18446744073709551616
    → IsU64s m
    → IsU64s (insert k v m)
insert-IsU64s k v m small h x = ground (arith, small, h x, get_or-insert k x v 0 m)

count_executors-IsU64s :
    (rs : List ExecutionReceiptDetail) (m : HashMap String ℕ)
    → IsU64s m
    → IsU64s (count_executors rs m)
unfolding count_executors
count_executors-IsU64s [] m h = h
count_executors-IsU64s (r ∷ rs) m h =
    count_executors-IsU64s rs _ (insert-IsU64s r.summary.executor _ m (omega arith) h)

count_executors_counts :
    (x : String) (rs : List ExecutionReceiptDetail)
    → get_or x 0 (count_executors rs []) ≡ wrap64 (length (filterb (executed_by x) rs))
unfolding get
count_executors_counts x rs =
    omega (arith, count_executors_lem x rs [], count_executors-IsU64s rs [] (λ y. omega arith) x)

-- The query of the receipts of organizations, and of an executor.
abbrev pub receipts_query : Option String → Option String → Option String → GetReceiptsQuery
receipts_query executor coop_id community_id = record {
  date = none;
  executor = executor;
  coop_id = coop_id;
  community_id = community_id;
  limit = none;
  offset = none;
}

receipts_found :
    (show_date : ℕ → String) (coop community : Option String) (rs : List ExecutionReceiptDetail)
    → filterb (receipt_in coop community) rs
      ≡ filterb (receipt_passes show_date (receipts_query none coop community)) rs
unfolding receipt_in receipt_passes
receipts_found show_date coop community rs = filterb-ext _ _ rs (λ r. ground arith)

receipts_found_by :
    (show_date : ℕ → String) (x : String) (coop community : Option String)
    (rs : List ExecutionReceiptDetail)
    → filterb (executed_by x) (filterb (receipt_in coop community) rs)
      ≡ filterb (receipt_passes show_date (receipts_query (some x) coop community)) rs
unfolding receipt_in receipt_passes
receipts_found_by show_date x coop community rs =
    filterb-filterb (executed_by x) (receipt_in coop community) rs
    ∙ filterb-ext _ _ rs (λ r. ground arith)

length-map {ℓ κ} :
    {A : Type ℓ} {B : Type κ} (f : A → B) (xs : List A) → length (map f xs) ≡ length xs
length-map f [] = refl
length-map f (x ∷ xs) = ap suc (length-map f xs)

module _ {L : Type 0} where
  -- The statistics of receipts agree with the query of receipts: for the organizations that both
  -- name, the total is the number of receipts that the query finds, and the count of an executor is
  -- the number of receipts that the query finds for it, modulo 2 ^ 64.
  pub get_receipt_stats-filter_receipts :
      (show_date : ℕ → String) (x : String) (coop community : Option String) (s : InMemoryStore L)
      → let stats = get_receipt_stats coop community s in
        (stats.total_receipts
          ≡ length (filter_receipts show_date (receipts_query none coop community) s))
        × (get_or x 0 stats.receipts_by_executor
            ≡ wrap64
                (length (filter_receipts show_date (receipts_query (some x) coop community) s)))
  unfolding get_receipt_stats filter_receipts
  get_receipt_stats-filter_receipts show_date x coop community s = (
    ap length (receipts_found show_date coop community s.receipts) ∙ sym (length-map _ _),
    count_executors_counts x (filterb (receipt_in coop community) s.receipts)
        ∙ ap (λ rs. wrap64 (length rs)) (receipts_found_by show_date x coop community s.receipts)
        ∙ ap wrap64 (sym (length-map _ _)),
  )
