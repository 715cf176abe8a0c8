-- ===== src/Agoranet/Batch.antt =====
-- `process_batch_transfer` of icn-agoranet/src/transfers.rs.
use icn_v.Base.{
  ℕ, ◌+◌, ◌<◌, String, ◌≡◌, refl, sym, ◌∙◌, ap, inl, inr, List, [], ◌∷◌, ◌++◌, map, arith, u64_size,
  wrap64, Result, ok, err, length, All, suc, length-append, sum_by,
}
use mathlib.Core.List.{append-nil, append_assoc}
use icn_v.Agoranet.Types.{Transfer, TransferError, BatchTransferResponse}
use icn_v.Agoranet.Ledger.{
  Ledger, process_transfer, respond, batch_loop, empty_response, process_batch_transfer, to_text,
}
use icn_v.Agoranet.Balances.{supply, Refused, process_transfer-Moved}

module _ {Value : Type 0} where
  abbrev pub FitsAll : List (Transfer Value) → Type 0
  FitsAll ts = All (λ t. t.amount + t.fee < u64_size) ts

  -- From one response and ledger to a later pair, `n` transfers later, of which those of `done` went
  -- through.
  record Progress (n : ℕ) (r : BatchTransferResponse) (l : Ledger Value)
      (o : BatchTransferResponse × Ledger Value) : Type 0 where
    done : List (Transfer Value)
    recorded : o.1.transfers ≡ l.transfers ++ done
    ids : o.0.successful_ids ≡ r.successful_ids ++ map (λ t. t.tx_id) done
    succeeded : o.0.successful ≡ r.successful + length done
    counted : o.0.successful + o.0.failed ≡ r.successful + r.failed + n
    listed : length o.0.failed_transfers + r.failed ≡ length r.failed_transfers + o.0.failed
    conserved : supply o.1 + o.0.total_fees ≡ supply l + r.total_fees
    transferred : o.0.total_transferred ≡ wrap64 (r.total_transferred + sum_by (λ t. t.amount) done)

  accepted :
      {n : ℕ} {o : BatchTransferResponse × Ledger Value} (show : ℕ → String) (index : ℕ)
      (t : Transfer Value) (r : BatchTransferResponse) (l l' : Ledger Value)
      → supply l' + t.fee ≡ supply l
      → l'.transfers ≡ l.transfers ++ t ∷ []
      → supply l + r.total_fees < u64_size
      → Progress n (respond show index (ok t) r) l' o
      → Progress (suc n) r l o
  accepted show index t r l l' paid appended small p = record {
    done = t ∷ p.done;
    recorded =
        p.recorded ∙ ap (λ xs. xs ++ p.done) appended ∙ append_assoc l.transfers (t ∷ []) p.done;
    ids = p.ids ∙ append_assoc r.successful_ids (t.tx_id ∷ []) (map (λ u. u.tx_id) p.done);
    succeeded = omega (arith, p.succeeded);
    counted = omega (arith, p.counted);
    listed = omega (arith, p.listed);
    conserved = omega (arith, p.conserved);
    transferred = omega (arith, p.transferred);
  }

  rejected :
      {n : ℕ} {o : BatchTransferResponse × Ledger Value} (show : ℕ → String) (index : ℕ)
      (e : TransferError) (r : BatchTransferResponse) (l : Ledger Value)
      → Progress n (respond {Value = Value} show index (err e) r) l o
      → Progress (suc n) r l o
  rejected show index e r l p = record {
    done = p.done;
    recorded = p.recorded;
    ids = p.ids;
    succeeded = p.succeeded;
    counted = omega (arith, p.counted);
    listed =
        omega (arith, p.listed, length-append r.failed_transfers ((index, to_text show e) ∷ []));
    conserved = p.conserved;
    transferred = p.transferred;
  }

  failure_of :
      (t : Transfer Value) (l : Ledger Value)
      {o : Result (Transfer Value) TransferError × Ledger Value}
      → Refused t l o
      → (e : TransferError) × (o.0 ≡ err e)
  failure_of t l (_, inl (_, h)) = (TransferError.invalid_amount, h)
  failure_of t l (_, inr (_, _, h)) = (TransferError.insufficient_balance, h)

  batch_loop-Progress :
      (show : ℕ → String) (index : ℕ) (ts : List (Transfer Value)) (r : BatchTransferResponse)
      (l : Ledger Value)
      → FitsAll ts
      → supply l + r.total_fees < u64_size
      → wrap64 r.total_transferred ≡ r.total_transferred
      → Progress (length ts) r l (batch_loop show index ts r l)
  unfolding batch_loop
  batch_loop-Progress show index [] r l fits small w = record {
    done = [];
    recorded = sym (append-nil l.transfers);
    ids = sym (append-nil r.successful_ids);
    succeeded = omega arith;
    counted = omega arith;
    listed = omega arith;
    conserved = refl;
    transferred = omega arith;
  }
  batch_loop-Progress show index (t ∷ ts) r l fits small w =
      elim (process_transfer-Moved t l (omega arith) fits.0) [
        | inl (_, _, moved) ↦
            let rest =
              batch_loop-Progress show (index + 1) ts (respond show index (ok t) r)
                (process_transfer t l).1 fits.1 (omega (arith, moved.1)) (omega arith) in
            rw moved.0
              (accepted show index t r l (process_transfer t l).1 moved.1 moved.5 small rest)
        | inr refused ↦
            let (e, failure) = failure_of t l refused in
            rw (failure, refused.0)
              (rejected show index e r l (
                batch_loop-Progress show (index + 1) ts
                  (respond {Value = Value} show index (err e) r) l fits.1 small w))
      ]

  -- When the balances and each amount with its fee fit a `u64`, a batch answers truthfully: the
  -- transfers that went through are the ones recorded, in order, and their identifiers the ones listed;
  -- every transfer of the batch is counted as successful or as failed, and each failure is listed; and
  -- the balances after the batch and the fees it reports add up to the balances before it. The amount
  -- reported as transferred is the sum of the amounts, modulo the size of a `u64`.
  pub process_batch_transfer_lem :
      (show : ℕ → String) (ts : List (Transfer Value)) (l : Ledger Value)
      → supply l < u64_size
      → FitsAll ts
      → let (r, l') = process_batch_transfer show ts l in
        (done : List (Transfer Value)) × (l'.transfers ≡ l.transfers ++ done)
        × (r.successful_ids ≡ map (λ t. t.tx_id) done)
        × (r.successful ≡ length done)
        × (r.successful + r.failed ≡ length ts)
        × (length r.failed_transfers ≡ r.failed)
        × (supply l' + r.total_fees ≡ supply l)
        × (r.total_transferred ≡ wrap64 (sum_by (λ t. t.amount) done))
  unfolding process_batch_transfer
  process_batch_transfer_lem show ts l small fits =
      let p = batch_loop-Progress show 0 ts empty_response l fits (omega arith) refl in
      (
        p.done,
        p.recorded,
        p.ids,
        omega (arith, p.succeeded),
        omega (arith, p.counted),
        omega (arith, p.listed),
        omega (arith, p.conserved),
        omega (arith, p.transferred),
      )
