-- ===== src/Expiry.antt =====
-- cli/dacar.js: `prune`, which removes what is older than the deletion horizon from the state, the
-- outbox and the sent box. Each reading of the wall clock is an argument.
pub mod Split
pub mod Dropped
use dacar.Common.{
  ℕ, ◌+◌, ◌-◌, Bool, true, false, ltb, ◌==◌, if◌then◌else◌, List, [], ◌∷◌, Option, none, some,
  Bytes, length, Result, ok, err, ◌>>=◌,
}
use dacar.Platform.{Platform}
use dacar.Hlc.{unpack_hlc}
use dacar.Operation.Wire.{from_payload}
use dacar.Crdt.{StateVector, prune, deletion_horizon_ms}
use dacar.Records.{load_outbox, save_outbox, load_sent, save_sent}
use dacar.Publishing.{Boxes}

-- The three counts, which are printed.
pub record Counts : Type 0 where
  pub pairs : ℕ
  pub outbox : ℕ
  pub sent : ℕ

module _ (p : Platform) where
  -- `unpackHlc(Operation.fromPayload(payload).hlc).physicalMs`
  unfoldable pub physical_of : Bytes → Result ℕ
  physical_of payload = do
    o ← from_payload p payload
    parts ← unpack_hlc o.hlc
    ok parts.physical_ms

  -- One payload in front of the rest of the loop; what cannot be decoded is kept.
  keep_or_drop : Bytes → Result ℕ → ℕ → List Bytes × ℕ → List Bytes × ℕ
  keep_or_drop b (err e) cutoff (kept, dropped) = (b ∷ kept, dropped)
  keep_or_drop b (ok physical_ms) cutoff (kept, dropped) =
      if ltb physical_ms cutoff then (kept, dropped + 1) else (b ∷ kept, dropped)

  unfoldable pub split_by : ℕ → List Bytes → List Bytes × ℕ
  unfolding keep_or_drop
  split_by cutoff [] = ([], 0)
  split_by cutoff (b ∷ bs) = keep_or_drop b (physical_of b) cutoff (split_by cutoff bs)

  -- The difference stops at 0, and no physical time is below 0: the test is the same.
  unfoldable pub prune_payload_list : List Bytes → ℕ → ℕ → List Bytes × ℕ
  unfolding split_by
  prune_payload_list payloads horizon_ms now_ms = split_by (now_ms - horizon_ms) payloads

  -- The number of dropped deltas, and the record, which is written only if there are any.
  unfoldable pub prune_outbox : Option Bytes → ℕ → ℕ → ℕ × Option Bytes
  unfolding prune_payload_list
  prune_outbox record' horizon_ms clock_ms =
      let outbox = load_outbox p record' in
      let (kept, dropped) = prune_payload_list outbox horizon_ms clock_ms in
      if length outbox == 0
      then (0, record')
      else (dropped, if dropped == 0 then record' else some (save_outbox p kept))

  unfoldable pub prune_sent : Option Bytes → ℕ → ℕ → ℕ × Option Bytes
  unfolding prune_payload_list
  prune_sent record' horizon_ms clock_ms =
      let sent = load_sent p record' in
      let (kept, dropped) = prune_payload_list sent horizon_ms clock_ms in
      if length sent == 0
      then (0, record')
      else (dropped, if dropped == 0 then record' else some (save_sent p kept))

  -- The state is saved after `prune`; where that throws, nothing is saved.
  pruned :
      StateVector → Boxes → ℕ → ℕ → Result ℕ × StateVector → Result Counts × (StateVector × Boxes)
  unfolding prune_outbox prune_sent
  pruned s boxes outbox_ms sent_ms (err e, s') = (err e, (s, boxes))
  pruned s boxes outbox_ms sent_ms (ok count, s') =
      let (dropped, outbox) = prune_outbox boxes.outbox (deletion_horizon_ms s') outbox_ms in
      let (sent_dropped, sent) = prune_sent boxes.sent (deletion_horizon_ms s') sent_ms in
      (
        ok (record { pairs = count; outbox = dropped; sent = sent_dropped }),
        (s', record { outbox = outbox; sent = sent }),
      )

  -- `cmdPrune`, with the saved state and the boxes, and the wall clock at each of its readings.
  unfoldable pub cmd_prune : StateVector → Boxes → ℕ → ℕ → ℕ → Result Counts × (StateVector × Boxes)
  unfolding pruned
  cmd_prune s boxes state_ms outbox_ms sent_ms =
      pruned s boxes outbox_ms sent_ms (prune s none state_ms)
