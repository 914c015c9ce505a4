-- ===== src/Expiry/Dropped.antt =====
-- What `prunePayloadList` of cli/dacar.js drops is what no receiver would take.
use dacar.Common.{
  ℕ, ◌-◌, ◌*◌, ◌≤◌, ◌≡◌, ◌⊎◌, inl, inr, refl, sym, subst, true, ◌==◌, Bool-cases, List, Option,
  none, Bytes, length, arith, In, Result, ok, err, Failure,
}
use dacar.Platform.{Platform, IsPacking}
use dacar.Verifier.{Resolver}
use dacar.Crdt.{StateVector, Options, or_clock, ms_per_day, prune, deletion_horizon_ms}
use dacar.Delta.{apply_payload}
use dacar.Records.{load_outbox, load_sent}
use dacar.Records.Boxes.{load-save}
use dacar.Publishing.{Boxes}
use dacar.Expiry.{split_by, prune_payload_list, prune_outbox, prune_sent, pruned, cmd_prune}
use dacar.Expiry.Split.{
  Stale, Stale-cases, Stale-rejected, prune_payload_list_exact, split_by-empty, split_by-none,
}

module _ (p : Platform) (packing : IsPacking p) where
  prune_outbox_lem :
      (record' : Option Bytes) (horizon_ms now_ms : ℕ)
      → load_outbox p (prune_outbox p record' horizon_ms now_ms).1
        ≡ (prune_payload_list p (load_outbox p record') horizon_ms now_ms).0
  unfolding prune_outbox prune_payload_list
  prune_outbox_lem record' horizon_ms now_ms =
      elim (Bool-cases (length (load_outbox p record') == 0)) [
        | inl none' ↦ rw none' (sym (split_by-empty p _ _ none'))
        | inr some' ↦ rw some' (elim (Bool-cases (dropped == 0)) [
          | inl all ↦ rw all (sym (split_by-none p _ _ (ground arith)))
          | inr some'' ↦ rw some'' ((load-save p packing _).0)
        ])
      ]
    where
      dropped : ℕ
      dropped = (split_by p (now_ms - horizon_ms) (load_outbox p record')).1

  prune_sent_lem :
      (record' : Option Bytes) (horizon_ms now_ms : ℕ)
      → load_sent p (prune_sent p record' horizon_ms now_ms).1
        ≡ (prune_payload_list p (load_sent p record') horizon_ms now_ms).0
  unfolding prune_sent prune_payload_list
  prune_sent_lem record' horizon_ms now_ms = elim (Bool-cases (length (load_sent p record') == 0)) [
    | inl none' ↦ rw none' (sym (split_by-empty p _ _ none'))
    | inr some' ↦ rw some' (elim (Bool-cases (dropped == 0)) [
      | inl all ↦ rw all (sym (split_by-none p _ _ (ground arith)))
      | inr some'' ↦ rw some'' ((load-save p packing _).1)
    ])
  ]
    where
      dropped : ℕ
      dropped = (split_by p (now_ms - horizon_ms) (load_sent p record')).1

  -- No receiver with this horizon applies the payload at that time or later.
  abbrev pub Refused : ℕ → ℕ → Bytes → Type 0
  Refused days now payload =
      (resolver : Resolver p) (options : Options) (s s' : StateVector) (clock_ms : ℕ)
      → s.deletion_horizon_days ≡ days
      → now ≤ or_clock options.now_ms clock_ms
      → apply_payload p resolver options s payload clock_ms ≡ ok (true, s')
      → ⊥

  Stale-Refused :
      (days now : ℕ) (payload : Bytes)
      → Stale p (now - days * ms_per_day) payload
      → Refused days now payload
  Stale-Refused days now payload old resolver options s s' clock_ms same later =
      Stale-rejected p resolver options s s' payload now clock_ms
        (subst (λ d. Stale p (now - d * ms_per_day) payload) (sym same) old) later

  left-Refused :
      (days now : ℕ) (bs : List Bytes) (x : Bytes)
      → In x bs
      → In x (prune_payload_list p bs (days * ms_per_day) now).0 ⊎ Refused days now x
  left-Refused days now bs x i = elim (Stale-cases p (now - days * ms_per_day) x) [
    | inl old ↦ inr (Stale-Refused days now x old)
    | inr new ↦ inl (((prune_payload_list_exact p bs (days * ms_per_day) now).0 x).1 (i, new))
  ]

  pub record Tidied (s : StateVector) (boxes boxes' : Boxes) (outbox_ms sent_ms : ℕ) : Type 0 where
    pub outbox :
        (x : Bytes)
        → In x (load_outbox p boxes.outbox)
        → In x (load_outbox p boxes'.outbox) ⊎ Refused s.deletion_horizon_days outbox_ms x
    pub sent :
        (x : Bytes)
        → In x (load_sent p boxes.sent)
        → In x (load_sent p boxes'.sent) ⊎ Refused s.deletion_horizon_days sent_ms x
    pub outbox_only :
        (x : Bytes) → In x (load_outbox p boxes'.outbox) → In x (load_outbox p boxes.outbox)
    pub sent_only : (x : Bytes) → In x (load_sent p boxes'.sent) → In x (load_sent p boxes.sent)

  untidied :
      (s : StateVector) (boxes : Boxes) (outbox_ms sent_ms : ℕ)
      → Tidied s boxes boxes outbox_ms sent_ms
  untidied s boxes outbox_ms sent_ms = record {
    outbox = λ x i. inl i;
    sent = λ x i. inl i;
    outbox_only = λ x i. i;
    sent_only = λ x i. i;
  }

  tidied :
      (s : StateVector) (boxes : Boxes) (outbox_ms sent_ms : ℕ)
      → Tidied s boxes
          (record {
            outbox = (prune_outbox p boxes.outbox (deletion_horizon_ms s) outbox_ms).1;
            sent = (prune_sent p boxes.sent (deletion_horizon_ms s) sent_ms).1;
          })
          outbox_ms
          sent_ms
  tidied s boxes outbox_ms sent_ms = record {
    outbox = λ x i.
        rw (prune_outbox_lem boxes.outbox (deletion_horizon_ms s) outbox_ms)
          (left-Refused s.deletion_horizon_days outbox_ms (load_outbox p boxes.outbox) x i);
    sent = λ x i.
        rw (prune_sent_lem boxes.sent (deletion_horizon_ms s) sent_ms)
          (left-Refused s.deletion_horizon_days sent_ms (load_sent p boxes.sent) x i);
    outbox_only = λ x i.
        (((prune_payload_list_exact p (load_outbox p boxes.outbox) (deletion_horizon_ms s)
              outbox_ms).0
            x).0
          (subst (In x) (prune_outbox_lem boxes.outbox (deletion_horizon_ms s) outbox_ms) i)).0;
    sent_only = λ x i.
        (((prune_payload_list_exact p (load_sent p boxes.sent) (deletion_horizon_ms s) sent_ms).0
            x).0
          (subst (In x) (prune_sent_lem boxes.sent (deletion_horizon_ms s) sent_ms) i)).0;
  }

  days-prune :
      (s : StateVector) (now_ms : Option ℕ) (clock_ms : ℕ)
      → (prune s now_ms clock_ms).1.deletion_horizon_days ≡ s.deletion_horizon_days
  unfolding prune
  days-prune s now_ms clock_ms = refl

  -- What `prune` removes from the outbox and from the sent box is applied by no receiver with the
  -- same horizon from then on; nothing is added to them; and a call that throws changes neither
  -- the state nor the boxes.
  pub cmd_prune_harmless :
      (s : StateVector) (boxes : Boxes) (state_ms outbox_ms sent_ms : ℕ)
      → Tidied s boxes (cmd_prune p s boxes state_ms outbox_ms sent_ms).1.1 outbox_ms sent_ms
        × ((e : Failure)
            → (cmd_prune p s boxes state_ms outbox_ms sent_ms).0 ≡ err e
            → (cmd_prune p s boxes state_ms outbox_ms sent_ms).1 ≡ (s, boxes))
  unfolding cmd_prune pruned
  cmd_prune_harmless s boxes state_ms outbox_ms sent_ms =
      go (prune s none state_ms) (days-prune s none state_ms)
    where
      go :
          (r : Result ℕ × StateVector)
          → r.1.deletion_horizon_days ≡ s.deletion_horizon_days
          → Tidied s boxes (pruned p s boxes outbox_ms sent_ms r).1.1 outbox_ms sent_ms
            × ((e : Failure)
                → (pruned p s boxes outbox_ms sent_ms r).0 ≡ err e
                → (pruned p s boxes outbox_ms sent_ms r).1 ≡ (s, boxes))
      go (err e, s') same = (untidied s boxes outbox_ms sent_ms, λ f h. refl)
      go (ok n, s') same = (
        subst
            (λ days.
              Tidied s boxes
                (record {
                  outbox = (prune_outbox p boxes.outbox (days * ms_per_day) outbox_ms).1;
                  sent = (prune_sent p boxes.sent (days * ms_per_day) sent_ms).1;
                })
                outbox_ms sent_ms)
            (sym same) (tidied s boxes outbox_ms sent_ms),
        λ f h. cc,
      )
