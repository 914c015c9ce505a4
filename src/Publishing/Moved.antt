-- ===== src/Publishing/Moved.antt =====
-- What `recordPublish` of cli/dacar.js does to the outbox and the sent box.
use dacar.Common.{
  ℕ, ◌≡◌, ◌↔◌, ◌⊎◌, inl, inr, refl, sym, ◌∙◌, Bool, true, false, ◌==◌, if◌then◌else◌, Bool-cases,
  List, [], ◌∷◌, ◌++◌, map, Option, Bytes, Text, length, arith, In, Distinct, append-nil,
}
use dacar.Platform.{Platform, IsHex, IsPacking}
use dacar.Operation.{set_has}
use dacar.Operation.Sets.{set_has-hex}
use dacar.Records.{load_outbox, load_sent}
use dacar.Records.Boxes.{load-save}
use dacar.Publishing.{Boxes, accepted_bytes, outside, drained, append_new, appended, record_publish}
use dacar.Publishing.Appending.{
  Appended, append_new-Appended, outside-length, outside-shorter, outside_iff,
}

module _ (p : Platform) (hex : IsHex p) (packing : IsPacking p) where
  drained_lem :
      (accepted : List Bytes) (record' : Option Bytes)
      → load_outbox p (drained p accepted record')
        ≡ outside p (map p.to_hex accepted) (load_outbox p record')
  unfolding drained
  drained_lem accepted record' = elim (Bool-cases (length outbox == 0)) [
    | inl none' ↦ rw none' (
        sym
          (outside-length p hex hexes outbox (ground (arith, outside-shorter p hex hexes outbox))))
    | inr some' ↦ rw some' (elim (Bool-cases (length kept == length outbox)) [
      | inl same ↦ rw same (sym (outside-length p hex hexes outbox (ground arith)))
      | inr fewer ↦ rw fewer ((load-save p packing kept).0)
    ])
  ]
    where
      hexes : List Text
      hexes = map p.to_hex accepted

      outbox : List Bytes
      outbox = load_outbox p record'

      kept : List Bytes
      kept = outside p hexes outbox

  logged_new :
      (accepted : List Bytes) (record' : Option Bytes)
      → Appended p hex
          (load_sent p record')
          accepted
          false
          (append_new p (map p.to_hex (load_sent p record')) (load_sent p record') false accepted)
  logged_new accepted record' =
      append_new-Appended p hex (map p.to_hex (load_sent p record')) (load_sent p record') accepted
        false (set_has-hex p hex (load_sent p record'))

  appended_lem :
      (accepted : List Bytes) (record' : Option Bytes)
      → load_sent p (appended p accepted record')
        ≡ (append_new p (map p.to_hex (load_sent p record')) (load_sent p record') false accepted).0
  unfolding appended
  appended_lem accepted record' = elim (Bool-cases r.1) [
    | inl changed ↦ rw changed ((load-save p packing r.0).1)
    | inr same ↦ rw same (sym ((logged_new accepted record').same same))
  ]
    where
      r : List Bytes × Bool
      r = append_new p (map p.to_hex (load_sent p record')) (load_sent p record') false accepted

  -- The boxes after deltas were accepted.
  pub record Moved (bytes : List Bytes) (record_to_sent : Bool) (s s' : Boxes) : Type 0 where
    pub outbox :
        (x : Bytes)
        → In x (load_outbox p s'.outbox) ↔ (In x (load_outbox p s.outbox) × (In x bytes → ⊥))
    pub sent :
        record_to_sent ≡ true
        → (x : Bytes) → In x (load_sent p s'.sent) ↔ (In x (load_sent p s.sent) ⊎ In x bytes)
    pub later : (new : List Bytes) × (load_sent p s'.sent ≡ load_sent p s.sent ++ new)
    pub distinct : Distinct (load_sent p s.sent) → Distinct (load_sent p s'.sent)
    pub untouched : record_to_sent ≡ false → s'.sent ≡ s.sent

  unmoved : (record_to_sent : Bool) (s : Boxes) → Moved [] record_to_sent s s
  unmoved record_to_sent s = record {
    outbox = λ x. (λ i. (i, λ j. j), λ i. i.0);
    sent = λ e x. (λ i. inl i, λ i. elim i [ inl j ↦ j | inr f ↦ absurd f ]);
    later = ([], sym (append-nil _));
    distinct = λ d. d;
    untouched = λ e. refl;
  }

  drained_iff :
      (bytes : List Bytes) (record' : Option Bytes) (x : Bytes)
      → In x (load_outbox p (drained p bytes record'))
        ↔ (In x (load_outbox p record') × (In x bytes → ⊥))
  drained_iff bytes record' x = rw (drained_lem bytes record') (
    λ i.
        let r = (outside_iff p hex (map p.to_hex bytes) (load_outbox p record') x).0 i in
        (r.0, λ j. ground (arith, r.1, (set_has-hex p hex bytes x).1 j)),
    λ i. (outside_iff p hex (map p.to_hex bytes) (load_outbox p record') x).1 (i.0, absent i.1),
  )
    where
      absent : (In x bytes → ⊥) → set_has (map p.to_hex bytes) (p.to_hex x) ≡ false
      absent h = elim (Bool-cases (set_has (map p.to_hex bytes) (p.to_hex x))) [
        | inl found ↦ absurd (h ((set_has-hex p hex bytes x).0 found))
        | inr none' ↦ none'
      ]

  moved :
      (bytes : List Bytes) (record_to_sent : Bool) (s : Boxes)
      → Moved bytes record_to_sent s (record {
        outbox = drained p bytes s.outbox;
        sent = if record_to_sent then appended p bytes s.sent else s.sent;
      })
  moved bytes true s = record {
    outbox = drained_iff bytes s.outbox;
    sent = λ e x. rw (appended_lem bytes s.sent) ((logged_new bytes s.sent).members x);
    later = (
      (logged_new bytes s.sent).new,
      appended_lem bytes s.sent ∙ (logged_new bytes s.sent).whole,
    );
    distinct = λ d. rw (appended_lem bytes s.sent) ((logged_new bytes s.sent).distinct d);
    untouched = λ e. cc;
  }
  moved bytes false s = record {
    outbox = drained_iff bytes s.outbox;
    sent = λ e x. cc;
    later = ([], sym (append-nil _));
    distinct = λ d. d;
    untouched = λ e. refl;
  }

  -- The accepted deltas, and no others, leave the outbox. They are then in the sent box, behind
  -- what was there and without a delta that was there before, if they are to be recorded; if not,
  -- the sent box is as it was. The answer is their number.
  pub record_publish_moves :
      (s : Boxes) (payloads : List Bytes) (accepted : List Bool) (record_to_sent : Bool)
      → ((record_publish p s payloads accepted record_to_sent).0
          ≡ length (accepted_bytes payloads accepted))
        × Moved
            (accepted_bytes payloads accepted)
            record_to_sent
            s
            (record_publish p s payloads accepted record_to_sent).1
  unfolding record_publish
  record_publish_moves s payloads accepted record_to_sent = go (accepted_bytes payloads accepted)
    where
      result : List Bytes → ℕ × Boxes
      result bytes = if length bytes == 0 then (0, s) else (
        length bytes,
        record {
          outbox = drained p bytes s.outbox;
          sent = if record_to_sent then appended p bytes s.sent else s.sent;
        },
      )

      go :
          (bytes : List Bytes)
          → ((result bytes).0 ≡ length bytes) × Moved bytes record_to_sent s (result bytes).1
      go [] = (refl, unmoved record_to_sent s)
      go (b ∷ bs) =
          let some' : (length (b ∷ bs) == 0) ≡ false = ground arith in
          rw some' (refl, moved (b ∷ bs) record_to_sent s)
