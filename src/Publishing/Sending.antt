-- ===== src/Publishing/Sending.antt =====
-- What `publish` and `push` of cli/dacar.js hand to the transport, and what becomes of the deltas in
-- the store whatever the transport answers.
use dacar.Common.{
  ℕ, ◌≡◌, ◌↔◌, ◌⊎◌, inl, inr, refl, sym, ap, subst, Bool, true, false, Bool-cases, ◌==◌, List, [],
  ◌∷◌, map, Option, none, some, Bytes, Text, length, arith, In, In-append, Distinct, Result, ok,
  err, Failure,
}
use dacar.Platform.{Platform, IsHex, IsPacking}
use dacar.Operation.{set_has, set_add}
use dacar.Operation.Sets.{set_has-hex, set_has-add_hex}
use dacar.Records.{load_outbox, load_sent}
use dacar.Publishing.{
  Boxes, Source, no_files, accepted_bytes, record_publish, dedup, to_publish, record_accepted,
  send_all, publish, push, push_to,
}
use dacar.Publishing.Moved.{record_publish_moves}

module _ (p : Platform) (hex : IsHex p) where
  dedup_iff :
      (seen : List Text) (bs : List Bytes) (x : Bytes)
      → In x (dedup p seen bs) ↔ (In x bs × (set_has seen (p.to_hex x) ≡ false))
  unfolding dedup
  dedup_iff seen [] x = (λ i. absurd i, λ i. i.0)
  dedup_iff seen (b ∷ bs) x = elim (Bool-cases (set_has seen (p.to_hex b))) [
    | inl old ↦
        rw (old, dedup)
          (
            λ i. let r = (dedup_iff seen bs x).0 i in (inr (r.0), r.1),
            λ i. elim i.0 [
              | inl e ↦ absurd (ground (arith, ap (λ y. set_has seen (p.to_hex y)) e))
              | inr j ↦ (dedup_iff seen bs x).1 (j, i.1)
            ],
          )
    | inr new ↦
        rw (new, dedup)
          (
            λ i. elim i [
              | inl e ↦ (inl e, cc (new, ap (λ y. set_has seen (p.to_hex y)) e))
              | inr j ↦
                  let r = (dedup_iff (set_add seen (p.to_hex b)) bs x).0 j in
                  (inr (r.0), unseen r.1)
            ],
            λ i. elim (Bool-cases (set_has (set_add seen (p.to_hex b)) (p.to_hex x))) [
              | inl hit ↦ elim ((set_has-add_hex p hex seen b x).0 hit) [
                | inl e ↦ inl e
                | inr h ↦ absurd (ground (arith, i.1))
              ]
              | inr miss ↦ elim i.0 [
                | inl e ↦ inl e
                | inr j ↦ inr ((dedup_iff (set_add seen (p.to_hex b)) bs x).1 (j, miss))
              ]
            ],
          )
  ]
    where
      unseen :
          set_has (set_add seen (p.to_hex b)) (p.to_hex x) ≡ false
          → set_has seen (p.to_hex x) ≡ false
      unseen h = elim (Bool-cases (set_has seen (p.to_hex x))) [
        | inl hit ↦ absurd (ground (arith, (set_has-add_hex p hex seen b x).1 (inr hit)))
        | inr miss ↦ miss
      ]

  dedup-Distinct : (seen : List Text) (bs : List Bytes) → Distinct (dedup p seen bs)
  unfolding dedup
  dedup-Distinct seen [] = tt
  dedup-Distinct seen (b ∷ bs) = elim (Bool-cases (set_has seen (p.to_hex b))) [
    | inl old ↦ rw (old, dedup) (dedup-Distinct seen bs)
    | inr new ↦
        rw (new, dedup)
          (
            λ i. ground (
              arith,
              ((dedup_iff (set_add seen (p.to_hex b)) bs b).0 i).1,
              (set_has-add_hex p hex seen b b).1 (inl refl),
            ),
            dedup-Distinct (set_add seen (p.to_hex b)) bs,
          )
  ]

  -- The list that is sent has the selected payloads, each exactly once.
  pub dedup_exact :
      (payloads : List Bytes)
      → Distinct (dedup p [] payloads) × ((x : Bytes) → In x (dedup p [] payloads) ↔ In x payloads)
  unfolding set_has
  dedup_exact payloads = (
    dedup-Distinct [] payloads,
    λ x. (λ i. ((dedup_iff [] payloads x).0 i).0, λ i. (dedup_iff [] payloads x).1 (i, refl)),
  )

  module _ (packing : IsPacking p) where
    -- A delta that the store has, in either box.
    abbrev pub Stored : Boxes → Bytes → Type 0
    Stored s x = In x (load_outbox p s.outbox) ⊎ In x (load_sent p s.sent)

    -- What the call leaves of the boxes.
    pub record Kept (source : Source) (transport : List Bytes → Result (List Bool)) (s : Boxes)
        (r : Result ℕ × Boxes) : Type 0 where
      pub stored : no_files source ≡ true → (x : Bytes) → Stored s x → Stored r.1 x
      pub sent : (x : Bytes) → In x (load_sent p s.sent) → In x (load_sent p r.1.sent)
      pub left :
          (x : Bytes)
          → In x (load_outbox p s.outbox)
          → (In x (load_outbox p r.1.outbox) → ⊥)
          → (payloads : List Bytes) × (accepted : List Bool) × (to_publish p source s ≡ ok payloads)
            × (transport (dedup p [] payloads) ≡ ok accepted)
            × In x (accepted_bytes (dedup p [] payloads) accepted)
      pub failed : (e : Failure) → r.0 ≡ err e → r.1 ≡ s

    unchanged :
        (source : Source) (transport : List Bytes → Result (List Bool)) (s : Boxes) (n : Result ℕ)
        → Kept source transport s (n, s)
    unchanged source transport s n = record {
      stored = λ h x i. i;
      sent = λ x i. i;
      left = λ x i j. absurd (j i);
      failed = λ e h. refl;
    }

    -- Whether a byte string is in a list is decided by its hexadecimal text.
    In-cases : (x : Bytes) (bs : List Bytes) → In x bs ⊎ (In x bs → ⊥)
    In-cases x bs = elim (Bool-cases (set_has (map p.to_hex bs) (p.to_hex x))) [
      | inl hit ↦ inl ((set_has-hex p hex bs x).0 hit)
      | inr miss ↦ inr (λ i. ground (arith, (set_has-hex p hex bs x).1 i))
    ]

    -- A delta that is in one of the boxes still is, once what was accepted is recorded as sent.
    pub Stored-record_publish :
        (s : Boxes) (payloads : List Bytes) (accepted : List Bool) (x : Bytes)
        (record_to_sent : Bool)
        → record_to_sent ≡ true
        → Stored s x
        → Stored (record_publish p s payloads accepted record_to_sent).1 x
    Stored-record_publish s payloads accepted x record_to_sent h i =
        let m = (record_publish_moves p hex packing s payloads accepted record_to_sent).1 in
        elim i [
          | inl j ↦ elim (In-cases x (accepted_bytes payloads accepted)) [
            | inl hit ↦ inr ((m.sent h x).1 (inr hit))
            | inr miss ↦ inl ((m.outbox x).1 (j, miss))
          ]
          | inr j ↦ inr ((m.sent h x).1 (inl j))
        ]

    recorded :
        (source : Source) (transport : List Bytes → Result (List Bool)) (s : Boxes)
        (payloads : List Bytes) (accepted : List Bool)
        → to_publish p source s ≡ ok payloads
        → transport (dedup p [] payloads) ≡ ok accepted
        → Kept source transport s (record_accepted p source s (dedup p [] payloads) (ok accepted))
    unfolding record_accepted
    recorded source transport s payloads accepted selected answered =
        let m =
          (record_publish_moves p hex packing s (dedup p [] payloads) accepted
            (no_files source)).1 in
        record {
          stored = λ h x i.
              Stored-record_publish s (dedup p [] payloads) accepted x (no_files source) h i;
          sent = λ x i.
              subst (In x) (sym m.later.1) ((In-append x (load_sent p s.sent) m.later.0).1 (inl i));
          left = λ x i gone. elim (In-cases x (accepted_bytes (dedup p [] payloads) accepted)) [
            | inl hit ↦ (payloads, accepted, selected, answered, hit)
            | inr miss ↦ absurd (gone ((m.outbox x).1 (i, miss)))
          ];
          failed = λ e h. cc;
        }

    send_all-Kept :
        (source : Source) (transport : List Bytes → Result (List Bool)) (s : Boxes)
        → Kept source transport s (send_all p source transport s (to_publish p source s))
    unfolding send_all record_accepted
    send_all-Kept source transport s = selected (to_publish p source s) refl
      where
        answered :
            (payloads : List Bytes) (answer : Result (List Bool))
            → to_publish p source s ≡ ok payloads
            → transport (dedup p [] payloads) ≡ answer
            → Kept source transport s (record_accepted p source s (dedup p [] payloads) answer)
        answered payloads (err e) chosen same = unchanged source transport s (err e)
        answered payloads (ok accepted) chosen same =
            recorded source transport s payloads accepted chosen same

        selected :
            (r : Result (List Bytes))
            → to_publish p source s ≡ r
            → Kept source transport s (send_all p source transport s r)
        selected (err e) same = unchanged source transport s (err e)
        selected (ok payloads) same = elim (Bool-cases (length payloads == 0)) [
          | inl none' ↦ rw (none', send_all) (unchanged source transport s (ok 0))
          | inr some' ↦ rw (some', send_all) (answered payloads _ same refl)
        ]

    -- Whatever the transport accepts, refuses or throws: what was in the sent box stays there; a
    -- delta leaves the outbox only if it was handed to the transport and accepted; where the
    -- deltas come from the store, each of them is still in one of the boxes; and a call that throws
    -- changes nothing.
    pub publish_keeps :
        (identity : Option p.Identity) (source : Source)
        (transport : List Bytes → Result (List Bool)) (s : Boxes)
        → Kept source transport s (publish p identity source transport s)
    unfolding publish
    publish_keeps none source transport s = unchanged source transport s (err Failure.error)
    publish_keeps (some identity) source transport s = send_all-Kept source transport s

    -- The same of a push to a target that the first argument resolves to; where it does not resolve
    -- nothing is changed.
    pub push_keeps :
        (identity : Option p.Identity) (target : Bytes) (source : Source)
        (transport : Bytes → List Bytes → Result (List Bool)) (s : Boxes) (e : Failure)
        → Kept source (transport target) s (push p identity (ok target) source transport s)
          × ((push p identity (err e) source transport s).1 ≡ s)
    unfolding push push_to
    push_keeps none target source transport s e =
        (unchanged source (transport target) s (err Failure.error), refl)
    push_keeps (some identity) target source transport s e =
        (send_all-Kept source (transport target) s, refl)
