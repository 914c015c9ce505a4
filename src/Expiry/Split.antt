-- ===== src/Expiry/Split.antt =====
-- Which payloads `prunePayloadList` of cli/dacar.js keeps, and what receivers say to the others.
use dacar.Common.{
  ℕ, ◌+◌, ◌-◌, ◌/◌, ◌≤◌, ◌<◌, ◌≡◌, ◌↔◌, ◌⊎◌, inl, inr, refl, sym, ap, subst, true, ltb, ◌==◌,
  Bool-cases, List, [], ◌∷◌, Bytes, length, arith, In, Result, ok, err, ◌∙◌,
}
use dacar.Platform.{Platform}
use dacar.Hlc.{unpack_hlc, max_hlc}
use dacar.Operation.{Operation}
use dacar.Operation.Wire.{from_payload}
use dacar.Verifier.{Resolver}
use dacar.Crdt.{StateVector, Options, or_clock, deletion_horizon_ms}
use dacar.Delta.{apply_payload}
use dacar.Delta.Receipt.{apply_payload_sound}
use dacar.Expiry.{physical_of, keep_or_drop, split_by, prune_payload_list}

ok-injective : {a b : ℕ} → ok a ≡ ok b → a ≡ b
ok-injective h = cc

module _ (p : Platform) where
  -- A payload with a time that lies before the cutoff.
  abbrev pub Stale : ℕ → Bytes → Type 0
  Stale cutoff b = (physical_ms : ℕ) × (physical_of p b ≡ ok physical_ms) × (physical_ms < cutoff)

  split_by-drop :
      (cutoff : ℕ) (b : Bytes) (bs : List Bytes)
      → Stale cutoff b
      → split_by p cutoff (b ∷ bs) ≡ ((split_by p cutoff bs).0, (split_by p cutoff bs).1 + 1)
  unfolding split_by keep_or_drop
  split_by-drop cutoff b bs (ms, read, old) = rw read (ground arith)

  split_by-keep :
      (cutoff : ℕ) (b : Bytes) (bs : List Bytes)
      → (Stale cutoff b → ⊥)
      → split_by p cutoff (b ∷ bs) ≡ (b ∷ (split_by p cutoff bs).0, (split_by p cutoff bs).1)
  unfolding split_by keep_or_drop
  split_by-keep cutoff b bs fresh = go (physical_of p b) refl
    where
      go :
          (r : Result ℕ)
          → physical_of p b ≡ r
          → keep_or_drop p b r cutoff (split_by p cutoff bs)
            ≡ (b ∷ (split_by p cutoff bs).0, (split_by p cutoff bs).1)
      go (err e) same = refl
      go (ok ms) same = elim (Bool-cases (ltb ms cutoff)) [
        | inl old ↦ absurd (fresh (ms, same, ground arith))
        | inr new ↦ rw new refl
      ]

  pub Stale-cases : (cutoff : ℕ) (b : Bytes) → Stale cutoff b ⊎ (Stale cutoff b → ⊥)
  Stale-cases cutoff b = go (physical_of p b) refl
    where
      go : (r : Result ℕ) → physical_of p b ≡ r → Stale cutoff b ⊎ (Stale cutoff b → ⊥)
      go (err e) same = inr (λ s. cc (s.1, same))
      go (ok ms) same = elim (Bool-cases (ltb ms cutoff)) [
        | inl old ↦ inl (ms, same, ground arith)
        | inr new ↦
            inr (λ s. let e : ms ≡ s.0 = ok-injective (cc (s.1, same)) in ground (arith, s.2))
      ]

  split_by_iff :
      (cutoff : ℕ) (bs : List Bytes) (x : Bytes)
      → In x (split_by p cutoff bs).0 ↔ (In x bs × (Stale cutoff x → ⊥))
  unfolding split_by
  split_by_iff cutoff [] x = (λ i. absurd i, λ i. i.0)
  split_by_iff cutoff (b ∷ bs) x = elim (Stale-cases cutoff b) [
    | inl old ↦ rw (split_by-drop cutoff b bs old) (
      λ i. let r = (split_by_iff cutoff bs x).0 i in (inr (r.0), r.1),
      λ i. elim i.0 [
        | inl e ↦ absurd (i.1 (subst (Stale cutoff) (sym e) old))
        | inr j ↦ (split_by_iff cutoff bs x).1 (j, i.1)
      ],
    )
    | inr new ↦ rw (split_by-keep cutoff b bs new) (
      λ i. elim i [
        | inl e ↦ (inl e, λ h. new (subst (Stale cutoff) e h))
        | inr j ↦ let r = (split_by_iff cutoff bs x).0 j in (inr (r.0), r.1)
      ],
      λ i. elim i.0 [ inl e ↦ inl e | inr j ↦ inr ((split_by_iff cutoff bs x).1 (j, i.1)) ],
    )
  ]

  split_by-length :
      (cutoff : ℕ) (bs : List Bytes)
      → length (split_by p cutoff bs).0 + (split_by p cutoff bs).1 ≡ length bs
  unfolding split_by
  split_by-length cutoff [] = refl
  split_by-length cutoff (b ∷ bs) = elim (Stale-cases cutoff b) [
    | inl old ↦ omega (
      arith,
      split_by-length cutoff bs,
      ap (λ r. length r.0) (split_by-drop cutoff b bs old),
      ap (λ r. r.1) (split_by-drop cutoff b bs old),
    )
    | inr new ↦ omega (
      arith,
      split_by-length cutoff bs,
      ap (λ r. length r.0) (split_by-keep cutoff b bs new),
      ap (λ r. r.1) (split_by-keep cutoff b bs new),
    )
  ]

  -- Exactly the payloads that are not stale are kept, and the others are counted.
  pub prune_payload_list_exact :
      (payloads : List Bytes) (horizon_ms now_ms : ℕ)
      → ((x : Bytes)
          → In x (prune_payload_list p payloads horizon_ms now_ms).0
            ↔ (In x payloads × (Stale (now_ms - horizon_ms) x → ⊥)))
        × (length (prune_payload_list p payloads horizon_ms now_ms).0
              + (prune_payload_list p payloads horizon_ms now_ms).1
            ≡ length payloads)
  unfolding prune_payload_list
  prune_payload_list_exact payloads horizon_ms now_ms =
      (split_by_iff (now_ms - horizon_ms) payloads, split_by-length (now_ms - horizon_ms) payloads)

  physical_of_lem :
      (b : Bytes) (o : Operation)
      → from_payload p b ≡ ok o
      → o.hlc ≤ max_hlc
      → physical_of p b ≡ ok (o.hlc / 65536)
  unfolding physical_of unpack_hlc
  physical_of_lem b o decoded fits = rw decoded (ground arith)

  -- A stale payload is applied by no receiver with this horizon, whatever it knows of the issuer, at
  -- that time of day or later.
  pub Stale-rejected :
      (resolver : Resolver p) (options : Options) (s s' : StateVector) (payload : Bytes)
      (now clock_ms : ℕ)
      → Stale (now - deletion_horizon_ms s) payload
      → now ≤ or_clock options.now_ms clock_ms
      → apply_payload p resolver options s payload clock_ms ≡ ok (true, s')
      → ⊥
  Stale-rejected resolver options s s' payload now clock_ms (ms, read, old) later e =
      elim (apply_payload_sound p resolver options s s' payload clock_ms true e) [
        | inl (no', kept) ↦ ground arith
        | inr (yes', v) ↦
            let time = physical_of_lem payload v.operation v.decoded v.well_formed.0.hlc in
            let same : ms ≡ v.operation.hlc / 65536 = ok-injective (cc (read, time)) in
            ground (arith, v.in_time)
      ]

  pub split_by-none :
      (cutoff : ℕ) (bs : List Bytes) → (split_by p cutoff bs).1 ≡ 0 → (split_by p cutoff bs).0 ≡ bs
  unfolding split_by
  split_by-none cutoff [] h = refl
  split_by-none cutoff (b ∷ bs) h = elim (Stale-cases cutoff b) [
    | inl old ↦ absurd (omega (arith, ap (λ r. r.1) (split_by-drop cutoff b bs old), h))
    | inr new ↦
        ap (λ r. r.0) (split_by-keep cutoff b bs new)
        ∙ ap (λ r. b ∷ r)
            (split_by-none cutoff bs
              (omega (arith, ap (λ r. r.1) (split_by-keep cutoff b bs new), h)))
  ]

  pub split_by-empty :
      (cutoff : ℕ) (bs : List Bytes) → (length bs == 0) ≡ true → (split_by p cutoff bs).0 ≡ bs
  unfolding split_by
  split_by-empty cutoff [] h = refl
  split_by-empty cutoff (b ∷ bs) h = absurd (ground arith)
