-- ===== src/Operation/Signing.antt =====
-- `verifyThreshold` of operation.js accepts what the members have signed.
use dacar.Common.{
  ℕ, ◌+◌, ◌≤◌, ◌≡◌, ◌≢◌, refl, sym, ap, ◌∙◌, List, [], ◌∷◌, Bytes, Text, true, false, arith, length,
  All, In, some, Bool-cases, ◌⊎◌, inl, inr, ok, list_eq_iff,
}
use dacar.Platform.{Platform, IsHex}
use dacar.Value.{map_result}
use dacar.Operation.{
  Operation, preimage, KeyLike, as_identity, key_hex, find_signer, match_signatures, set_has,
  set_add, verify_threshold, signature_size,
}
use dacar.Operation.Signed.{DistinctKeys}

module _ (p : Platform) where
  -- Each identity validates the signature in its place, and no member with another key does.
  abbrev pub Owned : List p.Identity → List p.Identity → List Bytes → Bytes → Type 0
  Owned ms [] [] m = Unit
  Owned ms [] (s ∷ ss) m = ⊥
  Owned ms (i ∷ is) [] m = ⊥
  Owned ms (i ∷ is) (s ∷ ss) m =
      (p.validate i s m ≡ true)
      × ((j : p.Identity) → In j ms → p.validate j s m ≡ true → p.public_key j ≡ p.public_key i)
      × (length s ≡ signature_size)
      × Owned ms is ss m

  find_signer_here :
      (x : p.Identity) (ms : List p.Identity) (used : List Text) (sig message : Bytes)
      → set_has used (key_hex p x) ≡ false
      → p.validate x sig message ≡ true
      → find_signer p (x ∷ ms) used sig message ≡ some x
  unfolding find_signer
  find_signer_here x ms used sig message u v = ground arith

  find_signer_skip :
      (x : p.Identity) (ms : List p.Identity) (used : List Text) (sig message : Bytes)
      → (set_has used (key_hex p x) ≡ true) ⊎ (p.validate x sig message ≡ false)
      → find_signer p (x ∷ ms) used sig message ≡ find_signer p ms used sig message
  unfolding find_signer
  find_signer_skip x ms used sig message h = ground arith

  find_signer_complete :
      (ms : List p.Identity) (used : List Text) (sig message : Bytes) (i : p.Identity)
      → In i ms
      → p.validate i sig message ≡ true
      → ((j : p.Identity)
          → In j ms
          → p.validate j sig message ≡ true
          → p.public_key j ≡ p.public_key i)
      → set_has used (key_hex p i) ≡ false
      → (m : p.Identity) × (find_signer p ms used sig message ≡ some m)
        × (p.public_key m ≡ p.public_key i)
  find_signer_complete [] used sig message i member valid only unused = absurd member
  find_signer_complete (x ∷ ms) used sig message i (inl same) valid only unused = (
    x,
    find_signer_here x ms used sig message (rw same at unused) (rw same at valid),
    ap p.public_key (sym same),
  )
  find_signer_complete (x ∷ ms) used sig message i (inr member) valid only unused =
      let (m, found, key) =
        find_signer_complete ms used sig message i member valid (λ j k. only j (inr k)) unused in
      elim (Bool-cases (set_has used (key_hex p x))) [
        | inl u ↦ (m, find_signer_skip x ms used sig message (inl u) ∙ found, key)
        | inr u ↦ elim (Bool-cases (p.validate x sig message)) [
          | inl v ↦ (x, find_signer_here x ms used sig message u v, only x (inl refl) v)
          | inr v ↦ (m, find_signer_skip x ms used sig message (inr v) ∙ found, key)
        ]
      ]

  unused-set_add :
      (used : List Text) (k t : Text)
      → set_has used k ≡ false
      → t ≢ k
      → set_has used t ≡ false
      → set_has (set_add used k) t ≡ false
  unfolding set_add set_has
  unused-set_add used k t fresh ne h = ground (arith, list_eq_iff k t, ne)

  module _ (hex : IsHex p) where
    unused_keys :
        (used : List Text) (i : p.Identity) (is : List p.Identity)
        → set_has used (key_hex p i) ≡ false
        → All (λ j. p.public_key j ≢ p.public_key i) is
        → All (λ j. set_has used (key_hex p j) ≡ false) is
        → All (λ j. set_has (set_add used (key_hex p i)) (key_hex p j) ≡ false) is
    unfolding key_hex
    unused_keys used i [] fresh ne h = tt
    unused_keys used i (j ∷ is) fresh ne h = (
      unused-set_add used (key_hex p i) (key_hex p j) fresh
          (λ e. ne.0 (hex.to_hex-injective (p.public_key j) (p.public_key i) e)) h.0,
      unused_keys used i is fresh ne.1 h.1,
    )

    match_step :
        (ms : List p.Identity) (sig : Bytes) (sigs : List Bytes) (used : List Text)
        (message : Bytes) (m : p.Identity)
        → length sig ≡ signature_size
        → find_signer p ms used sig message ≡ some m
        → match_signatures p ms (sig ∷ sigs) used message
          ≡ match_signatures p ms sigs (set_add used (key_hex p m)) message
    unfolding match_signatures
    match_step ms sig sigs used message m size found = ground (arith, found)

    length-set_add :
        (used : List Text) (k : Text)
        → set_has used k ≡ false
        → length (set_add used k) ≡ length used + 1
    unfolding set_add
    length-set_add used k fresh = ground arith

    match_signatures_complete :
        (ms is : List p.Identity) (sigs : List Bytes) (used : List Text) (message : Bytes)
        → All (λ i. In i ms) is
        → Owned ms is sigs message
        → DistinctKeys p is
        → All (λ i. set_has used (key_hex p i) ≡ false) is
        → (used' : List Text) × (match_signatures p ms sigs used message ≡ some used')
          × (length used' ≡ length used + length sigs)
    unfolding match_signatures key_hex
    match_signatures_complete ms [] [] used message mem own dist unused = (used, refl, omega arith)
    match_signatures_complete ms [] (s ∷ sigs) used message mem own dist unused = absurd own
    match_signatures_complete ms (i ∷ is) [] used message mem own dist unused = absurd own
    match_signatures_complete ms (i ∷ is) (s ∷ sigs) used message mem own dist unused =
        let (m, found, key) = find_signer_complete ms used s message i mem.0 own.0 own.1 unused.0 in
        let same : key_hex p m ≡ key_hex p i = ap p.to_hex key in
        let (used', rest, count) =
          match_signatures_complete ms is sigs (set_add used (key_hex p i)) message mem.1 own.3
            dist.1 (unused_keys used i is unused.0 dist.0 unused.1) in
        (
          used',
          match_step ms s sigs used message m own.2 found
              ∙ ap (λ k. match_signatures p ms sigs (set_add used k) message) same
              ∙ rest,
          omega (arith, count, length-set_add used (key_hex p i) unused.0),
        )

    unused_none : (is : List p.Identity) → All (λ i. set_has [] (key_hex p i) ≡ false) is
    unfolding set_has
    unused_none [] = tt
    unused_none (i ∷ is) = (refl, unused_none is)

    -- If the keys of the members can be read, and as many signatures as the threshold asks are
    -- each valid under a member of its own and under no other member's key, the check says `true`.
    pub verify_threshold_complete :
        (o : Operation) (keys : List (KeyLike p)) (n : ℕ) (members signers : List p.Identity)
        → map_result (as_identity p) keys ≡ ok members
        → All (λ i. In i members) signers
        → DistinctKeys p signers
        → Owned members signers o.signatures (preimage o)
        → 1 ≤ n
        → n ≤ length keys
        → length o.signatures ≡ n
        → verify_threshold p o keys n ≡ ok true
    unfolding verify_threshold
    verify_threshold_complete o keys n members signers read mem dist own positive enough count =
        let (used, found, size) =
          match_signatures_complete members signers o.signatures [] (preimage o) mem own dist
            (unused_none signers) in
        ground (arith, read, found, size)
