-- ===== src/Operation/Signed.antt =====
-- `verifyThreshold` of operation.js: what a `true` says of the signatures.
use dacar.Common.{
  ℕ, ◌+◌, ◌≤◌, ◌≡◌, ◌≢◌, refl, ap, List, [], ◌∷◌, Bytes, Text, true, false, arith, length, All, In,
  Option, some, none, Option-cases, ◌⊎◌, inl, inr, ok, list_eq_iff, >>=-eq-ok, ◌>>=◌,
}
use dacar.Platform.{Platform}
use dacar.Value.{map_result}
use dacar.Operation.{
  Operation, preimage, KeyLike, as_identity, key_hex, find_signer, match_signatures, set_has,
  set_add, verify_threshold, is_size,
}

module _ (p : Platform) where
  -- Each identity validates the signature that stands in its place.
  abbrev pub Validated : List p.Identity → List Bytes → Bytes → Type 0
  Validated [] [] m = Unit
  Validated [] (s ∷ ss) m = ⊥
  Validated (i ∷ is) [] m = ⊥
  Validated (i ∷ is) (s ∷ ss) m = (p.validate i s m ≡ true) × Validated is ss m

  -- No two of the identities have one public key.
  abbrev pub DistinctKeys : List p.Identity → Type 0
  DistinctKeys [] = Unit
  DistinctKeys (i ∷ is) = All (λ j. p.public_key j ≢ p.public_key i) is × DistinctKeys is

  find_signer-cons :
      (x : p.Identity) (ms : List p.Identity) (used : List Text) (sig message : Bytes)
      (m : p.Identity)
      → find_signer p (x ∷ ms) used sig message ≡ some m
      → ((m ≡ x) × (set_has used (key_hex p x) ≡ false) × (p.validate x sig message ≡ true))
        ⊎ (find_signer p ms used sig message ≡ some m)
  unfolding find_signer
  find_signer-cons x ms used sig message m e = ground arith

  find_signer_sound :
      (ms : List p.Identity) (used : List Text) (sig message : Bytes) (m : p.Identity)
      → find_signer p ms used sig message ≡ some m
      → In m ms × (set_has used (key_hex p m) ≡ false) × (p.validate m sig message ≡ true)
  unfolding find_signer
  find_signer_sound [] used sig message m e = cc
  find_signer_sound (x ∷ ms) used sig message m e =
      elim (find_signer-cons x ms used sig message m e) [
        | inl (same, u, v) ↦ (inl same, rw same u, rw same v)
        | inr later ↦ let (i, u, v) = find_signer_sound ms used sig message m later in (inr i, u, v)
      ]

  -- What the loop over the signatures has found, from the keys used before.
  record Matched (ms : List p.Identity) (sigs : List Bytes) (used used' : List Text)
      (message : Bytes) : Type 0 where
    signers : List p.Identity
    members : All (λ i. In i ms) signers
    valid : Validated signers sigs message
    distinct : DistinctKeys signers
    unused : All (λ i. set_has used (key_hex p i) ≡ false) signers
    count : length used' ≡ length used + length sigs

  -- A key that is not in the set with `k` added is another key, and is not in the set.
  set_has-add :
      (used : List Text) (k t : Text)
      → set_has used k ≡ false
      → set_has (set_add used k) t ≡ false
      → (t ≢ k) × (set_has used t ≡ false)
  unfolding set_add set_has
  set_has-add used k t fresh h = (λ e. ground (arith, list_eq_iff k t), ground arith)

  length-set_add :
      (used : List Text) (k : Text)
      → set_has used k ≡ false
      → length (set_add used k) ≡ length used + 1
  unfolding set_add
  length-set_add used k fresh = ground arith

  fresh_keys :
      (used : List Text) (m : p.Identity) (is : List p.Identity)
      → set_has used (key_hex p m) ≡ false
      → All (λ i. set_has (set_add used (key_hex p m)) (key_hex p i) ≡ false) is
      → All (λ j. p.public_key j ≢ p.public_key m) is
        × All (λ i. set_has used (key_hex p i) ≡ false) is
  unfolding key_hex
  fresh_keys used m [] fresh h = (tt, tt)
  fresh_keys used m (i ∷ is) fresh h =
      let (ne, old) = set_has-add used (key_hex p m) (key_hex p i) fresh h.0 in
      let (nes, olds) = fresh_keys used m is fresh h.1 in
      ((λ e. ne (ap p.to_hex e), nes), (old, olds))

  match_signatures_sound :
      (ms : List p.Identity) (sigs : List Bytes) (used used' : List Text) (message : Bytes)
      → match_signatures p ms sigs used message ≡ some used'
      → Matched ms sigs used used' message
  unfolding match_signatures
  match_signatures_sound ms [] used used' message e = record {
    signers = [];
    members = tt;
    valid = tt;
    distinct = tt;
    unused = tt;
    count = ground arith;
  }
  match_signatures_sound ms (sig ∷ sigs) used used' message e =
      elim (Option-cases (find_signer p ms used sig message)) [
        | inl missing ↦ ground arith
        | inr (m, found) ↦
            let (i, u, v) = find_signer_sound ms used sig message m found in
            let rest =
              match_signatures_sound ms sigs (set_add used (key_hex p m)) used' message
                (ground arith) in
            let (distinct, unused) = fresh_keys used m rest.signers u rest.unused in
            record {
              signers = m ∷ rest.signers;
              members = (i, rest.members);
              valid = (v, rest.valid);
              distinct = (distinct, rest.distinct);
              unused = (u, unused);
              count = omega (arith, rest.count, length-set_add used (key_hex p m) u);
            }
      ]

  threshold_tests :
      (o : Operation) (keys : List (KeyLike p)) (n : ℕ)
      → verify_threshold p o keys n ≡ ok true
      → (1 ≤ n)
        × (length o.signatures ≡ n)
        × ((map_result (as_identity p) keys >>= λ ms.
              ok (is_size p (match_signatures p ms o.signatures [] (preimage o)) n))
            ≡ ok true)
  unfolding verify_threshold
  threshold_tests o keys n e = (ground arith, ground arith, ground arith)

  is_size-found :
      (found : Option (List Text)) (n : ℕ)
      → ok (is_size p found n) ≡ ok true
      → (used : List Text) × (found ≡ some used)
  is_size-found none n e = ground arith
  is_size-found (some used) n e = (used, refl)

  -- If the check says `true`, the keys of all members could be read, there are exactly as many
  -- signatures as the threshold asks, and they are valid, each for the operation's pre-image under
  -- the key of a member of its own: no public key serves twice.
  pub verify_threshold_sound :
      (o : Operation) (keys : List (KeyLike p)) (n : ℕ)
      → verify_threshold p o keys n ≡ ok true
      → (members : List p.Identity) × (map_result (as_identity p) keys ≡ ok members)
        × (signers : List p.Identity) × All (λ i. In i members) signers
        × DistinctKeys signers
        × Validated signers o.signatures (preimage o)
        × (length o.signatures ≡ n)
        × (1 ≤ n)
  verify_threshold_sound o keys n e =
      let (positive, count, checked) = threshold_tests o keys n e in
      let (members, read, matched) = >>=-eq-ok (map_result (as_identity p) keys) _ checked in
      let (used, found) =
        is_size-found (match_signatures p members o.signatures [] (preimage o)) n matched in
      let m = match_signatures_sound members o.signatures [] used (preimage o) found in
      (members, read, m.signers, m.members, m.distinct, m.valid, count, positive)
