-- ===== src/Lxmf/Chunks.antt =====
-- The batches of transport/lxmfSync.js: what is packed is read back, and cutting into chunks loses
-- nothing.
use mathlib.Core.List.{flatten}
use dacar.Common.{
  ℕ, ◌≤◌, ◌≡◌, ◌≢◌, ◌⊎◌, refl, ap, ◌∙◌, true, false, List, [], ◌∷◌, ◌++◌, map, some, Bytes, length,
  All, ok, arith, inl, inr, Bool-cases, append_assoc,
}
use dacar.Platform.{Platform, IsPacking}
use dacar.Value.{bin, arr, from_list, to_list}
use dacar.Lxmf.{
  all_binary, binary_elements, batch_elements, decoded_batch, encode_batch, decode_batch, is_empty,
  last_chunk, overflows, pack_from, pack_chunks,
}

all_binary-map : (bs : List Bytes) → all_binary (to_list (from_list (map bin bs))) ≡ some bs
unfolding all_binary
all_binary-map [] = refl
all_binary-map (b ∷ bs) = rw (all_binary-map bs) refl

-- A batch that is not empty is read back as it was packed.
pub decode_batch-encode_batch :
    (p : Platform) (payloads : List Bytes)
    → IsPacking p
    → payloads ≢ []
    → decode_batch p (encode_batch p payloads) ≡ ok payloads
unfolding decode_batch encode_batch decoded_batch batch_elements binary_elements
decode_batch-encode_batch p [] packing some' = absurd (some' refl)
decode_batch-encode_batch p (b ∷ bs) packing some' =
    rw (packing.decode-encode (arr (from_list (map bin (b ∷ bs)))))
      (rw (all_binary-map (b ∷ bs)) refl)

module _ (p : Platform) (max_bytes : ℕ) where
  -- A chunk to send: not empty, and within the budget unless it is a single payload.
  abbrev pub Fits : List Bytes → Type 0
  Fits chunk =
      (chunk ≢ [])
      × ((length (encode_batch p chunk) ≤ max_bytes) ⊎ ((b : Bytes) × (chunk ≡ b ∷ [])))

  abbrev Open : List Bytes → Type 0
  Open current = (current ≡ []) ⊎ Fits current

  pack_from_full :
      (current : List Bytes) (b : Bytes) (bs : List Bytes)
      → overflows p max_bytes current b ≡ true
      → pack_from p max_bytes current (b ∷ bs) ≡ current ∷ pack_from p max_bytes (b ∷ []) bs
  unfolding pack_from
  pack_from_full current b bs full = rw (full, pack_from) refl

  pack_from_open :
      (current : List Bytes) (b : Bytes) (bs : List Bytes)
      → overflows p max_bytes current b ≡ false
      → pack_from p max_bytes current (b ∷ bs) ≡ pack_from p max_bytes (current ++ b ∷ []) bs
  unfolding pack_from
  pack_from_open current b bs fits = rw (fits, pack_from) refl

  empty-overflows : (b : Bytes) → overflows p max_bytes [] b ≡ false
  unfolding overflows is_empty
  empty-overflows b = refl

  flatten-pack_from :
      (current payloads : List Bytes)
      → flatten (pack_from p max_bytes current payloads) ≡ current ++ payloads
  unfolding pack_from last_chunk flatten
  flatten-pack_from [] [] = refl
  flatten-pack_from (c ∷ cs) [] = refl
  flatten-pack_from current (b ∷ bs) = elim (Bool-cases (overflows p max_bytes current b)) [
    | inl full ↦
        ap flatten (pack_from_full current b bs full)
        ∙ ap (λ r. current ++ r) (flatten-pack_from (b ∷ []) bs)
    | inr fits ↦
        ap flatten (pack_from_open current b bs fits)
        ∙ flatten-pack_from (current ++ b ∷ []) bs
        ∙ append_assoc current (b ∷ []) bs
  ]

  Open-append :
      (current : List Bytes) (b : Bytes)
      → Open current
      → overflows p max_bytes current b ≡ false
      → Fits (current ++ b ∷ [])
  unfolding overflows is_empty
  Open-append [] b o h = (λ e. cc, inr (b, refl))
  Open-append (c ∷ cs) b o h = (λ e. cc, inl (ground arith))

  pack_from-Fits :
      (current payloads : List Bytes)
      → Open current
      → All Fits (pack_from p max_bytes current payloads)
  unfolding pack_from last_chunk
  pack_from-Fits [] [] o = tt
  pack_from-Fits (c ∷ cs) [] (inl e) = absurd (ground arith)
  pack_from-Fits (c ∷ cs) [] (inr f) = (f, tt)
  pack_from-Fits current (b ∷ bs) o = elim (Bool-cases (overflows p max_bytes current b)) [
    | inl full ↦
        rw (pack_from_full current b bs full)
          (closed o full, pack_from-Fits (b ∷ []) bs (inr (λ e. cc, inr (b, refl))))
    | inr fits ↦
        rw (pack_from_open current b bs fits)
          (pack_from-Fits (current ++ b ∷ []) bs (inr (Open-append current b o fits)))
  ]
    where
      closed : Open current → overflows p max_bytes current b ≡ true → Fits current
      closed (inl e) full =
          absurd (ground (arith, ap (λ c. overflows p max_bytes c b) e, empty-overflows b))
      closed (inr f) full = f

  -- The chunks are the payloads in their order, each exactly once; every chunk has a payload, and
  -- its batch is within the budget unless it is of one payload that is too long by itself.
  pub pack_chunks_lossless :
      (payloads : List Bytes)
      → (flatten (pack_chunks p payloads max_bytes) ≡ payloads)
        × All Fits (pack_chunks p payloads max_bytes)
  unfolding pack_chunks
  pack_chunks_lossless payloads =
      (flatten-pack_from [] payloads, pack_from-Fits [] payloads (inl refl))
