-- ===== src/Tests/Messages.antt =====
-- The messages of transport/lxmfSync.js and the commands of cli/dacar.js that read and make deltas.
use dacar.Common.{
  In, inl, refl, map, ltb, Failure, Option, ℕ, ℕ, ◌≡◌, ◌≢◌, ◌++◌, true, false, List, [], ◌∷◌, Bytes,
  Text, none, some, Result, ok, All, codes, arith, list_eq,
}
use mathlib.Core.List.{flatten}
use dacar.Platform.Sample.{sample, sample-IsHex, sample-IsHexText, to_hex}
use dacar.Verifier.{keyring}
use dacar.Naming.{lxmf_delivery_title}
use dacar.Lxmf
use dacar.Lxmf.{
  message_title, message_content, Message, handle_message, pack_chunks, pack_paper_uris,
}
use dacar.Lxmf.Chunks.{Fits, pack_chunks_lossless}
use dacar.Lxmf.Papers.{Ended, pack_paper_uris_ends}
use dacar.Delta.Batch.{Trace}
use dacar.Value.{bin}
use dacar.Lxmf.Handled.{answered, carried, handle_message_sound}
use dacar.Inputs.{coerce_payload}
use dacar.Inputs.Payloads.{coerce_payload-to_hex}
use dacar.JsMap.{JsMap}
use dacar.Tuple.{hash}
use dacar.Issue.{LedgerRow}
use dacar.Validation.{validate, comma, row_reason, object_reason, includes_comma}
use dacar.Validation.Unmatched.{missed, validate_misses}
use dacar.Tests.Fixture.{light, empty_state, at_day}
use dacar.Tests.Operations.{payload, ring}
use dacar.Crdt.{StateVector}
use dacar.Tests.States.{granted, received, old_state, old-IsState, old_payload}

pack_chunks_lossless_example :
    (flatten (pack_chunks sample (payload ∷ old_payload ∷ []) 300) ≡ payload ∷ old_payload ∷ [])
    × All (Fits sample 300) (pack_chunks sample (payload ∷ old_payload ∷ []) 300)
pack_chunks_lossless_example = pack_chunks_lossless sample 300 (payload ∷ old_payload ∷ [])

abbrev make_uri : List Bytes → Result Text
make_uri bs = ok (flatten bs)

pack_paper_uris_ends_example :
    Ended make_uri
      (payload ∷ old_payload ∷ [])
      (pack_paper_uris make_uri sample 2 300 (payload ∷ old_payload ∷ []))
pack_paper_uris_ends_example =
    pack_paper_uris_ends make_uri sample 2 300 (payload ∷ old_payload ∷ []) (omega arith)

coerce_payload-to_hex_example :
    coerce_payload (to_hex (7 ∷ 255 ∷ []) ++ 10 ∷ []) false ≡ 7 ∷ 255 ∷ []
coerce_payload-to_hex_example =
    coerce_payload-to_hex sample sample-IsHexText (7 ∷ 255 ∷ []) (omega arith, (omega arith, tt))
      (λ e. cc)

-- A delta of its own, whose operation is in time.
abbrev delivery : Message
delivery = record {
  title = Lxmf.text lxmf_delivery_title;
  content = Lxmf.bytes payload;
  decoded_payload = none;
}

abbrev fixed_clock : ℕ → ℕ
fixed_clock i = 0

-- It is applied.
delivered :
    handle_message sample (at_day 310) (some (keyring ring)) (some delivery) fixed_clock empty_state
    ≡ (ok true, granted)
unfolding handle_message message_title message_content list_eq
delivered = rw received refl

handle_message_sound_example :
    (t : StateVector) × (n : ℕ) × (stop : Option Failure) × Trace sample
      (keyring ring)
      (at_day 310)
      (map bin (carried sample (some delivery)))
      fixed_clock
      empty_state
      t
      n
      stop
    × (handle_message sample
          (at_day 310)
          (some (keyring ring))
          (some delivery)
          fixed_clock
          empty_state
        ≡ (answered (ltb 0 n) stop, t))
handle_message_sound_example =
    handle_message_sound sample (at_day 310) (keyring ring) (some delivery) fixed_clock empty_state

-- A row on the tuple that the state holds, whose object has a comma.
abbrev row : LedgerRow
row = record {
  object_id = some (codes "a,b");
  relation = some (codes "open");
  is_wildcard = some false;
  first_seen = 0;
}

abbrev ledger : JsMap LedgerRow
ledger = (to_hex (hash sample light), row) ∷ []

suspicious : row_reason (some row) ≡ some comma
unfolding row_reason object_reason includes_comma
suspicious = refl

validate_misses_example :
    In (missed (to_hex (hash sample light)) comma) (validate sample old_state ledger)
    × All (λ r. r.has_state_tuple ≢ some true) (validate sample old_state ledger)
validate_misses_example =
    validate_misses sample sample-IsHex old_state ledger (to_hex (hash sample light)) row comma
      old-IsState (inl refl) suspicious
