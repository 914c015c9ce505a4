-- ===== src/Tests/Pushes.antt =====
-- Pushes of transport/rnsSync.js and pulls of transport/rfedSync.js.
use dacar.Common.{
  arith, zero, suc, err, error, ◌∷◌, ℕ, Bool, true, ltb, ◌≡◌, ◌≢◌, ◌≤◌, refl, [], Bytes, ◌==◌, ◌∙◌,
  false, ok, some, Result, length, ap,
}
use dacar.Platform.Sample.{sample, sample-IsPacking}
use dacar.Platform.Coding.{encode}
use dacar.Operation.Wire.{to_value}
use dacar.Value.{Value, bin}
use dacar.Verifier.{keyring}
use dacar.Delta.Batch.{Received}
use dacar.Sync.{pack_ack, handle_push, push_one, sync_request_handler}
use dacar.Sync.Acknowledged.{unpack_ack-pack_ack, push_one_acknowledged}
use dacar.Rfed.{Page, pull}
use dacar.Rfed.Pulled.{Ended, pull_ends}
use dacar.Tests.Fixture.{empty_state, at_day}
use dacar.Tests.Operations.{payload, ring}
use dacar.Tests.States.{received}

-- The integers that a `number` holds exactly.
abbrev is_safe : ℕ → Bool
is_safe n = ltb n 9007199254740992

abbrev fixed_clock : ℕ → ℕ
fixed_clock i = 0

abbrev request : Bytes → Result Value
request data' = ok (bin (pack_ack sample is_safe 1))

written : pack_ack sample is_safe 1 ≢ []
unfolding pack_ack encode
written e = cc

payload_some : (length payload == 0) ≡ false
unfolding to_value encode dacar.Operation.preimage dacar.Operation.big_endian dacar.Tuple.concat
payload_some = refl

bin-injective : {a b : Bytes} → ok (bin a) ≡ ok (bin b) → a ≡ b
bin-injective e = cc

acked : push_one sample is_safe request payload ≡ true
unfolding push_one
acked = rw (unpack_ack-pack_ack sample is_safe 1 sample-IsPacking written refl) refl

handled :
    (sync_request_handler sample is_safe
      (keyring ring)
      (at_day 310)
      empty_state
      payload
      fixed_clock).0
    ≡ some (pack_ack sample is_safe 1)
unfolding sync_request_handler handle_push
handled = rw (payload_some, received) refl

push_one_acknowledged_example :
    (n : ℕ) × (1 ≤ n)
    × Received sample
        (keyring ring)
        (at_day 310)
        empty_state
        (sync_request_handler sample is_safe
          (keyring ring)
          (at_day 310)
          empty_state
          payload
          fixed_clock).1
        n
push_one_acknowledged_example =
    push_one_acknowledged sample is_safe (keyring ring) (at_day 310) empty_state payload fixed_clock
      request sample-IsPacking delivered acked
  where
    delivered :
        (b : Bytes)
        → request payload ≡ ok (bin b)
        → (sync_request_handler sample is_safe
            (keyring ring)
            (at_day 310)
            empty_state
            payload
            fixed_clock).0
          ≡ some b
    delivered b e = handled ∙ ap some (bin-injective e)

-- A page with a delta and an item that cannot be unwrapped, and then an empty one.
abbrev pages : ℕ → Result Page
pages zero = ok (record { items = ok payload ∷ err error ∷ []; more_pending = true })
pages (suc i) = ok (record { items = []; more_pending = false })

pull_ends_example :
    Ended sample
      (keyring ring)
      (at_day 310)
      empty_state
      (pull sample (some (keyring ring)) (at_day 310) 2 pages (λ i j. 0) empty_state)
pull_ends_example =
    pull_ends sample (keyring ring) (at_day 310) empty_state 1 2 pages (λ i j. 0)
      (record { items = []; more_pending = false }) (omega arith) refl refl
