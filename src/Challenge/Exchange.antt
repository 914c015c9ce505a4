-- ===== src/Challenge/Exchange.antt =====
-- The two sides of the exchange of challenge.js: `AuthoritativeServer` and `ChallengeClient`.
use dacar.Common.{
  ℕ, Bool, false, ◌&&◌, ltb, if◌then◌else◌, List, [], Option, none, some, Bytes, Text, length,
  Result, ok, err, error, ◌>>=◌,
}
use dacar.Platform.{Platform}
use dacar.Value.{pos}
use dacar.Hlc.{Clock, now}
use dacar.Namespace.{bytes_equal}
use dacar.Operation.{KeyLike}
use dacar.Crdt.{StateVector}
use dacar.Config.{Config, hashers}
use dacar.Engine.{
  Engine, Hypothesis, evaluate, evaluate_hashes, default_max_depth, default_max_visited,
}
use dacar.Challenge.{DecodedChallenge, generate, build_hypotheses}
use dacar.Challenge
use dacar.Challenge.Freshness.{Receipt, Verdict, deny, allow, is_allow, new_receipt}
use dacar.Challenge.Freshness

-- `new Engine(config, state)`
abbrev pub new_engine : Config → StateVector → Engine
new_engine config state = record {
  config = config;
  state = state;
  max_depth = default_max_depth;
  max_visited = default_max_visited;
}

module _ (p : Platform) where
  pub record Server : Type 0 where
    pub config : Config
    pub state : StateVector
    pub private_key : p.Identity
    pub clock : Clock

  -- `hypotheses.length > 0 && evaluateHashes(…)`
  unfoldable pub decide : Server → DecodedChallenge → List Hypothesis → Verdict
  decide s decoded hs =
      if ltb 0 (length hs) && evaluate_hashes p (new_engine s.config s.state) decoded.grantee hs
      then allow
      else deny

  answer : Server → DecodedChallenge → List Hypothesis → Result ℕ × Clock → Result Bytes × Server
  answer s decoded hs (hlc, clock) = (
    (do
      server_hlc ← hlc
      unsigned ← new_receipt (decide s decoded hs) (pos server_hlc) decoded.nonce []
      receipt ← Freshness.sign p unsigned s.private_key
      Freshness.to_payload p receipt),
    record s { clock = clock },
  )

  -- The clock ticks only if the challenge could be decoded and bound.
  respond : Server → ℕ → Result (DecodedChallenge × List Hypothesis) → Result Bytes × Server
  unfolding answer
  respond s clock_ms (err e) = (err e, s)
  respond s clock_ms (ok (decoded, hs)) = answer s decoded hs (now s.clock clock_ms)

  unfoldable pub handle : Server → Bytes → ℕ → Result Bytes × Server
  unfolding respond
  handle s challenge_payload clock_ms = respond s clock_ms (do
    decoded ← Challenge.from_payload p challenge_payload
    hs ← build_hypotheses p s.config decoded
    ok (decoded, hs))

  pub record Client : Type 0 where
    pub config : Config
    pub state : StateVector
    pub public_key : KeyLike p

  unfoldable pub new_client : Config → StateVector → KeyLike p → Result Client
  new_client config state key = elim config.authoritative_identity [
    | none ↦ err error
    | some i ↦ ok (record { config = config; state = state; public_key = key })
  ]

  -- What the client makes of the transport's answer: a throw or nothing is a partition.
  unfoldable pub check_receipt : Client → Bytes → Result (Option Bytes) → Result Bool
  check_receipt c nonce (err e) = ok false
  check_receipt c nonce (ok none) = ok false
  check_receipt c nonce (ok (some payload)) = do
    receipt ← Freshness.from_payload p payload
    if bytes_equal receipt.nonce nonce
        then (Freshness.verify p receipt c.public_key >>= λ valid.
            if valid then ok (is_allow receipt.verdict) else ok false)
        else ok false

  -- `authorize`, with the random nonce of its challenge and the transport.
  unfoldable pub authorize :
      Client → Text → Text → Bytes → Bytes → (Bytes → Result (Option Bytes)) → Result Bool
  unfolding check_receipt
  authorize c object_id relation grantee random transport = do
    local ← evaluate p (new_engine c.config c.state) object_id relation grantee
    if local
        then (do
          hs ← hashers c.config
          challenge ← generate object_id relation grantee hs none random
          check_receipt c challenge.nonce (transport (Challenge.to_payload p challenge)))
        else ok false
