-- ===== src/Issue.antt =====
-- cli/dacar.js: `grant` and `revoke`, from the arguments to the signed payload, the state, the ledger
-- and the outbox. A node is what the records of its store hold once they are read. Writing the
-- payload to a file or to the terminal is left out.
pub mod Queued
pub mod Tuples
pub mod Issued
pub mod Received
pub mod Example
use dacar.Common.{
  ℕ, zero, suc, ◌/◌, ◌^◌, Bool, true, false, not, ◌&&◌, ◌||◌, leb, ◌==◌, if◌then◌else◌, list_eq,
  List, [], ◌∷◌, ◌++◌, Option, none, some, Bytes, Text, length, Result, ok, err, error, require,
  ◌>>=◌, ◌>>◌,
}
use dacar.JsMap.{JsMap}
use dacar.JsMap
use dacar.Platform.{Platform}
use dacar.Value.{ℤ, pos, negsuc}
use dacar.Hlc.{Clock, Parts, now, unpack_hlc}
use dacar.Namespace.{NamespaceHasher, new_hasher, wildcard}
use dacar.Tuple.{Tuple, new_tuple, from_plaintext, hash}
use dacar.Operation.{Operation, Action, new_operation, sign}
use dacar.Operation.Wire.{to_payload}
use dacar.Crdt.{StateVector, Options, default_options, apply}
use dacar.Config.{Config, primary_hasher}
use dacar.Alias.{AliasEntry}
use dacar.Records.{load_outbox, save_outbox}
use dacar.Publishing.{Boxes, record_publish}
use dacar.Inputs.{CopyHashes, parse_copy_hashes, resolve_identity_hash}
use dacar.Settings.{StoreConfig, config_validated}

pub record LedgerRow : Type 0 where
  pub object_id : Option Text
  pub relation : Option Text
  pub is_wildcard : Option Bool
  pub first_seen : ℕ

-- The arguments of the command; a file of copied hashes stands with its text.
pub record IssueArgs : Type 0 where
  pub grantee : Text
  pub relation : Option Text
  pub object_id : Option Text
  pub copy_hashes : Option (Result Text)
  pub legacy : Option ℤ
  pub no_apply : Bool

pub record Built : Type 0 where
  pub tuple : Tuple
  pub object_id : Option Text
  pub relation : Option Text
  pub is_wildcard : Option Bool

-- `text.endsWith("*")`
unfoldable pub ends_with_star : Text → Bool
ends_with_star [] = false
ends_with_star (c ∷ []) = c == b'*'
ends_with_star (c ∷ d ∷ t) = ends_with_star (d ∷ t)

salt_at : List Bytes → ℕ → Result Bytes
salt_at [] i = err error
salt_at (s ∷ ss) zero = ok s
salt_at (s ∷ ss) (suc i) = salt_at ss i

-- The hasher of the primary salt, or of the legacy salt with the index that is given.
hasher_for : Config → Option ℤ → Result NamespaceHasher
unfolding salt_at
hasher_for config none = primary_hasher config
hasher_for config (some (negsuc i)) = err error
hasher_for config (some (pos i)) = do salt ← salt_at config.legacy_salts i; new_hasher salt

module _ (p : Platform) where
  pub record Node : Type 0 where
    pub config : StoreConfig
    pub identity : Option p.Identity
    pub aliases : List AliasEntry
    pub clock : Clock
    pub state : StateVector
    pub ledger : JsMap LedgerRow
    pub boxes : Boxes

  build_copied : CopyHashes → Bytes → Bytes → Result Built
  build_copied c grantee issuer = elim c.relation_hash [
    | none ↦ err error
    | some relation_hash ↦ (do
      tuple ← new_tuple (record {
        relation_hash = relation_hash;
        object_hashes = c.object_hashes;
        is_wildcard = c.is_wildcard;
        grantee = grantee;
        issuer = issuer;
      })
      ok (record { tuple = tuple; object_id = none; relation = none; is_wildcard = none }))
  ]

  build_plain : Config → Option ℤ → Option Text → Option Text → Bytes → Bytes → Result Built
  unfolding hasher_for ends_with_star
  build_plain config legacy (some relation) (some object_id) grantee issuer = do
    hasher ← hasher_for config legacy
    tuple ← from_plaintext p object_id relation grantee issuer hasher
    ok (record {
      tuple = tuple;
      object_id = some object_id;
      relation = some relation;
      is_wildcard = some (ends_with_star object_id && not (list_eq object_id wildcard));
    })
  build_plain config legacy relation object_id grantee issuer = err error

  unfoldable pub build_tuple : IssueArgs → Config → List AliasEntry → Bytes → Result Built
  unfolding build_copied build_plain
  build_tuple args config aliases issuer = do
    grantee ← resolve_identity_hash args.grantee aliases
    elim args.copy_hashes [
      | some file ↦ (do
        text ← file
        copied ← parse_copy_hashes text
        build_copied copied grantee issuer)
      | none ↦ build_plain config args.legacy args.relation args.object_id grantee issuer
    ]

  unfoldable pub signed_operation : Tuple → Action → ℕ → p.Identity → Result Operation
  signed_operation tuple action hlc identity = do
    unsigned ← new_operation tuple action (pos hlc) []
    sign p unsigned (identity ∷ [])

  -- The row that is written where the plaintext is known.
  annotated : Built → ℕ → JsMap LedgerRow → Result (JsMap LedgerRow)
  annotated built hlc ledger = elim built.object_id [
    | none ↦ ok ledger
    | some object_id ↦ elim built.relation [
      | none ↦ ok ledger
      | some relation ↦ (do
        parts ← unpack_hlc hlc
        ok (
            JsMap.set ledger (p.to_hex (hash p built.tuple)) (record {
              object_id = some object_id;
              relation = some relation;
              is_wildcard = some (elim built.is_wildcard [ none ↦ false | some w ↦ w ]);
              first_seen = parts.physical_ms;
            })))
    ]
  ]

  -- The sends, one transport after the other; what throws ends them.
  send_each : List (List Bytes → Result (List Bool)) → Bytes → Boxes → Result (Unit {0}) × Boxes
  send_each [] payload boxes = (ok tt, boxes)
  send_each (transport ∷ transports) payload boxes = elim (transport (payload ∷ [])) [
    | err e ↦ (err e, boxes)
    | ok accepted ↦
        send_each transports payload (record_publish p boxes (payload ∷ []) accepted true).1
  ]

  -- The payload is in the outbox before anything is sent.
  pub queue : List (List Bytes → Result (List Bool)) → Bytes → Node → Result Bytes × Node
  unfolding send_each
  queue transports payload n =
      let queued = record n.boxes {
        outbox = some (save_outbox p (load_outbox p n.boxes.outbox ++ payload ∷ []));
      } in
      let (sent, boxes) = send_each transports payload queued in
      (do sent; ok payload, record n { boxes = boxes })

  recorded_plaintext :
      List (List Bytes → Result (List Bool))
      → Bytes
      → Node
      → Result (JsMap LedgerRow)
      → Result Bytes × Node
  unfolding queue
  recorded_plaintext transports payload n (err e) = (err e, n)
  recorded_plaintext transports payload n (ok ledger) =
      queue transports payload (record n { ledger = ledger })

  applied_or_thrown : Node → Result (Bool × StateVector) → Result Node
  applied_or_thrown n (err e) = err e
  applied_or_thrown n (ok (false, s)) = err error
  applied_or_thrown n (ok (true, s)) = ok (record n { state = s })

  -- Applied to the node's own state, unless the arguments say not to.
  unfoldable pub apply_own : IssueArgs → Operation → ℕ → Node → Result Node
  unfolding applied_or_thrown
  apply_own args o clock_ms n =
      if args.no_apply
      then ok n
      else applied_or_thrown n (apply p n.state o default_options clock_ms)

  kept_or_applied :
      Built
      → ℕ
      → List (List Bytes → Result (List Bool))
      → Bytes
      → Node
      → Result Node
      → Result Bytes × Node
  unfolding recorded_plaintext annotated
  kept_or_applied built hlc transports payload n (err e) = (err e, n)
  kept_or_applied built hlc transports payload n (ok n') =
      recorded_plaintext transports payload n' (annotated built hlc n'.ledger)

  made :
      IssueArgs
      → Built
      → ℕ
      → ℕ
      → List (List Bytes → Result (List Bool))
      → Node
      → Result (Operation × Bytes)
      → Result Bytes × Node
  unfolding apply_own kept_or_applied
  made args built hlc clock_ms transports n (err e) = (err e, n)
  made args built hlc clock_ms transports n (ok (o, payload)) =
      kept_or_applied built hlc transports payload n (apply_own args o clock_ms n)

  timed :
      IssueArgs
      → Action
      → p.Identity
      → Built
      → ℕ
      → List (List Bytes → Result (List Bool))
      → Node
      → Result ℕ × Clock
      → Result Bytes × Node
  unfolding made signed_operation
  timed args action identity built clock_ms transports n (err e, clock) = (err e, n)
  timed args action identity built clock_ms transports n (ok hlc, clock) =
      made args built hlc clock_ms transports (record n { clock = clock })
        (do
          o ← signed_operation built.tuple action hlc identity
          payload ← to_payload p o
          ok (o, payload))

  built_or_thrown :
      IssueArgs
      → Action
      → p.Identity
      → ℕ
      → ℕ
      → List (List Bytes → Result (List Bool))
      → Node
      → Result Built
      → Result Bytes × Node
  unfolding timed
  built_or_thrown args action identity now_ms apply_ms transports n (err e) = (err e, n)
  built_or_thrown args action identity now_ms apply_ms transports n (ok built) =
      timed args action identity built apply_ms transports n (now n.clock now_ms)

  -- The configuration is read before the identity is asked for.
  identified :
      IssueArgs
      → Action
      → ℕ
      → ℕ
      → List (List Bytes → Result (List Bool))
      → Node
      → Option p.Identity
      → Result Bytes × Node
  unfolding built_or_thrown build_tuple
  identified args action now_ms apply_ms transports n none =
      (config_validated p n.config >>= λ config. err error, n)
  identified args action now_ms apply_ms transports n (some identity) =
      built_or_thrown args action identity now_ms apply_ms transports n (do
        config ← config_validated p n.config
        build_tuple args config n.aliases (p.identity_hash identity))

  -- `_issue`, with the wall clock when the clock ticks and when the operation is applied, and the
  -- transports that the arguments ask for: the payload, and the node as the call leaves it.
  unfoldable pub issue :
      IssueArgs
      → Action
      → ℕ
      → ℕ
      → List (List Bytes → Result (List Bool))
      → Node
      → Result Bytes × Node
  unfolding identified
  issue args action now_ms apply_ms transports n =
      identified args action now_ms apply_ms transports n n.identity
