-- ===== src/Issue/Example.antt =====
-- A run of `grant`: the anchor grants bob a relation on a door and sends the delta to nobody.
use dacar.Common.{
  ℕ, ◌*◌, ◌≡◌, refl, true, false, List, [], ◌∷◌, Bytes, codes, none, some, ok, list_eq,
}
use dacar.Platform.Sample.{sample, to_hex, fit}
use dacar.Value.{map_result}
use dacar.Namespace.{default_salt, hash_relation, hash_object, parse_object, truncate16, new_hasher}
use dacar.Tuple.{Tuple, new_tuple, from_plaintext}
use dacar.Operation.{Operation, Action, grant, new_operation, sign, preimage}
use dacar.Operation.Wire.{to_payload, to_value}
use dacar.Config.{new_config, add_anchors, primary_hasher}
use dacar.Alias.{AliasEntry, resolve}
use dacar.Hlc.{now, unpack_hlc}
use dacar.Settings.{StoreConfig, config_validated}
use dacar.Inputs.{resolve_identity_hash}
use dacar.Issue.{
  IssueArgs, Node, issue, identified, built_or_thrown, timed, made, kept_or_applied, apply_own,
  recorded_plaintext, queue, send_each, annotated, build_tuple, build_plain, hasher_for,
  ends_with_star, signed_operation,
}
use dacar.Tests.Fixture.{anchor, bob, day, empty_state, signed}

abbrev pub aliases : List AliasEntry
aliases = record { hash = bob; names = codes "bob" ∷ []; note = none } ∷ []

abbrev pub raw : StoreConfig
raw = record {
  primary_salt = default_salt;
  legacy_salts = [];
  anchors = anchor ∷ [];
  authoritative = none;
  horizon_days = 180;
  topic = [];
  rfed_node = none;
  lxmf_proprietor = none;
}

abbrev pub node : Node sample
node = record {
  config = raw;
  identity = some 1;
  aliases = aliases;
  clock = record { last_ms = 0; logical = 0 };
  state = empty_state;
  ledger = [];
  boxes = record { outbox = none; sent = none };
}

abbrev pub args : IssueArgs
args = record {
  grantee = codes "bob";
  relation = some (codes "open");
  object_id = some (codes "door");
  copy_hashes = none;
  legacy = none;
  no_apply = true;
}

abbrev pub open_door : Tuple
open_door = record {
  relation_hash = fit 16 (codes "open");
  object_hashes = fit 16 (codes "door") ∷ [];
  is_wildcard = false;
  grantee = bob;
  issuer = anchor;
}

abbrev pub noon : ℕ
noon = 310 * 86400000

abbrev pub issued : Bytes
issued = sample.encode (to_value (signed open_door grant (day 310)))

built :
    build_tuple sample args
      (record {
        root_trust_anchors = to_hex anchor ∷ [];
        primary_salt = default_salt;
        legacy_salts = [];
        threshold_groups = [];
        authoritative_identity = none;
        deletion_horizon_days = 180;
      })
      aliases
      anchor
    ≡ ok (record {
      tuple = open_door;
      object_id = some (codes "door");
      relation = some (codes "open");
      is_wildcard = some false;
    })
unfolding build_tuple build_plain hasher_for ends_with_star resolve_identity_hash primary_hasher
    resolve from_plaintext new_tuple hash_relation hash_object parse_object truncate16 new_hasher
    dacar.Alias.includes list_eq
built = refl

validated :
    config_validated sample raw
    ≡ ok (record {
      root_trust_anchors = to_hex anchor ∷ [];
      primary_salt = default_salt;
      legacy_salts = [];
      threshold_groups = [];
      authoritative_identity = none;
      deletion_horizon_days = 180;
    })
unfolding config_validated new_config add_anchors map_result
validated = refl

pub grants_door : (issue sample args grant noon noon [] node).0 ≡ ok issued
unfolding issue identified built_or_thrown timed made kept_or_applied apply_own recorded_plaintext
    queue send_each annotated signed_operation new_operation sign now to_payload unpack_hlc
    dacar.Hlc.pack_hlc preimage dacar.Operation.big_endian dacar.Tuple.concat
grants_door = rw (validated, built) refl
