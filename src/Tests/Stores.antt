-- ===== src/Tests/Stores.antt =====
-- The records of cli/store.js and the commands of cli/dacar.js that change them.
use dacar.Common.{
  ℕ, Bool, ◌*◌, ◌≡◌, ◌⊎◌, ◌↔◌, refl, true, false, List, [], ◌∷◌, Bytes, none, some, Result, ok, err,
  Failure, In, arith,
}
use dacar.Platform.Sample.{sample, sample-IsHex, sample-IsPacking}
use dacar.Namespace.{default_salt}
use dacar.Crdt.Restore.{from_payload}
use dacar.Crdt.Snapshot.{to_payload}
use dacar.Crdt.Restore.Restored.{from_payload-to_payload_state, raw_state}
use dacar.Config.{Config, new_config}
use dacar.Config.Accepted.{IsInit, Decided, new_config_iff, new_config_decides}
use dacar.Alias.{resolve, self_alias}
use dacar.Records.{save_outbox}
use dacar.Publishing.{Boxes, Source, accepted_bytes, publish, record_publish}
use dacar.Publishing.Moved.{Moved, record_publish_moves}
use dacar.Publishing.Sending.{Kept, publish_keeps}
use dacar.Expiry.{cmd_prune}
use dacar.Expiry.Dropped.{Tidied, cmd_prune_harmless}
use dacar.Settings.{StoreConfig, config_validated, rotate_identity}
use dacar.Settings.Rotated.{IsOld, settings, rotate_identity_moves}
use dacar.Tests.Fixture.{anchor, bob, alice}
use dacar.Tests.Operations.{payload}
use dacar.Tests.States.{old_state, old-IsState, old_payload}

-- A payload of day 300 waits, and one of day 100 has been sent.
abbrev boxes : Boxes
boxes = record {
  outbox = some (save_outbox sample (payload ∷ []));
  sent = some (save_outbox sample (old_payload ∷ []));
}

abbrev everything : Source
everything = record { outbox = false; sent = false; all = true; files = [] }

abbrev accepting : List Bytes → Result (List Bool)
accepting bs = ok (true ∷ [])

publish_keeps_example :
    Kept sample sample-IsHex sample-IsPacking everything accepting boxes
      (publish sample (some 1) everything accepting boxes)
publish_keeps_example =
    publish_keeps sample sample-IsHex sample-IsPacking (some 1) everything accepting boxes

record_publish_moves_example :
    ((record_publish sample boxes (payload ∷ old_payload ∷ []) (true ∷ []) true).0 ≡ 1)
    × Moved sample sample-IsHex sample-IsPacking
        (payload ∷ [])
        true
        boxes
        (record_publish sample boxes (payload ∷ old_payload ∷ []) (true ∷ []) true).1
unfolding accepted_bytes
record_publish_moves_example =
    record_publish_moves sample sample-IsHex sample-IsPacking boxes (payload ∷ old_payload ∷ [])
      (true ∷ []) true

abbrev noon : ℕ
noon = 310 * 86400000

cmd_prune_harmless_example :
    Tidied sample sample-IsPacking old_state boxes
      (cmd_prune sample old_state boxes noon noon noon).1.1
      noon
      noon
    × ((e : Failure)
        → (cmd_prune sample old_state boxes noon noon noon).0 ≡ err e
        → (cmd_prune sample old_state boxes noon noon noon).1 ≡ (old_state, boxes))
cmd_prune_harmless_example =
    cmd_prune_harmless sample sample-IsPacking old_state boxes noon noon noon

from_payload-to_payload_state_example :
    from_payload sample (to_payload sample old_state) 180 ≡ ok (raw_state old_state)
from_payload-to_payload_state_example =
    from_payload-to_payload_state sample old_state sample-IsPacking old-IsState (omega arith)

abbrev raw : StoreConfig
raw = record {
  primary_salt = default_salt;
  legacy_salts = [];
  anchors = anchor ∷ bob ∷ [];
  authoritative = none;
  horizon_days = 180;
  topic = [];
  rfed_node = none;
  lxmf_proprietor = none;
}

raw-IsInit : IsInit (settings sample raw)
raw-IsInit = record {
  some_anchor = λ e. cc;
  anchors = (refl, (refl, tt));
  primary = refl;
  few = omega arith;
  legacy = tt;
  identity = tt;
  days = omega arith;
}

new_config_decides_example :
    Decided sample (settings sample raw) (new_config sample (settings sample raw))
new_config_decides_example = new_config_decides sample (settings sample raw)

accepted : (c : Config) × (config_validated sample raw ≡ ok c)
unfolding config_validated
accepted = (new_config_iff sample (settings sample raw)).1 raw-IsInit

rotate_identity_moves_example :
    ((x : Bytes)
      → In x (rotate_identity (some anchor) alice raw []).0.anchors
        ↔ ((x ≡ alice) ⊎ (In x raw.anchors × (IsOld (some anchor) x → ⊥))))
    × (resolve (rotate_identity (some anchor) alice raw []).1 self_alias ≡ some alice)
    × (c' : Config) × (config_validated sample (rotate_identity (some anchor) alice raw []).0
        ≡ ok c')
rotate_identity_moves_example =
    rotate_identity_moves sample (some anchor) alice raw [] accepted.0 accepted.1 refl
