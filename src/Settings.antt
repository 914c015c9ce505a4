-- ===== src/Settings.antt =====
-- The configuration of a store: cli/store.js (`StoreConfig`, `DacarStore.init`,
-- `loadConfigValidated`, `rotateIdentity`) and the commands of cli/dacar.js that change it. The text
-- format of its record is not modelled; new identities and random bytes are arguments.
pub mod Rotated
use dacar.Common.{
  ℕ, Bool, true, false, not, ◌||◌, ◌==◌, if◌then◌else◌, List, [], ◌∷◌, ◌++◌, take, Option, none,
  some, Bytes, Text, length, Result, ok, err, error, require, ◌>>=◌, ◌>>◌,
}
use dacar.Platform.{Platform}
use dacar.Namespace.{salt_size, max_legacy_salts, bytes_equal}
use dacar.Naming.{rfed_topic}
use dacar.Config.{Config, new_config, default_deletion_horizon_days, or_default}
use dacar.Alias.{AliasEntry, self_alias, add, set_self}
use dacar.Inputs.{hex_to_bytes, or_else, resolve_identity_hash}

pub record StoreConfig : Type 0 where
  pub primary_salt : Bytes
  pub legacy_salts : List Bytes
  pub anchors : List Bytes
  pub authoritative : Option Bytes
  pub horizon_days : ℕ
  pub topic : Text
  pub rfed_node : Option Bytes
  pub lxmf_proprietor : Option Bytes

-- The configuration and the aliases that `init` writes.
unfoldable pub init_config : Option Bytes → Bytes → Bytes → Option ℕ → StoreConfig × List AliasEntry
init_config salt random identity_hash horizon_days = (
  record {
    primary_salt = or_default salt random;
    legacy_salts = [];
    anchors = identity_hash ∷ [];
    authoritative = none;
    horizon_days = or_default horizon_days default_deletion_horizon_days;
    topic = rfed_topic;
    rfed_node = none;
    lxmf_proprietor = none;
  },
  add [] self_alias identity_hash none,
)

-- `loadConfigValidated`
unfoldable pub config_validated : Platform → StoreConfig → Result Config
config_validated p raw = new_config p (record {
  root_trust_anchors = raw.anchors;
  primary_salt = some raw.primary_salt;
  legacy_salts = raw.legacy_salts;
  threshold_groups = [];
  authoritative_identity = raw.authoritative;
  deletion_horizon_days = some raw.horizon_days;
})

-- `anchors.some((a) => bytesEqual(a, hash))`
unfoldable pub any_equal : List Bytes → Bytes → Bool
any_equal [] hash = false
any_equal (a ∷ as') hash = bytes_equal a hash || any_equal as' hash

-- The anchors without the old hash, if there is an old identity.
unfoldable pub without_old : List Bytes → Option Bytes → List Bytes
without_old as' none = as'
without_old [] (some old) = []
without_old (a ∷ as') (some old) =
    let rest = without_old as' (some old) in if bytes_equal a old then rest else a ∷ rest

unfoldable pub with_new : List Bytes → Bytes → List Bytes
unfolding any_equal
with_new as' new = if any_equal as' new then as' else as' ++ new ∷ []

-- `rotateIdentity`, from the hash of the identity before, if there was one.
unfoldable pub rotate_identity :
    Option Bytes → Bytes → StoreConfig → List AliasEntry → StoreConfig × List AliasEntry
unfolding without_old with_new
rotate_identity old new raw aliases =
    (record raw { anchors = with_new (without_old raw.anchors old) new }, set_self aliases new)

-- `cmdSaltNew`: the primary salt becomes the first legacy salt.
unfoldable pub salt_new : StoreConfig → Bytes → StoreConfig
salt_new raw new_primary = record raw {
  primary_salt = new_primary;
  legacy_salts = take max_legacy_salts (raw.primary_salt ∷ take 1 raw.legacy_salts);
}

-- The salt that `cmdSaltSet` is given: digits before a file.
given_salt : Option Text → Option (Result Bytes) → Result Bytes
unfolding hex_to_bytes
given_salt (some hex) file = or_else (hex_to_bytes hex) (err error)
given_salt none (some read) = do salt ← read; require (length salt == salt_size) error; ok salt
given_salt none none = err error

unfoldable pub salt_set : StoreConfig → Option Text → Option (Result Bytes) → Result StoreConfig
unfolding given_salt
salt_set raw hex file = do
  salt ← given_salt hex file
  require (length salt == salt_size) error
  ok (record raw { primary_salt = salt })

-- `cmdAnchorAdd`
unfoldable pub anchor_add : StoreConfig → List AliasEntry → Text → Result StoreConfig
unfolding any_equal
anchor_add raw aliases hash = do
  anchor ← resolve_identity_hash hash aliases
  require (not (any_equal raw.anchors anchor)) error
  ok (record raw { anchors = raw.anchors ++ anchor ∷ [] })
