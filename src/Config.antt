-- ===== src/Config.antt =====
-- config.js: the trust anchors, salts and groups that a node is set up with.
pub mod Anchors
pub mod Accepted
use dacar.Common.{
  ℕ, ◌*◌, Bool, false, not, ◌||◌, ltb, leb, ◌==◌, if◌then◌else◌, List, [], ◌∷◌, Option, none, some,
  Bytes, Text, length, list_eq, Result, ok, error, type_error, require, ◌>>=◌, ◌>>◌,
}
use dacar.Platform.{Platform}
use dacar.Value.{map_result}
use dacar.Namespace.{
  hash_size, salt_size, default_salt, max_legacy_salts, NamespaceHasher, new_hasher, bytes_equal,
}
use dacar.Threshold.{ThresholdGroup, id_of}

abbrev pub ms_per_day : ℕ
ms_per_day = 24 * 60 * 60 * 1000

abbrev pub default_deletion_horizon_days : ℕ
default_deletion_horizon_days = 180

pub record ConfigInit : Type 0 where
  pub root_trust_anchors : List Bytes
  pub primary_salt : Option Bytes
  pub legacy_salts : List Bytes
  pub threshold_groups : List ThresholdGroup
  pub authoritative_identity : Option Bytes
  pub deletion_horizon_days : Option ℕ

-- `root_trust_anchors` is a set of hexadecimal texts.
pub record Config : Type 0 where
  pub root_trust_anchors : List Text
  pub primary_salt : Bytes
  pub legacy_salts : List Bytes
  pub threshold_groups : List ThresholdGroup
  pub authoritative_identity : Option Bytes
  pub deletion_horizon_days : ℕ

unfoldable pub set_has : List Text → Text → Bool
set_has [] t = false
set_has (s ∷ ss) t = list_eq s t || set_has ss t

set_add : List Text → Text → List Text
set_add ss t = if set_has ss t then ss else t ∷ ss

abbrev pub or_default {ℓ} : {A : Type ℓ} → Option A → A → A
or_default none d = d
or_default (some a) d = a

check_salt : Bytes → Result Bytes
check_salt s = do require (length s == salt_size) type_error; ok s

check_identity : Option Bytes → Result (Option Bytes)
check_identity none = ok none
check_identity (some i) = do require (length i == hash_size) type_error; ok (some i)

-- `_isDefaultSalt`: whether the warning about the null salt is due.
unfoldable pub is_default_salt : Bytes → Bool
is_default_salt salt = bytes_equal salt default_salt

module _ (p : Platform) where
  -- The loop over the anchors, from those added so far.
  unfoldable pub add_anchors : List Text → List Bytes → Result (List Text)
  unfolding set_has set_add
  add_anchors anchors [] = ok anchors
  add_anchors anchors (a ∷ as') = do
    require (length a == hash_size) type_error
    add_anchors (set_add anchors (p.to_hex a)) as'

  unfoldable pub new_config : ConfigInit → Result Config
  unfolding check_salt check_identity
  new_config init = do
    anchors ← add_anchors [] init.root_trust_anchors
    require (not (length anchors == 0)) error
    primary ← check_salt (or_default init.primary_salt default_salt)
    require (not (ltb max_legacy_salts (length init.legacy_salts))) error
    legacy ← map_result check_salt init.legacy_salts
    identity ← check_identity init.authoritative_identity
    require (leb 1 (or_default init.deletion_horizon_days default_deletion_horizon_days)) error
    ok (record {
      root_trust_anchors = anchors;
      primary_salt = primary;
      legacy_salts = legacy;
      threshold_groups = init.threshold_groups;
      authoritative_identity = identity;
      deletion_horizon_days = or_default init.deletion_horizon_days default_deletion_horizon_days;
    })

  unfoldable pub is_root_anchor : Config → Bytes → Bool
  is_root_anchor c identity_hash = set_has c.root_trust_anchors (p.to_hex identity_hash)

  -- The first group with this identifier.
  unfoldable pub group_for : List ThresholdGroup → Bytes → Result (Option ThresholdGroup)
  group_for [] target = ok none
  group_for (g ∷ gs) target =
      let rest = group_for gs target in
      (id_of p g).0 >>= λ id. if list_eq (p.to_hex id) (p.to_hex target) then ok (some g) else rest

-- The primary hasher, then the legacy ones in order.
unfoldable pub hashers : Config → Result (List NamespaceHasher)
hashers c = map_result new_hasher (c.primary_salt ∷ c.legacy_salts)

unfoldable pub primary_hasher : Config → Result NamespaceHasher
primary_hasher c = new_hasher c.primary_salt

abbrev pub deletion_horizon_ms : Config → ℕ
deletion_horizon_ms c = c.deletion_horizon_days * ms_per_day
