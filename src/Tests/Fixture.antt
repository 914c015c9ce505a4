-- ===== src/Tests/Fixture.antt =====
-- Identities, tuples, operations, states and an engine on the concrete platform.
use dacar.Common.{ℕ, ◌*◌, true, List, [], ◌∷◌, Bytes, replicate, none, some, arith, refl}
use dacar.Platform.Sample.{sample, sign}
use dacar.Namespace.{default_salt}
use dacar.Tuple.{Tuple, key}
use dacar.Tuple.Preimage.{IsTuple}
use dacar.Keyset.{IssuerKeyset}
use dacar.Operation.{Operation, Action, grant, revoke, preimage}
use dacar.Crdt.{StateVector, Entry, Options}
use dacar.Config.{Config}
use dacar.Engine.{Engine, Hypothesis}

-- A 16-byte hash that starts with a number.
abbrev pub hash_of : ℕ → Bytes
hash_of n = n ∷ replicate 15 0

abbrev pub anchor : Bytes
anchor = hash_of 1

abbrev pub bob : Bytes
bob = hash_of 2

abbrev pub alice : Bytes
alice = hash_of 3

-- The anchor grants bob a relation over everything below one segment.
abbrev pub light : Tuple
light = record {
  relation_hash = hash_of 20;
  object_hashes = hash_of 10 ∷ [];
  is_wildcard = true;
  grantee = bob;
  issuer = anchor;
}

-- The same grant, issued by alice.
abbrev pub delegated_light : Tuple
delegated_light = record light { issuer = alice }

-- The anchor makes alice an administrator of everything.
abbrev pub administration : Tuple
administration = record {
  relation_hash = hash_of 22;
  object_hashes = [];
  is_wildcard = true;
  grantee = alice;
  issuer = anchor;
}

-- The anchor denies bob the relation.
abbrev pub ban : Tuple
ban = record light { relation_hash = hash_of 21 }

pub light-IsTuple : IsTuple light
light-IsTuple = record {
  relation = refl;
  grantee = refl;
  issuer = refl;
  count = omega arith;
  objects = (refl, tt);
}

pub ban-IsTuple : IsTuple ban
ban-IsTuple = record {
  relation = refl;
  grantee = refl;
  issuer = refl;
  count = omega arith;
  objects = (refl, tt);
}

-- Day `n` after the epoch, as a clock.
abbrev pub day : ℕ → ℕ
day n = n * 86400000 * 65536

abbrev unsigned : Tuple → Action → ℕ → Operation
unsigned t a hlc = record { tuple = t; action = a; hlc = hlc; signatures = [] }

-- An operation that the identity 1 has signed.
abbrev pub signed : Tuple → Action → ℕ → Operation
signed t a hlc = record {
  tuple = t;
  action = a;
  hlc = hlc;
  signatures = sign 1 (preimage (unsigned t a hlc)) ∷ [];
}

abbrev pub grant_light : Operation
grant_light = signed light grant (day 300)

abbrev pub revoke_light : Operation
revoke_light = signed light revoke (day 301)

abbrev pub entry : Tuple → Entry
entry t = record { tuple = t; add_ts = some (day 300); remove_ts = none }

abbrev pub empty_state : StateVector
empty_state = record { entries = []; deletion_horizon_days = 180 }

abbrev pub state_of : List Tuple → StateVector
state_of [] = empty_state
state_of (t ∷ ts) = record (state_of ts) {
  entries = (key sample t, entry t) ∷ (state_of ts).entries;
}

-- A node whose clock stands at day 310 and takes no operation a day ahead.
abbrev pub at_day : ℕ → Options
at_day n = record { now_ms = some (n * 86400000); max_future_ms = some 86400000 }

abbrev pub config : Config
config = record {
  root_trust_anchors = sample.to_hex anchor ∷ [];
  primary_salt = default_salt;
  legacy_salts = [];
  threshold_groups = [];
  authoritative_identity = some (hash_of 9);
  deletion_horizon_days = 180;
}

abbrev pub engine_on : List Tuple → Engine
engine_on ts = record { config = config; state = state_of ts; max_depth = 10; max_visited = 50 }

abbrev pub request : Hypothesis
request = record {
  hasher = record { salt = default_salt };
  object_hashes = hash_of 10 ∷ hash_of 11 ∷ [];
  allow_relation_hash = hash_of 20;
  deny_relation_hash = hash_of 21;
  admin_allow_hash = hash_of 22;
  admin_deny_hash = hash_of 23;
}

-- The public key of the identity 1.
abbrev pub keyset : IssuerKeyset
keyset = record { member_public_keys = sample.public_key 1 ∷ []; threshold = 1 }
