-- ===== src/Tests/Exchanges.antt =====
-- The exchange of challenge.js.
use dacar.Common.{
  ◌≡◌, refl, Bytes, codes, true, [], ◌∷◌, arith, ok, some, Option, Result, ◌>>=◌, replicate,
  list_eq,
}
use dacar.Platform.Sample.{sample, sample-IsPacking, sample-IsSigning, fit, to_hex, from_public_key}
use dacar.Value.{map_result}
use dacar.Namespace.{
  default_salt, hash_relation, hash_object, bytes_equal, covers, new_hasher, parse_object,
  truncate16,
}
use dacar.Tuple.{Tuple}
use dacar.Operation.{raw, as_identity}
use dacar.Crdt.{active_tuples, is_active_entry}
use dacar.Config.{hashers, is_root_anchor, set_has}
use dacar.Engine
use dacar.Engine.{evaluate}
use dacar.Challenge
use dacar.Challenge.Freshness.{Receipt, allow, sign, to_payload}
use dacar.Challenge.Exchange.{Client, authorize, new_engine}
use dacar.Challenge.Verdict.{Confirmed, authorize_sound}
use dacar.Challenge.Wire.{authorize_complete}
use dacar.Tests.Fixture.{bob, light, state_of, config, day}

-- The anchor lets bob open the door.
abbrev pub open_door : Tuple
open_door = record light {
  relation_hash = fit 16 (codes "open");
  object_hashes = fit 16 (codes "door") ∷ [];
}

abbrev pub client : Client sample
client = record {
  config = config;
  state = state_of (open_door ∷ []);
  public_key = raw (sample.public_key 9);
}

abbrev nonce : Bytes
nonce = 7 ∷ replicate 31 0

-- What the authority is about to sign.
abbrev unsigned : Receipt
unsigned = record { verdict = allow; server_hlc = day 310; nonce = nonce; signature = [] }

abbrev transport : Bytes → Result (Option Bytes)
transport challenge = sign sample unsigned 9 >>= to_payload sample >>= λ payload. ok (some payload)

pub salted : hashers client.config ≡ ok (record { salt = default_salt } ∷ [])
unfolding hashers map_result new_hasher
salted = refl

keyed : as_identity sample client.public_key ≡ ok 9
unfolding as_identity from_public_key
keyed = refl

pub allowed_here :
    evaluate sample (new_engine client.config client.state) (codes "door") (codes "open") bob
    ≡ ok true
unfolding evaluate Engine.evaluate_hashes Engine.hypothesis hash_relation hash_object parse_object
    truncate16 hashers map_result new_hasher Engine.resolve_at Engine.resolve_with
    Engine.authority_with Engine.known Engine.remember Engine.consider Engine.consider_hypotheses
    Engine.consider_all Engine.candidates active_tuples is_active_entry Engine.begin Engine.memo_key
    Engine.object_key Engine.salted_objects Engine.joined is_root_anchor set_has bytes_equal covers
    to_hex list_eq Engine.admin_hypothesis
allowed_here = refl

confirmed : authorize sample client (codes "door") (codes "open") bob nonce transport ≡ ok true
confirmed =
    authorize_complete sample client 9 unsigned (codes "door") (codes "open") bob
      (record { salt = default_salt } ∷ []) transport sample-IsPacking sample-IsSigning keyed
      (omega arith) refl refl (λ challenge. refl) refl salted allowed_here

authorize_complete_example :
    authorize sample client (codes "door") (codes "open") bob nonce transport ≡ ok true
authorize_complete_example =
    authorize_complete sample client 9 unsigned (codes "door") (codes "open") bob
      (record { salt = default_salt } ∷ []) transport sample-IsPacking sample-IsSigning keyed
      (omega arith) refl refl (λ challenge. refl) refl salted allowed_here

authorize_sound_example :
    (evaluate sample (new_engine client.config client.state) (codes "door") (codes "open") bob
      ≡ ok true)
    × (challenge : Challenge.Challenge) × (challenge.nonce ≡ nonce)
    × (challenge.object_id ≡ codes "door")
    × (challenge.relation ≡ codes "open")
    × (challenge.grantee ≡ bob)
    × Confirmed sample client nonce (transport (Challenge.to_payload sample challenge))
authorize_sound_example =
    authorize_sound sample client (codes "door") (codes "open") bob nonce transport confirmed
