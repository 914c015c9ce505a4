-- ===== src/Queries.antt =====
-- cli/dacar.js: the commands that read the store (`check`, `grants`, `show`), that apply received
-- payloads, and that change the cache of known issuers, the aliases or the ledger. What is printed is
-- left out, except which entries it is about.
pub mod Issuers
pub mod Listed
pub mod Matching
use dacar.Common.{
  ℕ, zero, suc, ◌+◌, ltb, Bool, true, false, not, ◌&&◌, ◌||◌, ◌==◌, if◌then◌else◌, list_eq, List,
  [], ◌∷◌, ◌++◌, map, Option, none, some, Bytes, Text, length, Result, ok, err, error, require,
  ◌>>=◌, ◌>>◌,
}
use dacar.JsMap.{JsMap}
use dacar.JsMap
use dacar.Platform.{Platform}
use dacar.Namespace.{NamespaceHasher, hash_relation, hash_object, covers, bytes_equal}
use dacar.Tuple.{Tuple, hash}
use dacar.Crdt.{StateVector, Entry, Options, active_tuples, is_active_entry}
use dacar.Config.{Config, hashers}
use dacar.Engine.{Engine, evaluate, denied}
use dacar.Verifier.{Keyring, Resolver, register_single, forget}
use dacar.Delta.{apply_payload, apply_payloads}
use dacar.Alias.{AliasEntry, add, remove, resolve}
use dacar.Challenge.Exchange.{new_engine}
use dacar.Inputs.{resolve_identity_hash, as_rns_pub_key, hex_to_bytes, or_else, value_or, split_at}
use dacar.Issue.{LedgerRow}

pub data Kind : Type 0 where
  deny allow : Kind

pub record Match : Type 0 where
  pub kind : Kind
  pub tuple : Tuple
  pub hasher : NamespaceHasher

module _ (p : Platform) where
  unfoldable pub match_kind : NamespaceHasher → Text → Text → Bytes → Tuple → Option Kind
  match_kind h relation object_id grantee t =
      if not (bytes_equal t.grantee grantee)
      then none
      else if bytes_equal t.relation_hash (hash_relation p h (denied relation))
          && covers t.object_hashes t.is_wildcard (hash_object p h object_id).hashes
      then some deny
      else if bytes_equal t.relation_hash (hash_relation p h relation)
          && covers t.object_hashes t.is_wildcard (hash_object p h object_id).hashes
      then some allow
      else none

  -- The inner loop, over the active tuples.
  unfoldable pub matches_with : NamespaceHasher → Text → Text → Bytes → List Tuple → List Match
  unfolding match_kind
  matches_with h relation object_id grantee [] = []
  matches_with h relation object_id grantee (t ∷ ts) =
      let rest = matches_with h relation object_id grantee ts in
      elim (match_kind h relation object_id grantee t) [
        | none ↦ rest
        | some kind ↦ record { kind = kind; tuple = t; hasher = h } ∷ rest
      ]

  unfoldable pub matches_under :
      List NamespaceHasher → StateVector → Text → Text → Bytes → List Match
  unfolding matches_with
  matches_under [] state relation object_id grantee = []
  matches_under (h ∷ hs) state relation object_id grantee =
      matches_with h relation object_id grantee (active_tuples state)
      ++ matches_under hs state relation object_id grantee

  unfoldable pub find_matching_tuples :
      Config → StateVector → Text → Text → Bytes → Result (List Match)
  unfolding matches_under
  find_matching_tuples config state relation object_id grantee = do
    hs ← hashers config
    ok (matches_under hs state relation object_id grantee)

  -- `cmdCheck`: the answer, which is the exit code, and the tuples that are listed.
  unfoldable pub check :
      Config → StateVector → List AliasEntry → Text → Text → Text → Result (Bool × List Match)
  unfolding find_matching_tuples
  check config state aliases object_id relation grantee_value = do
    grantee ← resolve_identity_hash grantee_value aliases
    allowed ← evaluate p (new_engine config state) object_id relation grantee
    matches ← find_matching_tuples config state relation object_id grantee
    ok (allowed, matches)

  applied_batch : StateVector → Result ℕ × StateVector → Result ℕ × StateVector
  applied_batch s (err e, s') = (err e, s)
  applied_batch s (ok zero, s') = (ok 0, s)
  applied_batch s (ok (suc n), s') = (ok (suc n), s')

  applied_single :
      Resolver p
      → Options
      → Bytes
      → (ℕ → ℕ)
      → StateVector
      → Result (Bool × StateVector)
      → Result ℕ × StateVector
  unfolding applied_batch
  applied_single resolver options data' clock s (err e) = (err e, s)
  applied_single resolver options data' clock s (ok (true, s')) = (ok 1, s')
  applied_single resolver options data' clock s (ok (false, s')) =
      applied_batch s (apply_payloads p resolver options s' data' clock)

  -- `cmdApply`: the number of deltas that were applied, and the state that is saved then. The state
  -- is not saved where nothing was applied or the call throws.
  unfoldable pub cmd_apply :
      Resolver p → Options → Bytes → ℕ → (ℕ → ℕ) → StateVector → Result ℕ × StateVector
  unfolding applied_single
  cmd_apply resolver options data' clock_ms clock s =
      if length data' == 0
      then (err error, s)
      else applied_single resolver options data' clock s
          (apply_payload p resolver options s data' clock_ms)

  abbrev asked : Option (Result Bytes) → Bytes → Result Bool
  asked none h = ok true
  asked (some wanted) h = do w ← wanted; ok (bytes_equal h w)

  -- Whether an entry is listed, by the flags `revoked` and `all` and by the grantee and the issuer
  -- that are asked for, as their arguments resolve.
  unfoldable pub listed :
      Bool → Bool → Option (Result Bytes) → Option (Result Bytes) → Entry → Result Bool
  listed revoked all grantee issuer e =
      if revoked && is_active_entry e
      then ok false
      else if not all && not revoked && not (is_active_entry e)
      then ok false
      else (do
        right_grantee ← asked grantee e.tuple.grantee
        if right_grantee then asked issuer e.tuple.issuer else ok false)

  -- `cmdGrants`: the entries that are listed.
  unfoldable pub grants :
      Bool
      → Bool
      → Option (Result Bytes)
      → Option (Result Bytes)
      → JsMap Entry
      → Result (List Entry)
  unfolding listed
  grants revoked all grantee issuer [] = ok []
  grants revoked all grantee issuer ((k, e) ∷ m) = do
    here ← listed revoked all grantee issuer e
    rest ← grants revoked all grantee issuer m
    ok (if here then e ∷ rest else rest)

  -- The number of active tuples of an issuer.
  unfoldable pub active_of_issuer : List Tuple → Bytes → ℕ
  active_of_issuer [] issuer_hash = 0
  active_of_issuer (t ∷ ts) issuer_hash =
      let rest = active_of_issuer ts issuer_hash in
      if list_eq (p.to_hex t.issuer) (p.to_hex issuer_hash) then suc rest else rest

  -- `cmdIdentityForget`
  unfoldable pub identity_forget : Bool → Bytes → StateVector → Keyring → Result Keyring
  unfolding active_of_issuer
  identity_forget force issuer_hash state ring = do
    require (force || not (ltb 0 (active_of_issuer (active_tuples state) issuer_hash))) error
    answer ← forget p ring issuer_hash
    require answer.0 error
    ok answer.1

  -- `cmdIdentityRemember`, with the key from the arguments, a file or the network.
  unfoldable pub identity_remember : Result Bytes → Bytes → Keyring → Result Keyring
  identity_remember pub_key issuer_hash ring = do
    given ← pub_key
    padded ← as_rns_pub_key given
    register_single p ring issuer_hash padded

  -- `cmdLedgerAnnotate`
  annotate_row : Option LedgerRow → Option Text → Option Text → LedgerRow
  annotate_row found object_id relation =
      let row : LedgerRow = elim found [
        | some r ↦ r
        | none ↦ record { object_id = none; relation = none; is_wildcard = none; first_seen = 0 }
      ] in
      record row {
        object_id = elim object_id [ none ↦ row.object_id | some o ↦ some o ];
        relation = elim relation [ none ↦ row.relation | some r ↦ some r ];
      }

  unfoldable pub ledger_annotate :
      JsMap LedgerRow → Text → Option Text → Option Text → Result (JsMap LedgerRow)
  unfolding annotate_row
  ledger_annotate ledger tuple_hash object_id relation = do
    raw ← or_else (hex_to_bytes tuple_hash) (err error)
    require (length raw == 32) error
    let key = p.to_hex raw
    ok (JsMap.set ledger key (annotate_row (JsMap.get ledger key) object_id relation))

-- `cmdAliasAdd`: a name is not taken from another hash.
unfoldable pub alias_add : List AliasEntry → Text → Text → Option Text → Result (List AliasEntry)
alias_add aliases name hash note = do
  h ← resolve_identity_hash hash aliases
  require (elim (resolve aliases name) [ none ↦ true | some existing ↦ bytes_equal existing h ])
      error
  ok (add aliases name h note)

-- `cmdAliasRemove`
unfoldable pub alias_remove : List AliasEntry → Text → Result (List AliasEntry)
alias_remove aliases name = do let answer = remove aliases name; require answer.0 error; ok answer.1

-- `cmdAliasResolve`
unfoldable pub alias_resolve : List AliasEntry → Text → Result Bytes
alias_resolve aliases name = elim (resolve aliases name) [ none ↦ err error | some h ↦ ok h ]
