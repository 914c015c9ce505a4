-- ===== src/Publishing.antt =====
-- cli/dacar.js: `publish` and `push`, which send deltas of the outbox, of the sent box or of files,
-- and `recordPublish`, which moves what was accepted. The transport is an argument: which of the
-- deltas it accepted. Lines that are printed are left out.
pub mod Appending
pub mod Moved
pub mod Sending
use dacar.Common.{
  ℕ, Bool, true, false, not, ◌&&◌, ◌||◌, ◌==◌, if◌then◌else◌, List, [], ◌∷◌, ◌++◌, map, Option,
  none, some, Bytes, Text, length, Result, ok, err, error, require, ◌>>=◌, ◌>>◌,
}
use dacar.Platform.{Platform}
use dacar.Value.{map_result}
use dacar.Operation.{set_has, set_add}
use dacar.Records.{load_outbox, save_outbox, load_sent, save_sent}

-- The two records of the store, by the bytes that the storage adapter has for them.
pub record Boxes : Type 0 where
  pub outbox : Option Bytes
  pub sent : Option Bytes

-- The payloads whose flag is set; a payload without a flag is not accepted.
unfoldable pub accepted_bytes : List Bytes → List Bool → List Bytes
accepted_bytes [] accepted = []
accepted_bytes (b ∷ bs) [] = []
accepted_bytes (b ∷ bs) (true ∷ accepted) = b ∷ accepted_bytes bs accepted
accepted_bytes (b ∷ bs) (false ∷ accepted) = accepted_bytes bs accepted

-- The flags of the command line, and what reading each of the files comes to.
pub record Source : Type 0 where
  pub outbox : Bool
  pub sent : Bool
  pub all : Bool
  pub files : List (Result Bytes)

abbrev pub from_stores : Source → Bool
from_stores s = (s.outbox || s.all) || (s.sent || s.all)

abbrev pub no_files : Source → Bool
no_files s = length s.files == 0

-- The outbox is implied where nothing else is asked for.
abbrev pub use_outbox : Source → Bool
use_outbox s = (s.outbox || s.all) || (no_files s && not (from_stores s))

abbrev pub use_sent : Source → Bool
use_sent s = s.sent || s.all

-- One file: an empty payload is an error.
file_payload : Result Bytes → Result Bytes
file_payload file = do data' ← file; require (not (length data' == 0)) error; ok data'

module _ (p : Platform) where
  -- `outbox.filter((p) => !accSet.has(toHex(p)))`
  unfoldable pub outside : List Text → List Bytes → List Bytes
  outside hexes [] = []
  outside hexes (b ∷ bs) =
      let rest = outside hexes bs in if set_has hexes (p.to_hex b) then rest else b ∷ rest

  -- The outbox without what was accepted; the record is written only if something left it.
  drained : List Bytes → Option Bytes → Option Bytes
  unfolding outside
  drained accepted record' =
      let outbox = load_outbox p record' in
      let kept = outside (map p.to_hex accepted) outbox in
      if length outbox == 0
      then record'
      else if length kept == length outbox
      then record'
      else some (save_outbox p kept)

  -- The loop that appends to the sent box, with `existing` and `changed`.
  unfoldable pub append_new : List Text → List Bytes → Bool → List Bytes → List Bytes × Bool
  append_new existing sent changed [] = (sent, changed)
  append_new existing sent changed (b ∷ bs) = elim (set_has existing (p.to_hex b)) [
    | true ↦ append_new existing sent changed bs
    | false ↦ append_new (set_add existing (p.to_hex b)) (sent ++ b ∷ []) true bs
  ]

  appended : List Bytes → Option Bytes → Option Bytes
  unfolding append_new
  appended accepted record' =
      let sent = load_sent p record' in
      let (sent', changed) = append_new (map p.to_hex sent) sent false accepted in
      if changed then some (save_sent p sent') else record'

  -- The number of accepted deltas, and the records as the call leaves them.
  unfoldable pub record_publish : Boxes → List Bytes → List Bool → Bool → ℕ × Boxes
  unfolding accepted_bytes drained appended
  record_publish s payloads accepted record_to_sent =
      let bytes = accepted_bytes payloads accepted in
      if length bytes == 0 then (0, s) else (
        length bytes,
        record {
          outbox = drained bytes s.outbox;
          sent = if record_to_sent then appended bytes s.sent else s.sent;
        },
      )

  -- The payloads in the order in which they are first seen.
  unfoldable pub dedup : List Text → List Bytes → List Bytes
  dedup seen [] = []
  dedup seen (b ∷ bs) = elim (set_has seen (p.to_hex b)) [
    | true ↦ dedup seen bs
    | false ↦ b ∷ dedup (set_add seen (p.to_hex b)) bs
  ]

  -- `toPublish`, or `toPush`.
  unfoldable pub to_publish : Source → Boxes → Result (List Bytes)
  unfolding file_payload
  to_publish source s = do
    require (not (not (no_files source) && from_stores source)) error
    files ← map_result file_payload source.files
    ok (
        (if use_outbox source then load_outbox p s.outbox else [])
        ++ ((if use_sent source then load_sent p s.sent else []) ++ files))

  record_accepted : Source → Boxes → List Bytes → Result (List Bool) → Result ℕ × Boxes
  unfolding record_publish
  record_accepted source s deduped (err e) = (err e, s)
  record_accepted source s deduped (ok accepted) =
      let (n, s') = record_publish s deduped accepted (no_files source) in (ok n, s')

  -- Nothing is sent, and nothing recorded, where there is nothing to send.
  send_all :
      Source → (List Bytes → Result (List Bool)) → Boxes → Result (List Bytes) → Result ℕ × Boxes
  unfolding record_accepted dedup
  send_all source transport s (err e) = (err e, s)
  send_all source transport s (ok payloads) =
      if length payloads == 0
      then (ok 0, s)
      else record_accepted source s (dedup [] payloads) (transport (dedup [] payloads))

  -- `cmdPublish`, with `publishDelta` or `publishDeltaLxmf` for the transport: the number of deltas
  -- that were accepted, and the records.
  unfoldable pub publish :
      Option p.Identity → Source → (List Bytes → Result (List Bool)) → Boxes → Result ℕ × Boxes
  unfolding to_publish send_all
  publish none source transport s = (err error, s)
  publish (some identity) source transport s = send_all source transport s (to_publish source s)

  push_to :
      Source → (Bytes → List Bytes → Result (List Bool)) → Boxes → Result Bytes → Result ℕ × Boxes
  unfolding to_publish send_all
  push_to source transport s (err e) = (err e, s)
  push_to source transport s (ok target) =
      send_all source (transport target) s (to_publish source s)

  -- `cmdPush`, with the target that the first argument resolves to and `pushDelta` for the
  -- transport.
  unfoldable pub push :
      Option p.Identity
      → Result Bytes
      → Source
      → (Bytes → List Bytes → Result (List Bool))
      → Boxes
      → Result ℕ × Boxes
  unfolding push_to
  push none target source transport s = (err error, s)
  push (some identity) target source transport s = push_to source transport s target
