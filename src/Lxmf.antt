-- ===== src/Lxmf.antt =====
-- transport/lxmfSync.js: deltas in LXMF messages, one to a message or in batches, and batches that
-- are cut to fit a paper message. The messages of `@reticulum/lxmf` are records here; how one is
-- turned into a URI is an argument.
pub mod Chunks
pub mod Papers
pub mod Handled
use dacar.Common.{
  ℕ, zero, suc, ◌+◌, ◌/◌, Bool, true, false, not, ◌&&◌, ◌||◌, ltb, leb, ◌==◌, if◌then◌else◌,
  list_eq, List, [], ◌∷◌, ◌++◌, map, take, drop, Option, none, some, Bytes, Text, length, Result,
  ok, err, error, type_error, Failure, ◌>>=◌,
}
use dacar.Platform.{Platform}
use dacar.Value.{Value, nil, bool, int, float, str, bin, arr, object, from_list, to_list}
use dacar.Naming.{lxmf_delivery_title, lxmf_batch_title}
use dacar.Verifier.{Resolver}
use dacar.Crdt.{StateVector, Options}
use dacar.Delta.{apply_payload}

-- A title or a content: a string, a `Uint8Array`, or neither.
pub data Part : Type 0 where
  text : Text → Part
  bytes : Bytes → Part
  other : Part

-- `decoded_payload` is `_decodedPayload`, where it is an array.
pub record Message : Type 0 where
  pub title : Part
  pub content : Part
  pub decoded_payload : Option (List Value)

-- The third element, if it is a byte string.
raw_content : Option (List Value) → Option Bytes
raw_content (some (timestamp ∷ title ∷ bin b ∷ rest)) = some b
raw_content _ = none

-- The loop of `every`: the elements, if all are byte strings.
all_binary : List Value → Option (List Bytes)
all_binary [] = some []
all_binary (bin b ∷ vs) = elim (all_binary vs) [ none ↦ none | some bs ↦ some (b ∷ bs) ]
all_binary (v ∷ vs) = none

binary_elements : Option (List Bytes) → Result (List Bytes)
binary_elements none = err error
binary_elements (some bs) = ok bs

batch_elements : List Value → Result (List Bytes)
unfolding all_binary binary_elements
batch_elements [] = err error
batch_elements (v ∷ vs) = binary_elements (all_binary (v ∷ vs))

decoded_batch : Result Value → Result (List Bytes)
unfolding batch_elements
decoded_batch (ok (arr vs)) = batch_elements (to_list vs)
decoded_batch _ = err error

is_empty : List Bytes → Bool
is_empty [] = true
is_empty (b ∷ bs) = false

-- The last chunk is kept if anything is in it.
last_chunk : List Bytes → List (List Bytes)
last_chunk [] = []
last_chunk (b ∷ bs) = (b ∷ bs) ∷ []

module _ (p : Platform) where
  part_text : Part → Text
  part_text (text t) = t
  part_text (bytes b) = p.from_utf8 b
  part_text other = []

  unfoldable pub message_title : Option Message → Text
  unfolding part_text
  message_title none = []
  message_title (some m) = part_text m.title

  part_bytes : Part → Bytes
  part_bytes (text t) = p.utf8 t
  part_bytes (bytes b) = b
  part_bytes other = []

  unfoldable pub message_content : Option Message → Bytes
  unfolding part_bytes raw_content
  message_content none = []
  message_content (some m) = elim (raw_content m.decoded_payload) [
    | none ↦ part_bytes m.content
    | some b ↦ b
  ]

  unfoldable pub encode_batch : List Bytes → Bytes
  encode_batch payloads = p.encode (arr (from_list (map bin payloads)))

  unfoldable pub decode_batch : Bytes → Result (List Bytes)
  unfolding decoded_batch
  decode_batch content = decoded_batch (p.decode content)

  -- Whether the chunk is closed before one more payload.
  overflows : ℕ → List Bytes → Bytes → Bool
  unfolding is_empty encode_batch
  overflows max_bytes current payload =
      not (is_empty current) && ltb max_bytes (length (encode_batch (current ++ payload ∷ [])))

  -- The loop over the payloads, with the chunk that is being filled.
  pack_from : ℕ → List Bytes → List Bytes → List (List Bytes)
  unfolding overflows last_chunk
  pack_from max_bytes current [] = last_chunk current
  pack_from max_bytes current (b ∷ bs) = elim (overflows max_bytes current b) [
    | true ↦ current ∷ pack_from max_bytes (b ∷ []) bs
    | false ↦ pack_from max_bytes (current ++ b ∷ []) bs
  ]

  unfoldable pub pack_chunks : List Bytes → ℕ → List (List Bytes)
  unfolding pack_from
  pack_chunks payloads max_bytes = pack_from max_bytes [] payloads

-- The URIs of the first half before those of the second; what throws first ends it.
joined_halves :
    Option (Result (List Text)) → Option (Result (List Text)) → Option (Result (List Text))
joined_halves none second = none
joined_halves (some (err e)) second = some (err e)
joined_halves (some (ok us)) none = none
joined_halves (some (ok us)) (some (err e)) = some (err e)
joined_halves (some (ok us)) (some (ok vs)) = some (ok (us ++ vs))

too_long : Failure → Bool
too_long Failure.type_error = true
too_long _ = false

-- `make_uri` is what `makeBatchPaperUri` comes to for a chunk: it throws a `TypeError` where the
-- message is too long for a paper message.
module _ (make_uri : List Bytes → Result Text) where
  -- `build`: a chunk that is too long is cut in halves. None where the fuel runs out.
  unfoldable pub build : ℕ → List Bytes → Option (Result (List Text))
  unfolding joined_halves too_long
  build zero chunk = none
  build (suc fuel) chunk = elim (make_uri chunk) [
    | ok uri ↦ some (ok (uri ∷ []))
    | err e ↦ elim (too_long e && not (length chunk == 1)) [
      | false ↦ some (err e)
      | true ↦
          joined_halves (build fuel (take (length chunk / 2) chunk))
            (build fuel (drop (length chunk / 2) chunk))
    ]
  ]

  -- The loop over the chunks, with fuel for each.
  build_all : ℕ → List (List Bytes) → Option (Result (List Text))
  unfolding build
  build_all fuel [] = some (ok [])
  build_all fuel (c ∷ cs) = joined_halves (build fuel c) (build_all fuel cs)

  -- `paper_content_budget` is `PAPER_CONTENT_BUDGET`, a constant of the LXMF library less 240.
  unfoldable pub pack_paper_uris : (p : Platform) → ℕ → ℕ → List Bytes → Option (Result (List Text))
  unfolding build_all
  pack_paper_uris p fuel paper_content_budget payloads =
      build_all fuel (pack_chunks p payloads paper_content_budget)

module _ (p : Platform) (options : Options) where
  -- The loop over the payloads of a batch, and whether one was applied so far. A throw ends it.
  noted :
      (StateVector → Bool → Result Bool × StateVector)
      → Bool
      → Result (Bool × StateVector)
      → StateVector
      → Result Bool × StateVector
  noted rest any (err e) s = (err e, s)
  noted rest any (ok (applied, s')) s = rest s' (any || applied)

  unfoldable pub apply_each :
      Resolver p → List Bytes → (ℕ → ℕ) → StateVector → Bool → Result Bool × StateVector
  unfolding noted
  apply_each resolver [] clock s any = (ok any, s)
  apply_each resolver (b ∷ bs) clock s any =
      noted (apply_each resolver bs (λ i. clock (suc i))) any
        (apply_payload p resolver options s b (clock 0)) s

  batch_applied :
      Resolver p → (ℕ → ℕ) → StateVector → Result (List Bytes) → Result Bool × StateVector
  unfolding apply_each
  batch_applied resolver clock s (err e) = (ok false, s)
  batch_applied resolver clock s (ok payloads) = apply_each resolver payloads clock s false

  single_applied : StateVector → Result (Bool × StateVector) → Result Bool × StateVector
  single_applied s (err e) = (err e, s)
  single_applied s (ok (applied, s')) = (ok applied, s')

  -- `handleMessage`, with the resolver of the receiver, if the delivery has one.
  unfoldable pub handle_message :
      Option (Resolver p) → Option Message → (ℕ → ℕ) → StateVector → Result Bool × StateVector
  unfolding batch_applied single_applied
  handle_message receiver message clock s =
      if not (list_eq (message_title p message) lxmf_delivery_title)
        && not (list_eq (message_title p message) lxmf_batch_title)
      then (ok false, s)
      else (elim receiver [
        | none ↦ (err error, s)
        | some resolver ↦
            if list_eq (message_title p message) lxmf_batch_title
            then batch_applied resolver clock s (decode_batch p (message_content p message))
            else single_applied s
                (apply_payload p resolver options s (message_content p message) (clock 0))
      ])
