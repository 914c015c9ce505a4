-- ===== src/Records/Boxes.antt =====
-- The outbox and the sent box of cli/store.js read back what was saved.
use dacar.Common.{◌≡◌, refl, ap, List, [], ◌∷◌, map, some, Bytes}
use dacar.Platform.{Platform, IsPacking}
use dacar.Value.{bin, arr, from_list, to_list}
use dacar.Records.{
  byte_strings, box_of, decoded_box, load_outbox, save_outbox, load_sent, save_sent,
}

byte_strings-from_list : (bs : List Bytes) → byte_strings (to_list (from_list (map bin bs))) ≡ bs
unfolding byte_strings
byte_strings-from_list [] = refl
byte_strings-from_list (b ∷ bs) = ap (λ r. b ∷ r) (byte_strings-from_list bs)

module _ (p : Platform) (packing : IsPacking p) where
  -- Both boxes read back the payloads that were saved, in their order.
  pub load-save :
      (payloads : List Bytes)
      → (load_outbox p (some (save_outbox p payloads)) ≡ payloads)
        × (load_sent p (some (save_sent p payloads)) ≡ payloads)
  unfolding load_outbox save_outbox load_sent save_sent box_of decoded_box
  load-save payloads = (
    rw (packing.decode-encode (arr (from_list (map bin payloads))))
        (byte_strings-from_list payloads),
    rw (packing.decode-encode (arr (from_list (map bin payloads))))
        (byte_strings-from_list payloads),
  )
