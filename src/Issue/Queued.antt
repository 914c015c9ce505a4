-- ===== src/Issue/Queued.antt =====
-- Where `grant` and `revoke` of cli/dacar.js leave the payload before and after the sends.
use dacar.Common.{
  ◌≡◌, inl, inr, refl, sym, subst, Bool, true, List, [], ◌∷◌, ◌++◌, Bytes, arith, In, In-append,
  Result, ok, err, ◌>>◌,
}
use dacar.Platform.{Platform, IsHex, IsPacking}
use dacar.Records.{load_outbox}
use dacar.Records.Boxes.{load-save}
use dacar.Publishing.{Boxes}
use dacar.Publishing.Sending.{Stored, Stored-record_publish}
use dacar.Crdt.Convergence.{accepted}
use dacar.Issue.{Node, send_each, queue}

module _ (p : Platform) (hex : IsHex p) (packing : IsPacking p) where
  send_each-Stored :
      (transports : List (List Bytes → Result (List Bool))) (payload x : Bytes) (boxes : Boxes)
      → Stored p hex packing boxes x
      → Stored p hex packing (send_each p transports payload boxes).1 x
  unfolding send_each
  send_each-Stored [] payload x boxes i = i
  send_each-Stored (transport ∷ transports) payload x boxes i =
      go (λ b j. send_each-Stored transports payload x b j) (transport (payload ∷ [])) refl
    where
      go :
          ((b : Boxes)
            → Stored p hex packing b x
            → Stored p hex packing (send_each p transports payload b).1 x)
          → (r : Result (List Bool)) → transport (payload ∷ []) ≡ r
          → Stored p hex packing (send_each p (transport ∷ transports) payload boxes).1 x
      go later (err e) same = rw (same, send_each) i
      go later (ok accepted) same =
          rw (same, send_each)
            (later _
              (Stored-record_publish p hex packing boxes (payload ∷ []) accepted x true refl i))

  thrown-ok : (sent : Result (Unit {0})) (a b : Bytes) → (sent >> ok a) ≡ ok b → b ≡ a
  thrown-ok (ok u) a b e = ground arith
  thrown-ok (err f) a b e = cc

  pub queue-answer :
      (transports : List (List Bytes → Result (List Bool))) (payload answer : Bytes) (n : Node p)
      → (queue p transports payload n).0 ≡ ok answer
      → answer ≡ payload
  unfolding queue
  queue-answer transports payload answer n e = thrown-ok _ payload answer e

  -- The payload is queued before it is sent, so that it is in one of the boxes in any case.
  pub queue-Stored :
      (transports : List (List Bytes → Result (List Bool))) (payload : Bytes) (n : Node p)
      → Stored p hex packing (queue p transports payload n).1.boxes payload
  unfolding queue
  queue-Stored transports payload n = send_each-Stored transports payload payload _ (
      inl (
        subst (In payload)
          (sym ((load-save p packing (load_outbox p n.boxes.outbox ++ payload ∷ [])).0))
          ((In-append payload (load_outbox p n.boxes.outbox) (payload ∷ [])).1 (inr (inl refl)))))
