-- ===== src/Lxmf/Papers.antt =====
-- The paper messages of transport/lxmfSync.js: `packPaperUris` ends and every delta is in a message.
use mathlib.Core.List.{flatten}
use dacar.Common.{
  ℕ, zero, suc, ◌/◌, ◌≤◌, ◌≡◌, ◌≢◌, refl, sym, ap, ◌∙◌, true, false, not, ◌&&◌, ◌==◌, List, [], ◌∷◌,
  ◌++◌, map, take, drop, Option, some, Bytes, Text, length, length-append, length-take, length-drop,
  take-append-drop, append_assoc, append-nil, subst, All, Result, ok, err, Failure, arith, inl, inr,
  Bool-cases,
}
use dacar.Platform.{Platform}
use dacar.Lxmf.{joined_halves, too_long, build, build_all, pack_chunks, pack_paper_uris}
use dacar.Lxmf.Chunks.{Fits, pack_chunks_lossless}

flatten-append {ℓ} :
    {A : Type ℓ} (xs ys : List (List A)) → flatten (xs ++ ys) ≡ flatten xs ++ flatten ys
unfolding flatten
flatten-append [] ys = refl
flatten-append (x ∷ xs) ys =
    ap (λ r. x ++ r) (flatten-append xs ys) ∙ sym (append_assoc x (flatten xs) (flatten ys))

length_pos : (chunk : List Bytes) → chunk ≢ [] → 1 ≤ length chunk
length_pos [] h = absurd (h refl)
length_pos (c ∷ cs) h = omega arith

pos_some : (chunk : List Bytes) → 1 ≤ length chunk → chunk ≢ []
pos_some [] h = absurd (omega arith)
pos_some (c ∷ cs) h = λ e. cc

map-append {ℓ κ} :
    {A : Type ℓ} {B : Type κ} (f : A → B) (xs ys : List A) → map f (xs ++ ys) ≡ map f xs ++ map f ys
map-append f [] ys = refl
map-append f (x ∷ xs) ys = ap (λ r. f x ∷ r) (map-append f xs ys)

module _ (make_uri : List Bytes → Result Text) where
  -- Each URI is that of a batch, and the batches are the payloads in their order.
  pub record Printed (payloads : List Bytes) (uris : List Text) : Type 0 where
    pub batches : List (List Bytes)
    pub whole : flatten batches ≡ payloads
    pub made : map make_uri batches ≡ map ok uris

  Printed-append :
      (xs ys : List Bytes) (us vs : List Text)
      → Printed xs us
      → Printed ys vs
      → Printed (xs ++ ys) (us ++ vs)
  Printed-append xs ys us vs a b = record {
    batches = a.batches ++ b.batches;
    whole = flatten-append a.batches b.batches ∙ cc (a.whole, b.whole);
    made =
        map-append make_uri a.batches b.batches ∙ cc (a.made, b.made) ∙ sym (map-append ok us vs);
  }

  -- The call came to an end, and where it did not throw its URIs carry the payloads.
  pub record Ended (payloads : List Bytes) (answer : Option (Result (List Text))) : Type 0 where
    pub outcome : Result (List Text)
    pub ended : answer ≡ some outcome
    pub carried : (uris : List Text) → outcome ≡ ok uris → Printed payloads uris

  Ended-ok :
      (payloads : List Bytes) (us : List Text) → Printed payloads us → Ended payloads (some (ok us))
  Ended-ok payloads us v = record {
    outcome = ok us;
    ended = refl;
    carried = λ uris h. let same : us ≡ uris = cc h in subst (λ w. Printed payloads w) same v;
  }

  joined_halves-Ended :
      (xs ys : List Bytes) (first second : Option (Result (List Text)))
      → Ended xs first
      → Ended ys second
      → Ended (xs ++ ys) (joined_halves first second)
  unfolding joined_halves
  joined_halves-Ended xs ys first second u v =
      go u.outcome v.outcome u.ended v.ended u.carried v.carried
    where
      go :
          (r s : Result (List Text))
          → first ≡ some r
          → second ≡ some s
          → ((uris : List Text) → r ≡ ok uris → Printed xs uris)
          → ((uris : List Text) → s ≡ ok uris → Printed ys uris)
          → Ended (xs ++ ys) (joined_halves first second)
      go (err e) s a b f g = record { outcome = err e; ended = rw a refl; carried = λ uris h. cc }
      go (ok us) (err e) a b f g = record {
        outcome = err e;
        ended = rw (a, b) refl;
        carried = λ uris h. cc;
      }
      go (ok us) (ok vs) a b f g =
          rw (a, b)
            (Ended-ok (xs ++ ys) (us ++ vs) (Printed-append xs ys us vs (f us refl) (g vs refl)))

  Ended-failed : (xs : List Bytes) (e : Failure) → Ended xs (some (err e))
  Ended-failed xs e = record { outcome = err e; ended = refl; carried = λ uris h. cc }

  Ended-made :
      (chunk : List Bytes) (uri : Text)
      → make_uri chunk ≡ ok uri
      → Ended chunk (some (ok (uri ∷ [])))
  unfolding flatten
  Ended-made chunk uri e =
      Ended-ok chunk (uri ∷ [])
        (record { batches = chunk ∷ []; whole = append-nil chunk; made = cc e })

  build_made :
      (fuel : ℕ) (chunk : List Bytes) (uri : Text)
      → make_uri chunk ≡ ok uri
      → build make_uri (suc fuel) chunk ≡ some (ok (uri ∷ []))
  unfolding build
  build_made fuel chunk uri e = rw (e, build) refl

  build_failed :
      (fuel : ℕ) (chunk : List Bytes) (e : Failure)
      → make_uri chunk ≡ err e
      → (too_long e && not (length chunk == 1)) ≡ false
      → build make_uri (suc fuel) chunk ≡ some (err e)
  unfolding build
  build_failed fuel chunk e f kept = rw (f, build, kept) refl

  build_cut :
      (fuel : ℕ) (chunk : List Bytes) (e : Failure)
      → make_uri chunk ≡ err e
      → (too_long e && not (length chunk == 1)) ≡ true
      → build make_uri (suc fuel) chunk
        ≡ joined_halves
            (build make_uri fuel (take (length chunk / 2) chunk))
            (build make_uri fuel (drop (length chunk / 2) chunk))
  unfolding build
  build_cut fuel chunk e f cut = rw (f, build, cut) refl

  take_some : (chunk : List Bytes) → 2 ≤ length chunk → take (length chunk / 2) chunk ≢ []
  take_some chunk h =
      pos_some (take (length chunk / 2) chunk) (omega (arith, length-take (length chunk / 2) chunk))

  drop_some : (chunk : List Bytes) → 2 ≤ length chunk → drop (length chunk / 2) chunk ≢ []
  drop_some chunk h =
      pos_some (drop (length chunk / 2) chunk) (omega (arith, length-drop (length chunk / 2) chunk))

  cut_two : (e : Failure) (n : ℕ) → 1 ≤ n → (too_long e && not (n == 1)) ≡ true → 2 ≤ n
  cut_two e n h cut = ground arith

  build-Ended :
      (fuel : ℕ) (chunk : List Bytes)
      → chunk ≢ []
      → length chunk ≤ fuel
      → Ended chunk (build make_uri fuel chunk)
  build-Ended zero chunk some' enough = absurd (omega (arith, length_pos chunk some'))
  build-Ended (suc fuel) chunk some' enough =
      go (λ half some'' enough'. build-Ended fuel half some'' enough') (make_uri chunk) refl
    where
      halves :
          ((half : List Bytes)
            → half ≢ []
            → length half ≤ fuel
            → Ended half (build make_uri fuel half))
          → 2 ≤ length chunk
          → Ended chunk (
              joined_halves
                (build make_uri fuel (take (length chunk / 2) chunk))
                (build make_uri fuel (drop (length chunk / 2) chunk)))
      halves again two =
          subst
            (λ c. Ended c (
              joined_halves (build make_uri fuel (take (length chunk / 2) chunk))
                (build make_uri fuel (drop (length chunk / 2) chunk))))
            (take-append-drop (length chunk / 2) chunk)
            (joined_halves-Ended (take (length chunk / 2) chunk) (drop (length chunk / 2) chunk) _ _
              (again (take (length chunk / 2) chunk) (take_some chunk two)
                (omega (arith, length-take (length chunk / 2) chunk)))
              (again (drop (length chunk / 2) chunk) (drop_some chunk two)
                (omega (arith, length-drop (length chunk / 2) chunk))))

      go :
          ((half : List Bytes)
            → half ≢ []
            → length half ≤ fuel
            → Ended half (build make_uri fuel half))
          → (r : Result Text) → make_uri chunk ≡ r
          → Ended chunk (build make_uri (suc fuel) chunk)
      go again (ok uri) e = rw (build_made fuel chunk uri e) (Ended-made chunk uri e)
      go again (err e) f = elim (Bool-cases (too_long e && not (length chunk == 1))) [
        | inl cut ↦
            rw (build_cut fuel chunk e f cut)
              (halves again (cut_two e (length chunk) (length_pos chunk some') cut))
        | inr kept ↦ rw (build_failed fuel chunk e f kept) (Ended-failed chunk e)
      ]

  build_all-Ended :
      (fuel : ℕ) (chunks : List (List Bytes))
      → All (λ c. (c ≢ []) × (length c ≤ fuel)) chunks
      → Ended (flatten chunks) (build_all make_uri fuel chunks)
  unfolding build_all flatten
  build_all-Ended fuel [] v = Ended-ok [] [] (record { batches = []; whole = refl; made = refl })
  build_all-Ended fuel (c ∷ cs) v =
      joined_halves-Ended c (flatten cs) _ _ (build-Ended fuel c v.0.0 v.0.1)
        (build_all-Ended fuel cs v.1)

  -- The chunks of a list are no longer than the list.
  chunks-bounded :
      (n : ℕ) (chunks : List (List Bytes))
      → All (λ c. c ≢ []) chunks
      → length (flatten chunks) ≤ n
      → All (λ c. (c ≢ []) × (length c ≤ n)) chunks
  unfolding flatten
  chunks-bounded n [] v h = tt
  chunks-bounded n (c ∷ cs) v h = (
    (v.0, omega (arith, length-append c (flatten cs))),
    chunks-bounded n cs v.1 (omega (arith, length-append c (flatten cs))),
  )

  All-some :
      (p : Platform) (budget : ℕ) (chunks : List (List Bytes))
      → All (Fits p budget) chunks
      → All (λ c. c ≢ []) chunks
  All-some p budget [] v = tt
  All-some p budget (c ∷ cs) v = (v.0.0, All-some p budget cs v.1)

  -- With as much fuel as there are payloads the export ends: no chunk is cut for ever. If it does
  -- not throw, its URIs are those of batches that are the payloads in their order, each exactly
  -- once.
  pub pack_paper_uris_ends :
      (p : Platform) (fuel budget : ℕ) (payloads : List Bytes)
      → length payloads ≤ fuel
      → Ended payloads (pack_paper_uris make_uri p fuel budget payloads)
  unfolding pack_paper_uris
  pack_paper_uris_ends p fuel budget payloads enough =
      let (whole, fits) = pack_chunks_lossless p budget payloads in
      subst (λ c. Ended c (build_all make_uri fuel (pack_chunks p payloads budget))) whole
        (build_all-Ended fuel (pack_chunks p payloads budget) (
          chunks-bounded fuel (pack_chunks p payloads budget)
            (All-some p budget (pack_chunks p payloads budget) fits)
            (omega (arith, ap length whole))))
