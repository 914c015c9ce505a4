-- ===== src/Rfed/Pulled.antt =====
-- A pull of transport/rfedSync.js ends, and records only signed operations.
use dacar.Common.{
  ℕ, zero, suc, ◌+◌, ◌<◌, ◌≡◌, refl, Bool, true, false, if◌then◌else◌, List, [], ◌∷◌, Option, some,
  Bytes, Result, ok, err, arith, inl, inr, Bool-cases,
}
use native.Mathlib.Numerals.{add-one}
use dacar.Platform.{Platform}
use dacar.Verifier.{Resolver}
use dacar.Crdt.{StateVector, Options}
use dacar.Delta.{apply_payload}
use dacar.Delta.Receipt.{apply_payload_sound}
use dacar.Delta.Batch.{Received, nothing, more}
use dacar.Rfed.{Page, tallied, pull_items, pull_pages, pull}

module _ (p : Platform) (resolver : Resolver p) (options : Options) where
  abbrev Has : StateVector → ℕ × StateVector → Type 0
  Has s r = Received p resolver options s r.1 r.0

  tallied-Has :
      (s t : StateVector) (n clock_ms : ℕ) (b : Bytes) (rest : StateVector → ℕ → ℕ × StateVector)
      (r : Result (Bool × StateVector))
      → ((u : StateVector) (m : ℕ) → Received p resolver options s u m → Has s (rest u m))
      → Received p resolver options s t n
      → apply_payload p resolver options t b clock_ms ≡ r
      → Has s (tallied p resolver options rest n r t)
  unfolding tallied
  tallied-Has s t n clock_ms b rest (err e) h v same = h t n v
  tallied-Has s t n clock_ms b rest (ok (true, u)) h v same =
      elim (apply_payload_sound p resolver options t u b clock_ms true same) [
        | inl (no', _) ↦ absurd (ground arith)
        | inr (_, applied) ↦ h u (n + 1) (rw add-one (more b clock_ms v applied))
      ]
  tallied-Has s t n clock_ms b rest (ok (false, u)) h v same =
      elim (apply_payload_sound p resolver options t u b clock_ms false same) [
        | inl (_, kept) ↦ h u n (rw kept v)
        | inr (yes', _) ↦ absurd (ground arith)
      ]

  pull_items-Has :
      (s t : StateVector) (items : List (Result Bytes)) (clock : ℕ → ℕ) (n : ℕ)
      → Received p resolver options s t n
      → Has s (pull_items p resolver options items clock t n)
  unfolding pull_items
  pull_items-Has s t [] clock n v = v
  pull_items-Has s t (err e ∷ items) clock n v = pull_items-Has s t items (λ i. clock (suc i)) n v
  pull_items-Has s t (ok b ∷ items) clock n v =
      tallied-Has s t n (clock 0) b _ _ (λ u m w. pull_items-Has s u items (λ i. clock (suc i)) m w)
        v refl

  -- The pull came to an end, with a state that received as many operations as the answer says, if
  -- it did not throw.
  pub record Ended (s : StateVector) (answer : Option (Result ℕ × StateVector)) : Type 0 where
    pub outcome : Result ℕ × StateVector
    pub ended : answer ≡ some outcome
    pub total : ℕ
    pub received : Received p resolver options s outcome.1 total
    pub counted : (m : ℕ) → outcome.0 ≡ ok m → m ≡ total

  pull_pages-Ended :
      (s t : StateVector) (last fuel n : ℕ) (pages : ℕ → Result Page) (clock : ℕ → ℕ → ℕ)
      (page : Page)
      → Received p resolver options s t n
      → last < fuel
      → pages last ≡ ok page
      → page.more_pending ≡ false
      → Ended s (pull_pages p resolver options fuel pages clock t n)
  unfolding pull_pages
  pull_pages-Ended s t last zero n pages clock page v enough final no_more = absurd (omega arith)
  pull_pages-Ended s t last (suc fuel) n pages clock page v enough final no_more =
      go
        (λ l u m w e f.
          pull_pages-Ended s u l fuel m (λ i. pages (suc i)) (λ i. clock (suc i)) page w e f
            no_more)
        (pages 0) refl
    where
      deeper :
          ((l : ℕ) (u : StateVector) (m : ℕ)
            → Received p resolver options s u m
            → l < fuel
            → pages (suc l) ≡ ok page
            → Ended s
                (pull_pages p resolver options fuel (λ i. pages (suc i)) (λ i. clock (suc i)) u m))
          → (first : Page) (last : ℕ) → pages 0 ≡ ok first
          → first.more_pending ≡ true
          → last < suc fuel
          → pages last ≡ ok page
          → Ended s (
              pull_pages p resolver options fuel
                (λ i. pages (suc i))
                (λ i. clock (suc i))
                (pull_items p resolver options first.items (clock 0) t n).1
                (pull_items p resolver options first.items (clock 0) t n).0)
      deeper again first zero same yes' enough final =
          let bad : true ≡ false = cc (same, final, yes', no_more) in absurd (ground (arith, bad))
      deeper again first (suc l) same yes' enough final =
          again l (pull_items p resolver options first.items (clock 0) t n).1
            (pull_items p resolver options first.items (clock 0) t n).0
            (pull_items-Has s t first.items (clock 0) n v) (omega arith) final

      go :
          ((l : ℕ) (u : StateVector) (m : ℕ)
            → Received p resolver options s u m
            → l < fuel
            → pages (suc l) ≡ ok page
            → Ended s
                (pull_pages p resolver options fuel (λ i. pages (suc i)) (λ i. clock (suc i)) u m))
          → (r : Result Page) → pages 0 ≡ r
          → Ended s (elim r [
            | err e ↦ some (err e, t)
            | ok first ↦
                let (m, u) = pull_items p resolver options first.items (clock 0) t n in
                if first.more_pending
                then pull_pages p resolver options fuel
                    (λ i. pages (suc i))
                    (λ i. clock (suc i))
                    u
                    m
                else some (ok m, u)
          ])
      go again (err e) same = record {
        outcome = (err e, t);
        ended = refl;
        total = n;
        received = v;
        counted = λ m h. cc;
      }
      go again (ok first) same =
          let w = pull_items-Has s t first.items (clock 0) n v in
          elim (Bool-cases first.more_pending) [
            | inl yes' ↦ rw yes' (deeper again first last same yes' enough final)
            | inr no' ↦ rw no' (record {
              outcome = (
                ok (pull_items p resolver options first.items (clock 0) t n).0,
                (pull_items p resolver options first.items (clock 0) t n).1,
              );
              ended = refl;
              total = (pull_items p resolver options first.items (clock 0) t n).0;
              received = w;
              counted = λ m h. cc;
            })
          ]

  -- With a receiver: if one of the pages that the client returns, as far as the fuel goes, says that no more is
  -- pending, the pull ends, and the state has changed only by signed operations that are recorded
  -- one after the other, as many as the answer says where the client did not throw.
  pub pull_ends :
      (s : StateVector) (last fuel : ℕ) (pages : ℕ → Result Page) (clock : ℕ → ℕ → ℕ) (page : Page)
      → last < fuel
      → pages last ≡ ok page
      → page.more_pending ≡ false
      → Ended s (pull p (some resolver) options fuel pages clock s)
  unfolding pull
  pull_ends s last fuel pages clock page = pull_pages-Ended s s last fuel 0 pages clock page nothing
