-- ===== src/Rfed.antt =====
-- transport/rfedSync.js: the deltas that a node pulls from a channel, page after page. The channel's
-- client and the unwrapping of its messages are of `@reticulum/rfed` and are arguments.
pub mod Pulled
use dacar.Common.{
  ℕ, zero, suc, ◌+◌, Bool, true, false, if◌then◌else◌, List, [], ◌∷◌, Option, none, some, Bytes,
  Result, ok, err, error,
}
use dacar.Platform.{Platform}
use dacar.Verifier.{Resolver}
use dacar.Crdt.{StateVector, Options}
use dacar.Delta.{apply_payload}

-- A page, its items unwrapped; to unwrap one may throw.
pub record Page : Type 0 where
  pub items : List (Result Bytes)
  pub more_pending : Bool

module _ (p : Platform) (resolver : Resolver p) (options : Options) where
  -- One item that was unwrapped, and then the rest of the page. A throw skips the item.
  tallied :
      (StateVector → ℕ → ℕ × StateVector)
      → ℕ
      → Result (Bool × StateVector)
      → StateVector
      → ℕ × StateVector
  tallied rest n (err e) s = rest s n
  tallied rest n (ok (true, s')) s = rest s' (n + 1)
  tallied rest n (ok (false, s')) s = rest s' n

  -- The loop over the items of a page, with the wall clock at each.
  unfoldable pub pull_items : List (Result Bytes) → (ℕ → ℕ) → StateVector → ℕ → ℕ × StateVector
  unfolding tallied
  pull_items [] clock s n = (n, s)
  pull_items (err e ∷ items) clock s n = pull_items items (λ i. clock (suc i)) s n
  pull_items (ok b ∷ items) clock s n =
      tallied (pull_items items (λ i. clock (suc i))) n
        (apply_payload p resolver options s b (clock 0)) s

  -- `while (morePending)` over the pages that the client returns, none where the fuel runs out.
  unfoldable pub pull_pages :
      ℕ → (ℕ → Result Page) → (ℕ → ℕ → ℕ) → StateVector → ℕ → Option (Result ℕ × StateVector)
  pull_pages zero pages clock s n = none
  pull_pages (suc fuel) pages clock s n = elim (pages 0) [
    | err e ↦ some (err e, s)
    | ok page ↦
        let (m, t) = pull_items page.items (clock 0) s n in
        if page.more_pending
        then pull_pages fuel (λ i. pages (suc i)) (λ i. clock (suc i)) t m
        else some (ok m, t)
  ]

-- Without a receiver the call throws.
unfoldable pub pull :
    (p : Platform)
    → Option (Resolver p)
    → Options
    → ℕ
    → (ℕ → Result Page)
    → (ℕ → ℕ → ℕ)
    → StateVector
    → Option (Result ℕ × StateVector)
unfolding pull_pages
pull p none options fuel pages clock s = some (err error, s)
pull p (some resolver) options fuel pages clock s =
    pull_pages p resolver options fuel pages clock s 0
