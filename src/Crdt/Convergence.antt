-- ===== src/Crdt/Convergence.antt =====
-- Replicas of the state of crdt.js that take in the same operations agree, in whatever order, however
-- often and at whatever times the operations arrive.
use dacar.Common.{
  ℕ, ◌/◌, ◌-◌, ◌*◌, ◌≤◌, ◌≡◌, ◌↔◌, refl, sym, ap, subst, ◌∙◌, Bool, true, false, ltb, list_eq,
  if◌then◌else◌, List, [], ◌∷◌, In, inl, inr, Text, arith, Result, ok, err, Bool-cases, All, not,
  ◌&&◌, ◌||◌,
}
use dacar.Platform.{Platform}
use dacar.Hlc.{max_hlc, unpack_hlc}
use dacar.Tuple.{key}
use dacar.Operation.{Operation}
use dacar.Crdt.{StateVector, Options, apply, update, is_active, or_clock, too_new, ms_per_day}
use dacar.Crdt.Stamps.{
  Stamps, bottom, stamps_at, join, join_assoc, join-bottom, stamps_by, stamps-update,
  is_active-stamps, active_stamps, ◌⊑◌, ⊑-antisym, ⊑-join_left, ⊑-join_right, ⊑-trans, join-⊑,
}

-- The intake test of `apply`, for a state with this horizon.
abbrev pub accepted : ℕ → Options → ℕ → Operation → Bool
accepted days options clock_ms o =
    let now = or_clock options.now_ms clock_ms in
    let physical = o.hlc / 65536 in
    not (too_new options.max_future_ms now physical || ltb physical (now - days * ms_per_day))

-- An operation, and what the wall clock reads when it arrives.
pub record Arrival : Type 0 where
  pub operation : Operation
  pub clock_ms : ℕ

-- The operation arrives in time at least once.
abbrev pub Taken : ℕ → Options → List Arrival → Operation → Type 0
Taken days options as' o =
    (clock_ms : ℕ) × In (record { operation = o; clock_ms = clock_ms }) as'
    × (accepted days options clock_ms o ≡ true)

abbrev pub Fits : Arrival → Type 0
Fits a = a.operation.hlc ≤ max_hlc

module _ (p : Platform) (options : Options) (clock_ms : ℕ) where
  -- An operation of the constructor is applied exactly if it passes the intake test, and changes
  -- nothing else.
  pub apply_lem :
      (s : StateVector) (o : Operation)
      → o.hlc ≤ max_hlc
      → apply p s o options clock_ms ≡ (
          if accepted s.deletion_horizon_days options clock_ms o
          then ok (true, update p s o)
          else ok (false, s))
  unfolding apply unpack_hlc
  apply_lem s o fits = ground arith

module _ (p : Platform) (options : Options) where
  -- The state after a call, which is as before if the call throws.
  abbrev pub after : StateVector → Result (Bool × StateVector) → StateVector
  after s (ok r) = r.1
  after s (err e) = s

  abbrev applied : StateVector → Arrival → StateVector
  applied s a = after s (apply p s a.operation options a.clock_ms)

  -- The state after operations have arrived, one after the other.
  pub apply_all : StateVector → List Arrival → StateVector
  apply_all s [] = s
  apply_all s (a ∷ as') = apply_all (applied s a) as'

  -- What an arrival contributes at a key, in a state with this horizon.
  abbrev delta : ℕ → Text → Arrival → Stamps
  delta days k a =
      if accepted days options a.clock_ms a.operation && list_eq (key p a.operation.tuple) k
      then stamps_by a.operation.action a.operation.hlc
      else bottom

  abbrev total : ℕ → Text → List Arrival → Stamps
  total days k [] = bottom
  total days k (a ∷ as') = join (delta days k a) (total days k as')

  days-after :
      (s : StateVector) (a : Arrival)
      → Fits a
      → (applied s a).deletion_horizon_days ≡ s.deletion_horizon_days
  unfolding update
  days-after s a fits = rw (apply_lem p options a.clock_ms s a.operation fits) (ground arith)

  stamps-after :
      (s : StateVector) (a : Arrival) (k : Text)
      → Fits a
      → stamps_at (applied s a) k ≡ join (stamps_at s k) (delta s.deletion_horizon_days k a)
  stamps-after s a k fits =
      let o = a.operation in
      let lem = apply_lem p options a.clock_ms s o fits in
      elim (Bool-cases (accepted s.deletion_horizon_days options a.clock_ms o)) [
        | inl yes' ↦ elim (Bool-cases (list_eq (key p o.tuple) k)) [
          | inl same ↦ rw (lem, yes', same) (stamps-update p s o k ∙ rw same)
          | inr other ↦
              rw (lem, yes', other)
                (stamps-update p s o k ∙ rw other (sym (join-bottom (stamps_at s k))))
        ]
        | inr no' ↦ rw (lem, no') (sym (join-bottom (stamps_at s k)))
      ]

  stamps-apply_all :
      (s : StateVector) (as' : List Arrival) (k : Text)
      → All Fits as'
      → stamps_at (apply_all s as') k ≡ join (stamps_at s k) (total s.deletion_horizon_days k as')
  unfolding apply_all
  stamps-apply_all s [] k fits = sym (join-bottom (stamps_at s k))
  stamps-apply_all s (a ∷ as') k fits =
      stamps-apply_all (applied s a) as' k fits.1
      ∙ ap (λ d. join (stamps_at (applied s a) k) (total d k as')) (days-after s a fits.0)
      ∙ ap (λ j. join j (total s.deletion_horizon_days k as')) (stamps-after s a k fits.0)
      ∙ join_assoc (stamps_at s k) _ _

  delta-⊑ :
      (days : ℕ) (k : Text) (a : Arrival) (as' : List Arrival)
      → In a as'
      → delta days k a ⊑ total days k as'
  delta-⊑ days k a [] i = absurd i
  delta-⊑ days k a (x ∷ as') (inl same) = rw same (⊑-join_left (delta days k x) (total days k as'))
  delta-⊑ days k a (x ∷ as') (inr i) =
      ⊑-trans _ (total days k as') _ (delta-⊑ days k a as' i)
        (⊑-join_right (delta days k x) (total days k as'))

  total-⊑ :
      (days : ℕ) (k : Text) (as' : List Arrival) (u : Stamps)
      → ((a : Arrival) → In a as' → delta days k a ⊑ u)
      → total days k as' ⊑ u
  total-⊑ days k [] u h = (tt, tt)
  total-⊑ days k (a ∷ as') u h =
      join-⊑ _ _ u (h a (inl refl)) (total-⊑ days k as' u (λ x i. h x (inr i)))

module _ (p : Platform) where
  -- A replica that takes in no operation that the other does not has no later times.
  total-part :
      (options options' : Options) (days : ℕ) (k : Text) (as' bs : List Arrival)
      → ((o : Operation) → Taken days options as' o → Taken days options' bs o)
      → total p options days k as' ⊑ total p options' days k bs
  total-part options options' days k as' bs part = total-⊑ p options days k as' _ λ a i. go a i
    where
      go : (a : Arrival) → In a as' → delta p options days k a ⊑ total p options' days k bs
      go a i = elim (Bool-cases (accepted days options a.clock_ms a.operation)) [
        | inl yes' ↦
            let (clock_ms, j, also) = part a.operation (a.clock_ms, i, yes') in
            rw yes' (
              subst
                (λ b.
                  (if b && list_eq (key p a.operation.tuple) k
                    then stamps_by a.operation.action a.operation.hlc
                    else bottom)
                  ⊑ total p options' days k bs)
                also
                (delta-⊑ p options' days k (record { operation = a.operation; clock_ms = clock_ms })
                  bs j))
        | inr no' ↦ rw no' (tt, tt)
      ]

  -- Two replicas start from one state, and operations of the constructor arrive, in whatever order,
  -- however often, at whatever readings of their wall clocks and under whatever intake options. A
  -- replica takes in an operation that arrives in time at least once. If both take in the same
  -- operations, then every key has the same latest grant and revocation, and so every tuple the same
  -- answer.
  pub apply_all_converges :
      (options options' : Options) (s : StateVector) (as' bs : List Arrival) (k : Text)
      → All Fits as'
      → All Fits bs
      → ((o : Operation)
          → Taken s.deletion_horizon_days options as' o
            ↔ Taken s.deletion_horizon_days options' bs o)
      → (stamps_at (apply_all p options s as') k ≡ stamps_at (apply_all p options' s bs) k)
        × (is_active (apply_all p options s as') k ≡ is_active (apply_all p options' s bs) k)
  apply_all_converges options options' s as' bs k fits fits' same =
      let days = s.deletion_horizon_days in
      let totals : total p options days k as' ≡ total p options' days k bs =
        ⊑-antisym _ _ (total-part options options' days k as' bs (λ o. (same o).0))
          (total-part options' options days k bs as' (λ o. (same o).1)) in
      let e : stamps_at (apply_all p options s as') k ≡ stamps_at (apply_all p options' s bs) k =
        stamps-apply_all p options s as' k fits
        ∙ ap (join (stamps_at s k)) totals
        ∙ sym (stamps-apply_all p options' s bs k fits') in
      (
        e,
        is_active-stamps (apply_all p options s as') k
            ∙ ap active_stamps e
            ∙ sym (is_active-stamps (apply_all p options' s bs) k),
      )
