-- ===== src/Issue/Issued.antt =====
-- What `grant` and `revoke` of cli/dacar.js leave behind when they return.
use dacar.Common.{
  ℕ, ◌+◌, ◌*◌, ◌≤◌, ◌≡◌, inl, inr, refl, sym, ap, subst, ◌∙◌, Bool, true, false, if◌then◌else◌,
  Bool-cases, List, [], ◌∷◌, Option, none, some, Bytes, arith, Result, ok, err, Failure, Ensures,
  Ensures-bind, ◌>>=◌,
}
use dacar.JsMap.{JsMap}
use dacar.Platform.{Platform, IsHex, IsPacking, IsSigning}
use dacar.Hlc.{Clock, now, tick, pack_hlc, max_hlc, max_logical}
use dacar.Hlc.Ticks.{After, now_later}
use dacar.Tuple.{Tuple}
use dacar.Tuple.Preimage.{IsTuple}
use dacar.Operation.{Operation, Action, preimage, new_operation, sign, all_sized}
use dacar.Operation.Wire.{from_payload}
use dacar.Operation.Payload.{IsOperation, from_payload-to_payload}
use dacar.Publishing.Sending.{Stored}
use dacar.Crdt.{update, default_options}
use dacar.Crdt.Convergence.{apply_lem, accepted}
use dacar.Settings.{config_validated}
use dacar.Issue.Queued.{queue-Stored, queue-answer}
use dacar.Issue.Tuples.{Ours, build_tuple-Ours}
use dacar.Issue.{
  Node, IssueArgs, Built, LedgerRow, build_tuple, signed_operation, recorded_plaintext, annotated,
  applied_or_thrown, apply_own, kept_or_applied, made, timed, built_or_thrown, identified, issue,
}

now-fits : (c : Clock) (phys h : ℕ) → (now c phys).0 ≡ ok h → h ≤ max_hlc
unfolding now tick pack_hlc
now-fits c phys h e = ground arith

ok-injective : {A : Type 0} {a b : A} → ok a ≡ ok b → a ≡ b
ok-injective e = cc

err-ok : {A : Type 0} {e : Failure} {a : A} → err e ≡ ok a → ⊥
err-ok h = cc

-- A call that always throws does not return.
never :
    {A B : Type 0} {b : B} (r : Result A) → ◌>>=◌ {Then = B} r (λ a. err Failure.error) ≡ ok b → ⊥
never (err f) h = err-ok h
never (ok a) h = err-ok h

module _ (p : Platform) (hex : IsHex p) (packing : IsPacking p) (signing : IsSigning p) where
  -- The operation that an identity signs.
  abbrev pub signed : Tuple → Action → ℕ → p.Identity → Operation
  signed tuple action hlc i = record {
    tuple = tuple;
    action = action;
    hlc = hlc;
    signatures =
        p.sign i (preimage (record { tuple = tuple; action = action; hlc = hlc; signatures = [] }))
        ∷ [];
  }

  signed_operation-ok :
      (tuple : Tuple) (action : Action) (hlc : ℕ) (i : p.Identity)
      → hlc ≤ max_hlc
      → signed_operation p tuple action hlc i ≡ ok (signed tuple action hlc i)
  unfolding signed_operation sign new_operation all_sized
  signed_operation-ok tuple action hlc i fits = ground (
    arith,
    signing.length-sign i
        (preimage (record { tuple = tuple; action = action; hlc = hlc; signatures = [] })),
  )

  signed-IsOperation :
      (tuple : Tuple) (action : Action) (hlc : ℕ) (i : p.Identity)
      → IsTuple tuple
      → hlc ≤ max_hlc
      → IsOperation (signed tuple action hlc i)
  signed-IsOperation tuple action hlc i v fits = record {
    tuple = v;
    hlc = fits;
    signatures = (signing.length-sign i _, tt);
  }

  -- What the rest of the call does, once the operation is made and the clock saved.
  record Left (args : IssueArgs) (o : Operation) (payload : Bytes) (n : Node p)
      (r : Result Bytes × Node p) : Type 0 where
    answered : r.0 ≡ ok payload
    stored : Stored p hex packing r.1.boxes payload
    kept : args.no_apply ≡ true → r.1.state ≡ n.state
    applied : args.no_apply ≡ false → r.1.state ≡ update p n.state o
    clock : r.1.clock ≡ n.clock

  apply_own-ok :
      (args : IssueArgs) (o : Operation) (clock_ms : ℕ) (n n' : Node p)
      → o.hlc ≤ max_hlc
      → apply_own p args o clock_ms n ≡ ok n'
      → (args.no_apply ≡ true → n'.state ≡ n.state)
        × (args.no_apply ≡ false → n'.state ≡ update p n.state o)
        × (n'.clock ≡ n.clock)
  unfolding apply_own applied_or_thrown
  apply_own-ok args o clock_ms n n' fits e = elim (Bool-cases args.no_apply) [
    | inl skipped ↦
        let same : n ≡ n' = ok-injective (rw skipped at e) in
        (λ h. ap (λ m. m.state) (sym same), λ h. ground arith, ap (λ m. m.clock) (sym same))
    | inr wanted ↦
        let same = taken (rw (wanted, apply_lem p default_options clock_ms n.state o fits) at e) in
        (λ h. ground arith, λ h. ap (λ m. m.state) (sym same), ap (λ m. m.clock) (sym same))
  ]
    where
      taken :
          applied_or_thrown p n (
              if accepted n.state.deletion_horizon_days default_options clock_ms o
              then ok (true, update p n.state o)
              else ok (false, n.state))
            ≡ ok n'
          → record n { state = update p n.state o } ≡ n'
      taken f =
          elim (Bool-cases (accepted n.state.deletion_horizon_days default_options clock_ms o)) [
            | inl yes' ↦ ok-injective (rw yes' at f)
            | inr no' ↦ absurd (err-ok (rw no' at f))
          ]

  made-ok :
      (args : IssueArgs) (built : Built) (hlc clock_ms : ℕ)
      (transports : List (List Bytes → Result (List Bool))) (n : Node p) (o : Operation)
      (payload answer : Bytes)
      → o.hlc ≤ max_hlc
      → (made p args built hlc clock_ms transports n (ok (o, payload))).0 ≡ ok answer
      → (answer ≡ payload)
        × Left args o payload n (made p args built hlc clock_ms transports n (ok (o, payload)))
  unfolding made kept_or_applied recorded_plaintext
  made-ok args built hlc clock_ms transports n o payload answer fits e =
      applied (apply_own p args o clock_ms n) refl e
    where
      annotated' :
          (n' : Node p) (r : Result (JsMap LedgerRow))
          → apply_own p args o clock_ms n ≡ ok n'
          → (recorded_plaintext p transports payload n' r).0 ≡ ok answer
          → (answer ≡ payload)
            × Left args o payload n (recorded_plaintext p transports payload n' r)
      annotated' n' (err f) same h = absurd (err-ok h)
      annotated' n' (ok ledger) same h =
          let (kept, applied, clock) = apply_own-ok args o clock_ms n n' fits same in
          let queued : Node p = record n' { ledger = ledger } in
          let answered : answer ≡ payload =
            queue-answer p hex packing transports payload answer queued h in
          (
            answered,
            record {
              answered = h ∙ ap ok answered;
              stored = queue-Stored p hex packing transports payload queued;
              kept = kept;
              applied = applied;
              clock = clock;
            },
          )

      applied :
          (r : Result (Node p))
          → apply_own p args o clock_ms n ≡ r
          → (kept_or_applied p built hlc transports payload n r).0 ≡ ok answer
          → (answer ≡ payload)
            × Left args o payload n (kept_or_applied p built hlc transports payload n r)
      applied (err f) same h = absurd (err-ok h)
      applied (ok n') same h = annotated' n' (annotated p built hlc n'.ledger) same h

  -- What a call that returned left behind.
  pub record Issued (args : IssueArgs) (action : Action) (n : Node p) (payload : Bytes)
      (r : Result Bytes × Node p) : Type 0 where
    pub identity : p.Identity
    pub named : n.identity ≡ some identity
    pub tuple : Tuple
    pub well_formed : IsTuple tuple
    pub ours : tuple.issuer ≡ p.identity_hash identity
    pub hlc : ℕ
    pub later : After hlc n.clock
    pub saved : hlc ≡ r.1.clock.last_ms * 65536 + r.1.clock.logical
    pub decoded : from_payload p payload ≡ ok (signed tuple action hlc identity)
    pub stored : Stored p hex packing r.1.boxes payload
    pub kept : args.no_apply ≡ true → r.1.state ≡ n.state
    pub applied :
        args.no_apply ≡ false → r.1.state ≡ update p n.state (signed tuple action hlc identity)

  -- A call that returns has answered the payload of an operation on a well-formed tuple of the
  -- node's own identity, signed by it, with a time later than the clock was, which is the time that
  -- the clock is saved with. The payload is in the outbox or in the sent box, whatever the
  -- transports did, and the operation is recorded in the node's state unless the arguments say not
  -- to.
  pub issue_sound :
      (args : IssueArgs) (action : Action) (now_ms apply_ms : ℕ)
      (transports : List (List Bytes → Result (List Bool))) (n : Node p) (payload : Bytes)
      → n.clock.logical ≤ max_logical
      → (issue p args action now_ms apply_ms transports n).0 ≡ ok payload
      → Issued args action n payload (issue p args action now_ms apply_ms transports n)
  unfolding issue identified built_or_thrown timed
  issue_sound args action now_ms apply_ms transports n payload fits e = go n.identity refl e
    where
      made' :
          (built : Built) (i : p.Identity) (hlc : ℕ) (clock : Clock)
          → n.identity ≡ some i
          → Ours p (p.identity_hash i) built
          → now n.clock now_ms ≡ (ok hlc, clock)
          → (timed p args action i built apply_ms transports n (ok hlc, clock)).0 ≡ ok payload
          → Issued args action n payload
              (timed p args action i built apply_ms transports n (ok hlc, clock))
      made' built i hlc clock named ours ticked h =
          let bound = now-fits n.clock now_ms hlc (ap (λ r. r.0) ticked) in
          let o = signed built.tuple action hlc i in
          let made_o = signed_operation-ok built.tuple action hlc i bound in
          let (data', encoded, decoded) =
            from_payload-to_payload p o packing
              (signed-IsOperation built.tuple action hlc i ours.0 bound) (λ f. cc) in
          let (answered, left) =
            made-ok args built hlc apply_ms transports (record n { clock = clock }) o data' payload
              bound (rw (made_o, encoded) at h) in
          let (after, reading, wall) = now_later n.clock now_ms fits (ap (λ r. r.0) ticked) in
          rw (made_o, encoded)
            (record {
              identity = i;
              named = named;
              tuple = built.tuple;
              well_formed = ours.0;
              ours = ours.1;
              hlc = hlc;
              later = after;
              saved = cc (reading, ap (λ r. r.1) ticked, left.clock);
              decoded = cc (decoded, answered);
              stored = subst (Stored p hex packing _) (sym answered) left.stored;
              kept = left.kept;
              applied = left.applied;
            })

      timed' :
          (built : Built) (i : p.Identity) (r : Result ℕ × Clock)
          → n.identity ≡ some i
          → Ours p (p.identity_hash i) built
          → now n.clock now_ms ≡ r
          → (timed p args action i built apply_ms transports n r).0 ≡ ok payload
          → Issued args action n payload (timed p args action i built apply_ms transports n r)
      timed' built i (err f, clock) named ours ticked h = absurd (err-ok h)
      timed' built i (ok hlc, clock) named ours ticked h =
          made' built i hlc clock named ours ticked h

      built' :
          (i : p.Identity) (r : Result Built)
          → n.identity ≡ some i
          → Ensures (Ours p (p.identity_hash i)) r
          → (built_or_thrown p args action i now_ms apply_ms transports n r).0 ≡ ok payload
          → Issued args action n payload
              (built_or_thrown p args action i now_ms apply_ms transports n r)
      built' i (err f) named ours h = absurd (err-ok h)
      built' i (ok built) named ours h = timed' built i (now n.clock now_ms) named ours refl h

      chosen :
          (i : p.Identity)
          → Ensures (Ours p (p.identity_hash i)) (
              config_validated p n.config >>= λ config.
              build_tuple p args config n.aliases (p.identity_hash i))
      chosen i =
          Ensures-bind (Ours p (p.identity_hash i)) (config_validated p n.config) _
            λ config valid. build_tuple-Ours p args config n.aliases (p.identity_hash i)

      go :
          (r : Option p.Identity)
          → n.identity ≡ r
          → (identified p args action now_ms apply_ms transports n r).0 ≡ ok payload
          → Issued args action n payload (identified p args action now_ms apply_ms transports n r)
      go none named h = absurd (never (config_validated p n.config) h)
      go (some i) named h = built' i _ named (chosen i) h
