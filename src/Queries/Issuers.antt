-- ===== src/Queries/Issuers.antt =====
-- The guard of `identity forget` in cli/dacar.js.
use dacar.Common.{
  ◌≤◌, ◌≡◌, ◌≢◌, sym, ap, subst, ◌∙◌, inl, inr, Bool, true, false, not, ◌||◌, ltb, if◌then◌else◌,
  list_eq, list_eq_refl, List, [], ◌∷◌, none, Bytes, length, In, arith, ok, error, require,
  >>=-eq-ok, require-eq-ok,
}
use dacar.Platform.{Platform, IsHex}
use dacar.Namespace.{hash_size}
use dacar.Tuple.{Tuple}
use dacar.Crdt.{StateVector, active_tuples}
use dacar.Verifier.{Keyring, forget, resolve, has}
use dacar.Verifier.Rings.{resolve-forget}
use dacar.Queries.{active_of_issuer, identity_forget}

ok-injective : {A : Type 0} {a b : A} → ok a ≡ ok b → a ≡ b
ok-injective e = cc

module _ (p : Platform) where
  active_of_issuer-In :
      (ts : List Tuple) (t : Tuple) (h : Bytes)
      → In t ts
      → t.issuer ≡ h
      → 1 ≤ active_of_issuer p ts h
  unfolding active_of_issuer
  active_of_issuer-In [] t h i e = absurd i
  active_of_issuer-In (u ∷ ts) t h (inl same) e =
      let here : list_eq (p.to_hex u.issuer) (p.to_hex h) ≡ true = matched u same e in ground arith
    where
      matched : (u : Tuple) → t ≡ u → t.issuer ≡ h → list_eq (p.to_hex u.issuer) (p.to_hex h) ≡ true
      matched u same e = rw (sym (ap (λ v. v.issuer) same)) (rw e (list_eq_refl (p.to_hex h)))
  active_of_issuer-In (u ∷ ts) t h (inr j) e = ground (arith, active_of_issuer-In ts t h j e)

  -- Without `--force` an issuer is only forgotten if no active tuple is its own. Either way it was
  -- in the cache, it no longer resolves, and every other issuer resolves as before.
  pub identity_forget_guarded :
      (hex : IsHex p) (force : Bool) (issuer other : Bytes) (s : StateVector) (r r' : Keyring)
      → identity_forget p force issuer s r ≡ ok r'
      → length other ≡ hash_size
      → (force ≡ false → (t : Tuple) → In t (active_tuples s) → t.issuer ≢ issuer)
        × (has p r issuer ≡ ok true)
        × (resolve p r' other ≡ (if list_eq issuer other then ok none else resolve p r other))
  unfolding identity_forget
  identity_forget_guarded hex force issuer other s r r' e size =
      let guard = force || not (ltb 0 (active_of_issuer p (active_tuples s) issuer)) in
      let (u, guarded, rest) = >>=-eq-ok (require guard error) _ e in
      let (answer, forgotten, rest') = >>=-eq-ok (forget p r issuer) _ rest in
      let (u', found, last) = >>=-eq-ok (require answer.0 error) _ rest' in
      let there : answer.0 ≡ true = require-eq-ok answer.0 error found in
      let (had, resolves) = resolve-forget p hex r answer.1 issuer other answer.0 forgotten size in
      let same : answer.1 ≡ r' = ok-injective last in
      (
        λ unforced t i own. ground (
          arith,
          require-eq-ok guard error guarded,
          active_of_issuer-In (active_tuples s) t issuer i own,
        ),
        had ∙ ap ok there,
        subst
            (λ q. resolve p q other ≡ (if list_eq issuer other then ok none else resolve p r other))
            same resolves,
      )
