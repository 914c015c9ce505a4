-- ===== src/Namespace/Parsing.antt =====
-- `split` and `parseObject` of namespace.js take apart what `:` and a last `*` put together.
use dacar.Common.{
  ◌≡◌, ◌≢◌, refl, sym, ap, List, [], ◌∷◌, ◌++◌, Text, true, false, arith, All, list_eq, list_eq_iff,
  list_eq→eq, ◌∙◌, Bool-cases, inl, inr,
}
use dacar.Namespace.{split, on_first, parse_object, pop_wildcard, delimiter, wildcard}

abbrev pub join : List Text → Text
join [] = []
join (s ∷ []) = s
join (s ∷ t ∷ ss) = s ++ delimiter ∷ join (t ∷ ss)

-- No segment has a `:` in it.
abbrev pub IsPlain : Text → Type 0
IsPlain = All (λ c. c ≢ delimiter)

split_plain : (s : Text) → IsPlain s → split s ≡ s ∷ []
unfolding split on_first
split_plain [] h = refl
split_plain (c ∷ s) h = ground (arith, h.0, split_plain s h.1)

split-append : (s t : Text) → IsPlain s → split (s ++ delimiter ∷ t) ≡ s ∷ split t
unfolding split on_first
split-append [] t h = refl
split-append (c ∷ s) t h = ground (arith, h.0, split-append s t h.1)

split-join : (s : Text) (ss : List Text) → All IsPlain (s ∷ ss) → split (join (s ∷ ss)) ≡ s ∷ ss
split-join s [] h = split_plain s h.0
split-join s (t ∷ ss) h = split-append s (join (t ∷ ss)) h.0 ∙ ap (λ r. s ∷ r) (split-join t ss h.1)

pop_wildcard-append :
    (ss : List Text)
    → pop_wildcard (ss ++ wildcard ∷ []) ≡ record { segments = ss; is_wildcard = true }
unfolding pop_wildcard list_eq
pop_wildcard-append [] = refl
pop_wildcard-append (s ∷ []) = refl
pop_wildcard-append (s ∷ t ∷ ss) = ground (arith, pop_wildcard-append (t ∷ ss))

-- The last of the segments is not `*`.
abbrev pub IsExact : Text → List Text → Type 0
IsExact s [] = s ≢ wildcard
IsExact s (t ∷ ss) = IsExact t ss

pop_wildcard_exact :
    (s : Text) (ss : List Text)
    → IsExact s ss
    → pop_wildcard (s ∷ ss) ≡ record { segments = s ∷ ss; is_wildcard = false }
unfolding pop_wildcard
pop_wildcard_exact s [] h = ground (arith, list_eq_iff s wildcard)
pop_wildcard_exact s (t ∷ ss) h = ground (arith, pop_wildcard_exact t ss h)

IsPlain-wildcard : IsPlain wildcard
IsPlain-wildcard = omega arith

split-wildcard : split wildcard ≡ wildcard ∷ []
split-wildcard = split_plain wildcard IsPlain-wildcard

exact_ne_wildcard :
    (s : Text) (ss : List Text) → All IsPlain (s ∷ ss) → IsExact s ss → join (s ∷ ss) ≢ wildcard
exact_ne_wildcard s [] plain exact e = exact e
exact_ne_wildcard s (t ∷ ss) plain exact e =
    cc (sym (split-join s (t ∷ ss) plain) ∙ ap split e ∙ split-wildcard)

-- Segments with no `:` in them, the last of which is not `*`, are what the parser finds in their
-- join, and it finds no wildcard.
pub parse_object-join :
    (s : Text) (ss : List Text)
    → All IsPlain (s ∷ ss)
    → IsExact s ss
    → parse_object (join (s ∷ ss)) ≡ record { segments = s ∷ ss; is_wildcard = false }
unfolding parse_object
parse_object-join s ss plain exact = ground (
  arith,
  list_eq→eq (join (s ∷ ss)) wildcard,
  exact_ne_wildcard s ss plain exact,
  split-join s ss plain,
  pop_wildcard_exact s ss exact,
)

All-wildcard : (ss : List Text) → All IsPlain ss → All IsPlain (ss ++ wildcard ∷ [])
All-wildcard [] h = (IsPlain-wildcard, tt)
All-wildcard (s ∷ ss) h = (h.0, All-wildcard ss h.1)

split-join-wildcard :
    (ss : List Text) → All IsPlain ss → split (join (ss ++ wildcard ∷ [])) ≡ ss ++ wildcard ∷ []
split-join-wildcard [] h = split-wildcard
split-join-wildcard (s ∷ ss) h = split-join s (ss ++ wildcard ∷ []) (All-wildcard (s ∷ ss) h)

only_wildcard : (ss : List Text) → ss ++ wildcard ∷ [] ≡ wildcard ∷ [] → ss ≡ []
only_wildcard [] e = refl
only_wildcard (s ∷ []) e = cc
only_wildcard (s ∷ t ∷ ss) e = cc

-- Segments with no `:` in them and a last segment `*` are parsed as a wildcard over the segments,
-- `*` alone as a wildcard over none.
pub parse_object-join-wildcard :
    (ss : List Text)
    → All IsPlain ss
    → parse_object (join (ss ++ wildcard ∷ [])) ≡ record { segments = ss; is_wildcard = true }
unfolding parse_object
parse_object-join-wildcard ss plain =
    elim (Bool-cases (list_eq (join (ss ++ wildcard ∷ [])) wildcard)) [
      | inl same ↦ rw same (
          ap (λ r. record { segments = r; is_wildcard = true })
            (sym (only_wildcard ss (collapse same))))
      | inr other ↦ rw (other, split-join-wildcard ss plain) (pop_wildcard-append ss)
    ]
  where
    collapse :
        list_eq (join (ss ++ wildcard ∷ [])) wildcard ≡ true → ss ++ wildcard ∷ [] ≡ wildcard ∷ []
    collapse same =
        sym (split-join-wildcard ss plain) ∙ ap split (list_eq→eq _ wildcard same) ∙ split-wildcard
