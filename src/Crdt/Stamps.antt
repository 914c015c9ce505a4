-- ===== src/Crdt/Stamps.antt =====
-- The state of crdt.js seen as a function: for each key the latest grant and the latest revocation.
-- Stamps are joined by the maximum.
use dacar.Common.{
  ℕ, ◌≤◌, ◌≡◌, refl, ap, subst, ◌∙◌, Bool, true, false, ltb, list_eq, list_eq→eq, Bool-cases, inl,
  inr, if◌then◌else◌, Option, none, some, Text, arith,
}
use dacar.JsMap
use dacar.JsMap.Laws.{get-set}
use dacar.Platform.{Platform}
use dacar.Tuple.{Tuple, key}
use dacar.Operation.{Operation, Action, revoke, grant}
use dacar.Crdt.{
  StateVector, Entry, max_ts, max_both, entry_or_new, stamp, update, is_active, active_entry,
  is_active_entry,
}

pub record Stamps : Type 0 where
  pub added : Option ℕ
  pub removed : Option ℕ

abbrev pub bottom : Stamps
bottom = record { added = none; removed = none }

abbrev pub stamps_of : Option Entry → Stamps
stamps_of none = bottom
stamps_of (some e) = record { added = e.add_ts; removed = e.remove_ts }

abbrev pub stamps_at : StateVector → Text → Stamps
stamps_at s k = stamps_of (JsMap.get s.entries k)

abbrev pub join : Stamps → Stamps → Stamps
join a b = record { added = max_both a.added b.added; removed = max_both a.removed b.removed }

-- A tuple is active if it was granted, and later than it was revoked.
abbrev pub active_stamps : Stamps → Bool
active_stamps a = elim a.added [
  | none ↦ false
  | some added ↦ elim a.removed [ none ↦ true | some removed ↦ ltb removed added ]
]

pub is_active-stamps : (s : StateVector) (k : Text) → is_active s k ≡ active_stamps (stamps_at s k)
unfolding is_active active_entry is_active_entry
is_active-stamps s k = go (JsMap.get s.entries k)
  where
    go : (o : Option Entry) → active_entry o ≡ active_stamps (stamps_of o)
    go none = refl
    go (some e) = refl

pub max_both_comm : (a b : Option ℕ) → max_both a b ≡ max_both b a
unfolding max_both
max_both_comm a b = ground arith

pub max_both_assoc : (a b c : Option ℕ) → max_both (max_both a b) c ≡ max_both a (max_both b c)
unfolding max_both
max_both_assoc a b c = ground arith

pub max_both_self : (a : Option ℕ) → max_both a a ≡ a
unfolding max_both
max_both_self a = ground arith

pub max_both-none : (a : Option ℕ) → max_both a none ≡ a
unfolding max_both
max_both-none a = ground arith

pub join_comm : (a b : Stamps) → join a b ≡ join b a
join_comm a b = cc (max_both_comm a.added b.added, max_both_comm a.removed b.removed)

pub join_assoc : (a b c : Stamps) → join (join a b) c ≡ join a (join b c)
join_assoc a b c =
    cc (max_both_assoc a.added b.added c.added, max_both_assoc a.removed b.removed c.removed)

pub join-bottom : (a : Stamps) → join a bottom ≡ a
join-bottom a = cc (max_both-none a.added, max_both-none a.removed)

-- The order of the join.
abbrev pub Before : Option ℕ → Option ℕ → Type 0
Before none b = Unit
Before (some a) none = ⊥
Before (some a) (some b) = a ≤ b

infix 50 ◌⊑◌
abbrev pub ◌⊑◌ : Stamps → Stamps → Type 0
a ⊑ b = Before a.added b.added × Before a.removed b.removed

Before-antisym : (a b : Option ℕ) → Before a b → Before b a → a ≡ b
Before-antisym none none h k = refl
Before-antisym none (some b) h k = absurd k
Before-antisym (some a) none h k = absurd h
Before-antisym (some a) (some b) h k = ap some (omega arith)

pub ⊑-antisym : (a b : Stamps) → a ⊑ b → b ⊑ a → a ≡ b
⊑-antisym a b h k =
    cc (Before-antisym a.added b.added h.0 k.0, Before-antisym a.removed b.removed h.1 k.1)

Before-refl : (a : Option ℕ) → Before a a
Before-refl none = tt
Before-refl (some a) = omega arith

Before-trans : (a b c : Option ℕ) → Before a b → Before b c → Before a c
Before-trans none b c h k = tt
Before-trans (some a) none c h k = absurd h
Before-trans (some a) (some b) none h k = absurd k
Before-trans (some a) (some b) (some c) h k = omega arith

Before-max_left : (a b : Option ℕ) → Before a (max_both a b)
unfolding max_both
Before-max_left none b = tt
Before-max_left (some a) none = omega arith
Before-max_left (some a) (some b) = ground arith

max_both-Before : (a b u : Option ℕ) → Before a u → Before b u → Before (max_both a b) u
unfolding max_both
max_both-Before none b u h k = k
max_both-Before (some a) none u h k = h
max_both-Before (some a) (some b) none h k = absurd h
max_both-Before (some a) (some b) (some u) h k = ground arith

pub ⊑-join_left : (a b : Stamps) → a ⊑ join a b
⊑-join_left a b = (Before-max_left a.added b.added, Before-max_left a.removed b.removed)

pub ⊑-join_right : (a b : Stamps) → b ⊑ join a b
⊑-join_right a b = subst (λ j. b ⊑ j) (join_comm b a) (⊑-join_left b a)

pub ⊑-trans : (a b c : Stamps) → a ⊑ b → b ⊑ c → a ⊑ c
⊑-trans a b c h k = (
  Before-trans a.added b.added c.added h.0 k.0,
  Before-trans a.removed b.removed c.removed h.1 k.1,
)

pub join-⊑ : (a b u : Stamps) → a ⊑ u → b ⊑ u → join a b ⊑ u
join-⊑ a b u h k = (
  max_both-Before a.added b.added u.added h.0 k.0,
  max_both-Before a.removed b.removed u.removed h.1 k.1,
)

-- What one operation contributes at its own key.
abbrev pub stamps_by : Action → ℕ → Stamps
stamps_by grant hlc = record { added = some hlc; removed = none }
stamps_by revoke hlc = record { added = none; removed = some hlc }

stamps-stamp :
    (found : Option Entry) (t : Tuple) (a : Action) (hlc : ℕ)
    → stamps_of (some (stamp (entry_or_new found t) a hlc))
      ≡ join (stamps_of found) (stamps_by a hlc)
unfolding max_ts max_both
stamps-stamp found t a hlc = ground arith

-- An update joins the operation's stamp at its key, and leaves every other key as it was.
pub stamps-update :
    (p : Platform) (s : StateVector) (o : Operation) (k : Text)
    → stamps_at (update p s o) k ≡ (
        if list_eq (key p o.tuple) k
        then join (stamps_at s k) (stamps_by o.action o.hlc)
        else stamps_at s k)
unfolding update
stamps-update p s o k = elim (Bool-cases (list_eq (key p o.tuple) k)) [
  | inl same ↦
      rw (get-set s.entries (key p o.tuple) k _, same)
        (stamps-stamp (JsMap.get s.entries (key p o.tuple)) o.tuple o.action o.hlc
          ∙ ap (λ j. join (stamps_at s j) (stamps_by o.action o.hlc)) (list_eq→eq _ _ same))
  | inr other ↦ rw (get-set s.entries (key p o.tuple) k _, other) refl
]
