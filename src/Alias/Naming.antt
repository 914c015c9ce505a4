-- ===== src/Alias/Naming.antt =====
-- Whom the names of the registry in cli/store.js stand for after a change.
use dacar.Common.{
  ◌≡◌, refl, true, false, list_eq, list_eq→eq, list_eq_refl, List, [], ◌∷◌, ◌++◌, Option, none,
  some, Bytes, Text, arith, Bool-cases, inl, inr,
}
use dacar.Alias.{
  AliasEntry, self_alias, includes, named, add, without, unless_nameless, strip, set_self, resolve,
}

includes-append : (ns : List Text) (name : Text) → includes (ns ++ name ∷ []) name ≡ true
unfolding includes
includes-append [] name = rw (list_eq_refl name) refl
includes-append (n ∷ ns) name = ground (arith, includes-append ns name)

includes-named :
    (e : AliasEntry) (name : Text) (remark : Option Text)
    → includes (named e name remark).names name ≡ true
unfolding named
includes-named e name remark = ground (arith, includes-append e.names name)

includes-without : (ns : List Text) (name : Text) → includes (without ns name) name ≡ false
unfolding includes without
includes-without [] name = refl
includes-without (n ∷ ns) name = ground (arith, includes-without ns name)

resolve-strip : (es : List AliasEntry) (name : Text) → resolve (strip es name) name ≡ none
unfolding resolve strip unless_nameless
resolve-strip [] name = refl
resolve-strip (e ∷ es) name = ground (arith, includes-without e.names name, resolve-strip es name)

-- A name that stands for nobody is given to the hash that it is added for.
resolve-add :
    (es : List AliasEntry) (name : Text) (hash : Bytes) (remark : Option Text)
    → resolve es name ≡ none
    → resolve (add es name hash remark) name ≡ some hash
unfolding resolve add includes
resolve-add [] name hash remark free = ground (arith, list_eq_refl name)
resolve-add (e ∷ es) name hash remark free = elim (Bool-cases (list_eq e.hash hash)) [
  | inl same ↦ ground (arith, includes-named e name remark, list_eq→eq e.hash hash same)
  | inr other ↦ ground (arith, resolve-add es name hash remark)
]

-- After `setSelf` the name `self` stands for the hash given, whatever names were there before.
pub resolve-set_self :
    (es : List AliasEntry) (hash : Bytes) → resolve (set_self es hash) self_alias ≡ some hash
unfolding set_self
resolve-set_self es hash =
    resolve-add (strip es self_alias) self_alias hash none (resolve-strip es self_alias)
