-- ===== src/Alias.antt =====
-- cli/store.js: the class `AliasRegistry` in memory, the names that a user gives to identities. Its
-- text format is not modelled.
pub mod Naming
use dacar.Common.{
  ℕ, Bool, true, false, ◌||◌, ltb, not, ◌==◌, if◌then◌else◌, list_eq, List, [], ◌∷◌, ◌++◌, Option,
  none, some, Bytes, Text, codes, length,
}

abbrev pub self_alias : Text
self_alias = codes "self"

pub record AliasEntry : Type 0 where
  pub hash : Bytes
  pub names : List Text
  pub note : Option Text

-- `names.includes(name)`
unfoldable pub includes : List Text → Text → Bool
includes [] name = false
includes (n ∷ ns) name = list_eq n name || includes ns name

-- `_entryFor`
unfoldable pub entry_for : List AliasEntry → Bytes → Option AliasEntry
entry_for [] hash = none
entry_for (e ∷ es) hash =
    let rest = entry_for es hash in if list_eq e.hash hash then some e else rest

abbrev pub or_old : Option Text → Option Text → Option Text
or_old none old = old
or_old (some note) old = some note

-- One more name of an entry that is there.
unfoldable pub named : AliasEntry → Text → Option Text → AliasEntry
named e name note = record e {
  names = if includes e.names name then e.names else e.names ++ name ∷ [];
  note = or_old note e.note;
}

-- The first entry of the hash is changed, or a new one is put at the end.
unfoldable pub add : List AliasEntry → Text → Bytes → Option Text → List AliasEntry
unfolding named
add [] name hash note = record { hash = hash; names = name ∷ []; note = note } ∷ []
add (e ∷ es) name hash note =
    let rest = add es name hash note in
    if list_eq e.hash hash then named e name note ∷ es else e ∷ rest

-- `names.filter((n) => n !== name)`
unfoldable pub without : List Text → Text → List Text
without [] name = []
without (n ∷ ns) name = let rest = without ns name in if list_eq n name then rest else n ∷ rest

-- An entry in front of others, unless it has no name left.
unfoldable pub unless_nameless : AliasEntry → List AliasEntry → List AliasEntry
unless_nameless e es = if ltb 0 (length e.names) then e ∷ es else es

unfoldable pub strip : List AliasEntry → Text → List AliasEntry
strip [] name = []
strip (e ∷ es) name = unless_nameless (record e { names = without e.names name }) (strip es name)

unfoldable pub set_self : List AliasEntry → Bytes → List AliasEntry
set_self es hash = add (strip es self_alias) self_alias hash none

-- `splice(indexOf(name), 1)`
unfoldable pub without_first : List Text → Text → List Text
without_first [] name = []
without_first (n ∷ ns) name =
    let rest = without_first ns name in if list_eq n name then ns else n ∷ rest

-- The answer, and the entries as the call leaves them.
unfoldable pub remove : List AliasEntry → Text → Bool × List AliasEntry
remove [] name = (false, [])
remove (e ∷ es) name =
    let (found, rest) = remove es name in
    if includes e.names name
    then (true, unless_nameless (record e { names = without_first e.names name }) es)
    else (found, e ∷ rest)

unfoldable pub resolve : List AliasEntry → Text → Option Bytes
resolve [] name = none
resolve (e ∷ es) name =
    let rest = resolve es name in if includes e.names name then some e.hash else rest

unfoldable pub names_for : List AliasEntry → Bytes → List Text
names_for es hash = elim (entry_for es hash) [ none ↦ [] | some e ↦ e.names ]

abbrev first_name : List Text → Option Text
first_name [] = none
first_name (n ∷ ns) = some n

unfoldable pub primary_name : List AliasEntry → Bytes → Option Text
primary_name es hash = first_name (names_for es hash)
