-- ===== src/Prelude/Sets.antt =====
-- The standard library's ordered sets and maps over texts (`BTreeSet<String>`, `BTreeMap<String, V>`)
-- as lists that are sorted by bytes.
use Prim.Native.Nat.{suc}
use mathlib.Core.Path.{◌≡◌, refl}
use mathlib.Core.Bool.{Bool, true, false, not, ◌&&◌, ◌||◌}
use mathlib.Core.Option.{Option, none, some}
use mathlib.Core.List.{List, [], ◌∷◌}
use native.Mathlib.Omega.{arith}
use pi_agent_core_rs.Prelude.Tests.{◌==◌, ltb, if◌then◌else◌}
use pi_agent_core_rs.Prelude.Lists.{length}
use pi_agent_core_rs.Prelude.Bytes.{Text, text_eq, text_eq_iff}

-- The order of `String`: by bytes.
unfoldable pub text_lt : Text → Text → Bool
text_lt _ [] = false
text_lt [] (_ ∷ _) = true
text_lt (a ∷ s) (b ∷ t) = ltb a b || (a == b && text_lt s t)

-- `BTreeSet::contains`.
unfoldable pub set_contains : Text → List Text → Bool
set_contains k [] = false
set_contains k (j ∷ s) = text_eq j k || set_contains k s

insert_sorted : Text → List Text → List Text
unfolding text_lt
insert_sorted k [] = k ∷ []
insert_sorted k (j ∷ s) = if text_lt k j then k ∷ j ∷ s else j ∷ insert_sorted k s

-- The set after `BTreeSet::insert`; its result is the negation of `set_contains` before.
unfoldable pub set_insert : Text → List Text → List Text
unfolding insert_sorted set_contains
set_insert k s = if set_contains k s then s else insert_sorted k s

-- The set after `BTreeSet::remove`; its result is `set_contains` before.
unfoldable pub set_remove : Text → List Text → List Text
set_remove k [] = []
set_remove k (j ∷ s) = let rest = set_remove k s in if text_eq j k then rest else j ∷ rest

insert_sorted-contains :
    (k j : Text) (s : List Text)
    → set_contains j (insert_sorted k s) ≡ (text_eq k j || set_contains j s)
unfolding set_contains insert_sorted
insert_sorted-contains k j [] = refl
insert_sorted-contains k j (i ∷ s) = ground (arith, insert_sorted-contains k j s)

set_contains-text_eq :
    (k j : Text) (s : List Text)
    → set_contains k s ≡ true
    → text_eq k j ≡ true
    → set_contains j s ≡ true
set_contains-text_eq k j s h e = rw ((text_eq_iff k j).0 e) at h

pub set_contains-insert :
    (k j : Text) (s : List Text)
    → set_contains j (set_insert k s) ≡ (text_eq k j || set_contains j s)
unfolding set_insert
set_contains-insert k j s = ground (arith, insert_sorted-contains k j s, set_contains-text_eq k j s)

pub set_contains-remove :
    (k j : Text) (s : List Text)
    → set_contains j (set_remove k s) ≡ (not (text_eq k j) && set_contains j s)
unfolding set_contains set_remove
set_contains-remove k j [] = ground arith
set_contains-remove k j (i ∷ s) =
    ground (arith, text_eq_iff k j, text_eq_iff i k, text_eq_iff i j, set_contains-remove k j s)

length-insert_sorted : (k : Text) (s : List Text) → length (insert_sorted k s) ≡ suc (length s)
unfolding insert_sorted
length-insert_sorted k [] = refl
length-insert_sorted k (i ∷ s) = ground (arith, length-insert_sorted k s)

-- A new element makes the set longer by one.
pub length-set_insert :
    (k : Text) (s : List Text) → set_contains k s ≡ false → length (set_insert k s) ≡ suc (length s)
unfolding set_insert
length-set_insert k s h = rw h (length-insert_sorted k s)

pub set_remove_absent : (k : Text) (s : List Text) → set_contains k s ≡ false → set_remove k s ≡ s
unfolding set_contains set_remove
set_remove_absent k [] h = refl
set_remove_absent k (j ∷ s) h = ground (arith, set_remove_absent k s)

module _ {ℓ} {V : Type ℓ} where
  -- `BTreeMap::get`.
  unfoldable pub lookup : Text → List (Text × V) → Option V
  lookup k [] = none
  lookup k ((j, v) ∷ m) = if text_eq j k then some v else lookup k m

  -- The map after `BTreeMap::insert`; its result is `lookup` before.
  unfoldable pub insert : Text → V → List (Text × V) → List (Text × V)
  unfolding text_lt
  insert k v [] = (k, v) ∷ []
  insert k v ((j, w) ∷ m) =
      if text_eq j k
      then (k, v) ∷ m
      else if text_lt k j
      then (k, v) ∷ (j, w) ∷ m
      else (j, w) ∷ insert k v m

  -- The map after `BTreeMap::remove`; its result is `lookup` before.
  unfoldable pub remove : Text → List (Text × V) → List (Text × V)
  remove k [] = []
  remove k ((j, v) ∷ m) = let rest = remove k m in if text_eq j k then rest else (j, v) ∷ rest

  pub lookup-insert :
      (k j : Text) (v : V) (m : List (Text × V))
      → lookup j (insert k v m) ≡ (if text_eq k j then some v else lookup j m)
  unfolding lookup insert
  lookup-insert k j v [] = refl
  lookup-insert k j v ((i, w) ∷ m) =
      ground (arith, text_eq_iff k j, text_eq_iff i k, text_eq_iff i j, lookup-insert k j v m)

  pub lookup-remove :
      (k j : Text) (m : List (Text × V))
      → lookup j (remove k m) ≡ (if text_eq k j then none else lookup j m)
  unfolding lookup remove
  lookup-remove k j [] = ground arith
  lookup-remove k j ((i, w) ∷ m) =
      ground (arith, text_eq_iff k j, text_eq_iff i k, text_eq_iff i j, lookup-remove k j m)
