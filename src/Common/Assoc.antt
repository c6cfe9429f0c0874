-- ===== src/Common/Assoc.antt =====
-- A `Record<string, V>` and a `Set<string>` as association lists, in insertion order. Ids are
-- UUIDs, so the order that JavaScript gives to integer-like keys does not arise.
use Prim.Native.String.{String}
use mathlib.Core.Path.{◌≡◌, refl}
use mathlib.Core.Bool.{Bool, true, false}
use mathlib.Core.Option.{Option, none, some}
use mathlib.Core.List.{List, [], ◌∷◌}
use native.Mathlib.Omega.{arith}
use text.Mathlib.Text.{◌==◌ as str_eq}
use text.Mathlib.TextEquality.{eq_iff}
use open_pm.Common.Tests.{if◌then◌else◌, is_some}

abbrev pub Dict {ℓ} : Type ℓ → Type ℓ
Dict V = List (String × V)

module _ {ℓ} {V : Type ℓ} where
  -- `m[key]`, with `none` for `undefined`.
  unfoldable pub lookup : (key : String) → Dict V → Option V
  lookup key [] = none
  lookup key ((here, value) ∷ later) =
      let found = lookup key later in if str_eq here key then some value else found

  -- `{ ...m, [key]: value }`: a key that is there keeps its place.
  unfoldable pub insert : (key : String) → V → Dict V → Dict V
  insert key value [] = (key, value) ∷ []
  insert key value ((here, old) ∷ later) =
      let changed = insert key value later in
      if str_eq here key then (here, value) ∷ later else (here, old) ∷ changed

  -- `const { [key]: _, ...rest } = m`.
  unfoldable pub delete : (key : String) → Dict V → Dict V
  delete key [] = []
  delete key ((here, old) ∷ later) =
      let rest = delete key later in if str_eq here key then rest else (here, old) ∷ rest

  -- `key in m`.
  unfoldable pub has : (key : String) → Dict V → Bool
  has key [] = false
  has key ((here, value) ∷ later) = if str_eq here key then true else has key later

  pub lookup-insert :
      (key other : String) (value : V) (dict : Dict V)
      → lookup other (insert key value dict)
        ≡ (if str_eq key other then some value else lookup other dict)
  unfolding lookup insert
  lookup-insert key other value [] = refl
  lookup-insert key other value ((here, old) ∷ later) = ground (
    arith,
    lookup-insert key other value later,
    eq_iff here key,
    eq_iff here other,
    eq_iff key other,
  )

  pub lookup-delete :
      (key other : String) (dict : Dict V)
      → lookup other (delete key dict) ≡ (if str_eq key other then none else lookup other dict)
  unfolding lookup delete
  lookup-delete key other [] = ground arith
  lookup-delete key other ((here, old) ∷ later) =
      ground
        (arith, lookup-delete key other later, eq_iff here key, eq_iff here other, eq_iff key other)

  pub has-lookup : (key : String) (dict : Dict V) → has key dict ≡ is_some (lookup key dict)
  unfolding lookup has
  has-lookup key [] = refl
  has-lookup key ((here, value) ∷ later) = ground (arith, has-lookup key later)

-- The members of a `Set<string>`, in insertion order.
unfoldable pub contains : String → List String → Bool
contains k [] = false
contains k (j ∷ s) = if str_eq j k then true else contains k s

-- `next.add(k)`.
unfoldable pub add : String → List String → List String
add k [] = k ∷ []
add k (j ∷ s) = if str_eq j k then j ∷ s else j ∷ add k s

-- `next.delete(k)`.
unfoldable pub remove : String → List String → List String
remove k [] = []
remove k (j ∷ s) = let rest = remove k s in if str_eq j k then rest else j ∷ rest

pub contains-add :
    (k j : String) (s : List String)
    → contains j (add k s) ≡ (if str_eq k j then true else contains j s)
unfolding contains add
contains-add k j [] = refl
contains-add k j (i ∷ s) = ground (arith, eq_iff k j, eq_iff i k, eq_iff i j, contains-add k j s)

pub contains-remove :
    (k j : String) (s : List String)
    → contains j (remove k s) ≡ (if str_eq k j then false else contains j s)
unfolding contains remove
contains-remove k j [] = ground arith
contains-remove k j (i ∷ s) =
    ground (arith, eq_iff k j, eq_iff i k, eq_iff i j, contains-remove k j s)
