-- ===== src/Base/Maps.antt =====
-- A JavaScript `Map` with string keys, in insertion order: `get`, `set`, `delete` and `values`.
use Prim.Native.String.{String}
use mathlib.Core.Path.{◌≡◌, refl}
use mathlib.Core.Option.{Option, none, some}
use mathlib.Core.List.{List, [], ◌∷◌}
use native.Mathlib.Omega.{arith}
use finance_agent_os.Base.Tests.{if◌then◌else◌}
use finance_agent_os.Base.Text.{◌==◌, eq_iff}

abbrev pub Dict {ℓ} : Type ℓ → Type ℓ
Dict V = List (String × V)

module _ {ℓ} {V : Type ℓ} where
  -- `set` leaves an entry that is there in its place.
  unfoldable pub insert : String → V → Dict V → Dict V
  insert key value [] = (key, value) ∷ []
  insert key value ((own, old) ∷ rest) =
      let later = insert key value rest in
      if own == key then (key, value) ∷ rest else (own, old) ∷ later

  -- A `Map` holds a key once; here every entry with the key goes.
  unfoldable pub remove : String → Dict V → Dict V
  remove key [] = []
  remove key ((own, old) ∷ rest) =
      let later = remove key rest in if own == key then later else (own, old) ∷ later

  unfoldable pub lookup : String → Dict V → Option V
  lookup key [] = none
  lookup key ((own, value) ∷ rest) = if own == key then some value else lookup key rest

  abbrev pub values : Dict V → List V
  values [] = []
  values ((own, value) ∷ rest) = value ∷ values rest

  pub lookup-remove :
      (gone key : String) (m : Dict V)
      → lookup key (remove gone m) ≡ (if gone == key then none else lookup key m)
  unfolding lookup remove
  lookup-remove gone key [] = ground arith
  lookup-remove gone key ((own, old) ∷ rest) =
      let tail = lookup-remove gone key rest in
      ground (arith, tail, eq_iff own gone, eq_iff own key, eq_iff gone key)

  pub lookup-insert :
      (set_key key : String) (value : V) (entries : Dict V)
      → lookup key (insert set_key value entries)
        ≡ (if set_key == key then some value else lookup key entries)
  unfolding insert lookup
  lookup-insert set_key key value [] = refl
  lookup-insert set_key key value ((own, old) ∷ rest) =
      let tail = lookup-insert set_key key value rest in
      ground (arith, tail, eq_iff own set_key, eq_iff own key, eq_iff set_key key)

pub lookup-empty {ℓ} : {V : Type ℓ} (k : String) → lookup {V = V} k [] ≡ none
unfolding lookup
lookup-empty k = refl

pub ruleset dict_laws = (lookup-insert, lookup-remove, lookup-empty)
