-- ===== src/Base/Lists.antt =====
-- Lists as JavaScript arrays use them.
use Prim.Native.Nat.{ℕ, suc, zero, ◌-◌, ◌≤◌, ◌+◌}
use mathlib.Core.Bool.{Bool, true, false, ◌||◌}
use mathlib.Core.Path.{◌≡◌, refl}
use mathlib.Core.Logic.{◌⊎◌}
use mathlib.Core.Option.{Option, none, some}
use mathlib.Core.List.{List, [], ◌∷◌, ◌++◌}
use native.Mathlib.Omega.{arith}
use finance_agent_os.Base.Tests.{if◌then◌else◌, ltb}

module _ {ℓ} {A : Type ℓ} where
  abbrev pub length : List A → ℕ
  length [] = 0
  length (x ∷ xs) = suc (length xs)

  abbrev pub drop : ℕ → List A → List A
  drop zero xs = xs
  drop (suc n) [] = []
  drop (suc n) (x ∷ xs) = drop n xs

  -- `xs.filter(p)`
  abbrev pub filter : (A → Bool) → List A → List A
  filter p [] = []
  filter p (x ∷ xs) = let rest = filter p xs in if p x then x ∷ rest else rest

  -- `xs.some(p)`
  abbrev pub any : (A → Bool) → List A → Bool
  any p [] = false
  any p (x ∷ xs) = p x || any p xs

  -- Every element has the property; some element has it.
  abbrev pub All : (A → Type 0) → List A → Type 0
  All P [] = Unit
  All P (x ∷ xs) = P x × All P xs

  abbrev pub Any : (A → Type 0) → List A → Type 0
  Any P [] = ⊥
  Any P (x ∷ xs) = P x ⊎ Any P xs

  pub All-append : (P : A → Type 0) (xs ys : List A) → All P xs → All P ys → All P (xs ++ ys)
  All-append P [] ys a b = b
  All-append P (x ∷ xs) ys (p, a) b = (p, All-append P xs ys a b)

  -- An element that is put in front on a test has the property where the test holds.
  pub All-cons_if :
      (P : A → Type 0) (b : Bool) (x : A) (xs : List A)
      → (b ≡ true → P x)
      → All P xs
      → All P (if b then x ∷ xs else xs)
  All-cons_if P true x xs h a = (h refl, a)
  All-cons_if P false x xs h a = a

  -- `xs.splice(0, xs.length - max)` where the length exceeds `max`: the newest `max` entries stay.
  pub keep_last : ℕ → List A → List A
  keep_last max xs = if ltb max (length xs) then drop (length xs - max) xs else xs

  pub length-append : (xs ys : List A) → length (xs ++ ys) ≡ length xs + length ys
  length-append [] ys = omega arith
  length-append (x ∷ xs) ys = omega (arith, length-append xs ys)

  pub length-drop : (n : ℕ) (xs : List A) → length (drop n xs) ≡ length xs - n
  length-drop zero xs = omega arith
  length-drop (suc n) [] = omega arith
  length-drop (suc n) (x ∷ xs) = omega (arith, length-drop n xs)

  pub length-keep_last : (max : ℕ) (xs : List A) → length (keep_last max xs) ≤ max
  unfolding keep_last
  length-keep_last max xs = ground (arith, length-drop (length xs - max) xs)

  -- Appending to a list that is within the bound loses at most the oldest entry.
  pub keep_last-append_room :
      (max : ℕ) (xs ys : List A) → length xs + length ys ≤ max → keep_last max (xs ++ ys) ≡ xs ++ ys
  unfolding keep_last
  keep_last-append_room max xs ys h = ground (arith, length-append xs ys)

-- The first element that has the property, `none` where there is none.
pub data First {ℓ} {A : Type ℓ} (P : A → Type 0) : List A → Option A → Type ℓ where
  nowhere : First P [] none
  here : {x : A} {xs : List A} → P x → First P (x ∷ xs) (some x)
  later : {x : A} {xs : List A} {o : Option A} → ¬ (P x) → First P xs o → First P (x ∷ xs) o

pub First-unique {ℓ} :
    {A : Type ℓ} (P : A → Type 0) (xs : List A) {o o' : Option A}
    → First P xs o
    → First P xs o'
    → o ≡ o'
First-unique P [] nowhere nowhere = refl
First-unique P (x ∷ xs) (here p) (here q) = refl
First-unique P (x ∷ xs) (here p) (later n f) = absurd (n p)
First-unique P (x ∷ xs) (later n f) (here p) = absurd (n p)
First-unique P (x ∷ xs) (later n f) (later m g) = First-unique P xs f g

-- A search that tests each element in turn finds the first.
pub First-step {ℓ} :
    {A : Type ℓ} (P : A → Type 0) (b : Bool) (x : A) (xs : List A) (o : Option A)
    → (b ≡ true → P x)
    → (b ≡ false → ¬ (P x))
    → First P xs o
    → First P (x ∷ xs) (if b then some x else o)
First-step P true x xs o h n f = here (h refl)
First-step P false x xs o h n f = later (n refl) f
