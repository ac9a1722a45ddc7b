-- ===== src/Common/Lists.antt =====
-- Lists measured by native numbers, under the library's names, and predicates over lists.
use Prim.Native.Nat.{ℕ, zero, suc, ◌+◌, min}
use mathlib.Core.Path.{◌≡◌, refl, ap}
use mathlib.Core.Bool.{Bool, true, false, ◌&&◌}
use mathlib.Core.List.{List, [], ◌∷◌, ◌++◌, map}
use mathlib.Core.Option
use mathlib.Core.Option.{Option, none, some}
use mathlib.Core.Logic.{◌↔◌, ◌⊎◌, inl, inr}
use native.Mathlib.Omega.{arith}
use razortrade.Common.Tests.{Bool-cases}

module _ {ℓ} {A : Type ℓ} where
  abbrev pub length : List A → ℕ
  length [] = 0
  length (x ∷ xs) = suc (length xs)

  abbrev pub head? : List A → Option A
  head? [] = none
  head? (x ∷ xs) = some x

  abbrev pub take : ℕ → List A → List A
  take zero xs = []
  take (suc n) [] = []
  take (suc n) (x ∷ xs) = x ∷ take n xs

  -- `Iterator::all`.
  abbrev pub all : (A → Bool) → List A → Bool
  all p [] = true
  all p (x ∷ xs) = p x && all p xs

  -- `Iterator::find`.
  abbrev pub find? : (A → Bool) → List A → Option A
  find? p [] = none
  find? p (x ∷ xs) = elim (p x) [ true ↦ some x | false ↦ find? p xs ]

  -- `Iterator::filter`.
  abbrev pub filter : (A → Bool) → List A → List A
  filter p [] = []
  filter p (x ∷ xs) = elim (p x) [ true ↦ x ∷ filter p xs | false ↦ filter p xs ]

  abbrev pub All {κ} : (A → Type κ) → List A → Type κ
  All P [] = Unit
  All P (x ∷ xs) = P x × All P xs

  pub length-append : (xs ys : List A) → length (xs ++ ys) ≡ length xs + length ys
  length-append [] ys = omega arith
  length-append (x ∷ xs) ys = omega (arith, length-append xs ys)

  pub length-take : (n : ℕ) (xs : List A) → length (take n xs) ≡ min n (length xs)
  length-take zero xs = omega arith
  length-take (suc n) [] = omega arith
  length-take (suc n) (x ∷ xs) = omega (arith, length-take n xs)

  pub All-append {κ} : (P : A → Type κ) (xs ys : List A) → All P xs → All P ys → All P (xs ++ ys)
  All-append P [] ys hx hy = hy
  All-append P (x ∷ xs) ys hx hy = (hx.0, All-append P xs ys hx.1 hy)

  pub All-take {κ} : (P : A → Type κ) (n : ℕ) (xs : List A) → All P xs → All P (take n xs)
  All-take P zero xs h = tt
  All-take P (suc n) [] h = tt
  All-take P (suc n) (x ∷ xs) h = (h.0, All-take P n xs h.1)

  pub All-map {κ ι} :
      (P : A → Type κ) (Q : A → Type ι) (f : (a : A) → P a → Q a) (xs : List A)
      → All P xs
      → All Q xs
  All-map P Q f [] h = tt
  All-map P Q f (x ∷ xs) h = (f x h.0, All-map P Q f xs h.1)

  pub All-filter {κ} :
      (P : A → Type κ) (p : A → Bool)
      → ((a : A) → p a ≡ true → P a)
      → (xs : List A) → All P (filter p xs)
  All-filter P p f [] = tt
  All-filter P p f (x ∷ xs) = elim (Bool-cases (p x)) [
    | inl e ↦ rw (filter, e) (f x e, All-filter P p f xs)
    | inr e ↦ rw (filter, e) (All-filter P p f xs)
  ]

pub find?-none :
    {A : Type 0} (P : A → Type 0) (p : A → Bool)
    → ((a : A) → P a → p a ≡ false)
    → (xs : List A) → All P xs
    → find? p xs ≡ none
find?-none P p refuses [] h = refl
find?-none P p refuses (x ∷ xs) h = rw (find?, refuses x h.0) (find?-none P p refuses xs h.1)

-- `a` is the first element that satisfies `P`.
abbrev pub IsFirst : {A : Type 0} → (A → Type 0) → List A → A → Type 0
IsFirst P [] a = ⊥
IsFirst P (x ∷ xs) a = (P x × (a ≡ x)) ⊎ ((¬ P x) × IsFirst P xs a)

-- The second list holds the elements of the first that satisfy `P`, in order, and no others.
pub data Selects {A : Type 0} (P : A → Type 0) : List A → List A → Type 0 where
  finished : Selects P [] []
  taken : {x : A} {xs ys : List A} → P x → Selects P xs ys → Selects P (x ∷ xs) (x ∷ ys)
  passed : {x : A} {xs ys : List A} → (¬ P x) → Selects P xs ys → Selects P (x ∷ xs) ys

module _ {A : Type 0} (P : A → Type 0) (p : A → Bool) (exact : (a : A) → (p a ≡ true) ↔ P a) where
  pub find?-IsFirst : (xs : List A) (a : A) → find? p xs ≡ some a → IsFirst P xs a
  find?-IsFirst [] a e = absurd (ground arith)
  find?-IsFirst (x ∷ xs) a e = elim (Bool-cases (p x)) [
    | inl t ↦ inl ((exact x).0 t, ground arith)
    | inr f ↦ inr (
      λ h. absurd (let t = (exact x).1 h in ground arith),
      find?-IsFirst xs a (rw (find?, f) at e),
    )
  ]

  pub filter-Selects : (xs : List A) → Selects P xs (filter p xs)
  filter-Selects [] = finished
  filter-Selects (x ∷ xs) = elim (Bool-cases (p x)) [
    | inl t ↦ rw (filter, t) (taken ((exact x).0 t) (filter-Selects xs))
    | inr f ↦
        rw (filter, f)
          (passed (λ h. absurd (let t = (exact x).1 h in ground arith)) (filter-Selects xs))
  ]

pub length-map {ℓ κ} :
    {A : Type ℓ} {B : Type κ} (f : A → B) (xs : List A) → length (map f xs) ≡ length xs
length-map f [] = refl
length-map f (x ∷ xs) = ap suc (length-map f xs)

pub head-map {ℓ κ} :
    {A : Type ℓ} {B : Type κ} (f : A → B) (xs : List A) → head? (map f xs) ≡ Option.map f (head? xs)
head-map f [] = refl
head-map f (x ∷ xs) = refl
