-- ===== src/Common/Lists.antt =====
-- Lists measured by native numbers, Boolean quantifiers, and predicates by recursion.
use Prim.Native.Nat.{ℕ, zero, suc, ◌+◌, ◌-◌, ◌≤◌}
use mathlib.Core.Path.{◌≡◌, refl, ap, sym, ◌∙◌, subst}
use mathlib.Core.Logic.{◌⊎◌, inl, inr, ◌↔◌}
use mathlib.Core.Bool.{Bool, true, false, ◌&&◌, ◌||◌, false≢true}
use eyeflow.Common.Tests.{Bool-cases}
use mathlib.Core.List.{List, [], ◌∷◌, ◌++◌}
use mathlib.Core.Option.{Option, none, some}
use native.Mathlib.Omega.{arith}

pub data Empty {ℓ} : Type ℓ where

module _ {ℓ} {A : Type ℓ} where
  abbrev pub length : List A → ℕ
  length [] = 0
  length (x ∷ xs) = suc (length xs)

  -- `xs[i]`
  abbrev pub get_elem? : List A → ℕ → Option A
  get_elem? [] i = none
  get_elem? (x ∷ xs) zero = some x
  get_elem? (x ∷ xs) (suc i) = get_elem? xs i

  abbrev pub drop : ℕ → List A → List A
  drop zero xs = xs
  drop (suc n) [] = []
  drop (suc n) (x ∷ xs) = drop n xs

  -- `xs.filter(p)`
  abbrev pub keep : (A → Bool) → List A → List A
  keep p [] = []
  keep p (x ∷ xs) = let rest = keep p xs in elim (p x) [ true ↦ x ∷ rest | false ↦ rest ]

  -- `xs.some(p)`
  abbrev pub any : (A → Bool) → List A → Bool
  any p [] = false
  any p (x ∷ xs) = p x || any p xs

  -- `xs.every(p)`
  abbrev pub all : (A → Bool) → List A → Bool
  all p [] = true
  all p (x ∷ xs) = p x && all p xs

  -- `xs[0]`
  abbrev pub head? : List A → Option A
  head? [] = none
  head? (x ∷ xs) = some x

  -- The last element: `xs[xs.length - 1]`.
  abbrev pub last? : List A → Option A
  last? [] = none
  last? (x ∷ []) = some x
  last? (x ∷ y ∷ xs) = last? (y ∷ xs)

  abbrev pub All {κ} : (A → Type κ) → List A → Type κ
  All P [] = Unit
  All P (x ∷ xs) = P x × All P xs

  -- Membership as a chain of choices.
  abbrev pub In : A → List A → Type ℓ
  In a [] = Empty {ℓ}
  In a (x ∷ xs) = (a ≡ x) ⊎ In a xs

module _ {ℓ} {A : Type ℓ} where
  pub length-append : (xs ys : List A) → length (xs ++ ys) ≡ length xs + length ys
  length-append [] ys = omega arith
  length-append (x ∷ xs) ys = omega (arith, length-append xs ys)

  pub length-drop : (n : ℕ) (xs : List A) → length (drop n xs) ≡ length xs - n
  length-drop zero xs = omega arith
  length-drop (suc n) [] = omega arith
  length-drop (suc n) (x ∷ xs) = omega (arith, length-drop n xs)

  pub drop-append : (n : ℕ) (xs ys : List A) → n ≤ length xs → drop n xs ++ ys ≡ drop n (xs ++ ys)
  drop-append zero xs ys h = refl
  drop-append (suc n) [] ys h = absurd (omega arith)
  drop-append (suc n) (x ∷ xs) ys h = drop-append n xs ys (omega arith)

  -- Dropping twice; the sum is a variable with an equation.
  pub drop-drop : (m n k : ℕ) (xs : List A) → m + n ≡ k → drop m (drop n xs) ≡ drop k xs
  drop-drop m zero k xs h = let e : m ≡ k = omega arith in ap (λ i. drop i xs) e
  drop-drop zero (suc n) zero xs h = absurd (omega arith)
  drop-drop zero (suc n) (suc k) xs h = let e : suc n ≡ suc k = omega arith in ap (λ i. drop i xs) e
  drop-drop (suc m) (suc n) zero xs h = absurd (omega arith)
  drop-drop (suc m) (suc n) (suc k) [] h = refl
  drop-drop (suc m) (suc n) (suc k) (x ∷ xs) h = drop-drop (suc m) n k xs (omega arith)

  pub drop_zero_of : (n : ℕ) (xs : List A) → n ≡ 0 → drop n xs ≡ xs
  drop_zero_of n xs h = ap (λ i. drop i xs) h

  pub length-keep : (p : A → Bool) (xs : List A) → length (keep p xs) ≤ length xs
  length-keep p [] = omega arith
  length-keep p (x ∷ xs) = ground (arith, length-keep p xs)

  -- What a filter keeps.
  pub In-keep : (p : A → Bool) (a : A) (xs : List A) → In a (keep p xs) ↔ (In a xs × (p a ≡ true))
  In-keep p a [] = (λ h. elim h [ ], λ h. elim h.0 [ ])
  In-keep p a (x ∷ xs) = go (p x) refl (In-keep p a xs)
    where
      go :
          (b : Bool)
          → p x ≡ b
          → In a (keep p xs) ↔ (In a xs × (p a ≡ true))
          → In a (elim b [ true ↦ x ∷ keep p xs | false ↦ keep p xs ])
            ↔ (((a ≡ x) ⊎ In a xs) × (p a ≡ true))
      go true e ih = (
        λ h. elim h [
          | inl same ↦ (inl same, ap p same ∙ e)
          | inr later ↦ (inr (ih.0 later).0, (ih.0 later).1)
        ],
        λ h. elim h.0 [ inl same ↦ inl same | inr later ↦ inr (ih.1 (later, h.1)) ],
      )
      go false e ih = (
        λ h. (inr (ih.0 h).0, (ih.0 h).1),
        λ h. elim h.0 [
          | inl same ↦ absurd (false≢true (sym e ∙ sym (ap p same) ∙ h.1))
          | inr later ↦ ih.1 (later, h.1)
        ],
      )

  pub In-any : (p : A → Bool) (xs : List A) → any p xs ≡ true → (a : A) × In a xs × (p a ≡ true)
  In-any p [] h = cc
  In-any p (x ∷ xs) h = elim (Bool-cases (p x)) [
    | inl here ↦ (x, inl refl, here)
    | inr not_here ↦ let (a, m, q) = In-any p xs (rw not_here at h) in (a, inr m, q)
  ]

  pub any-In : (p : A → Bool) (a : A) (xs : List A) → In a xs → p a ≡ true → any p xs ≡ true
  any-In p a [] h q = elim h [ ]
  any-In p a (x ∷ xs) (inl same) q = rw (sym (ap p same) ∙ q)
  any-In p a (x ∷ xs) (inr later) q = ground (arith, any-In p a xs later q)

  pub In-append_right : (a : A) (xs ys : List A) → In a ys → In a (xs ++ ys)
  In-append_right a [] ys h = h
  In-append_right a (x ∷ xs) ys h = inr (In-append_right a xs ys h)

  pub In-append_left : (a : A) (xs ys : List A) → In a xs → In a (xs ++ ys)
  In-append_left a [] ys h = elim h [ ]
  In-append_left a (x ∷ xs) ys (inl same) = inl same
  In-append_left a (x ∷ xs) ys (inr later) = inr (In-append_left a xs ys later)

  pub In-append : (a : A) (xs ys : List A) → In a (xs ++ ys) → In a xs ⊎ In a ys
  In-append a [] ys h = inr h
  In-append a (x ∷ xs) ys (inl same) = inl (inl same)
  In-append a (x ∷ xs) ys (inr later) = elim (In-append a xs ys later) [
    | inl left ↦ inl (inr left)
    | inr right ↦ inr right
  ]

  pub All-In {κ} : (P : A → Type κ) (a : A) (xs : List A) → All P xs → In a xs → P a
  All-In P a [] h m = elim m [ ]
  All-In P a (x ∷ xs) h (inl same) = subst P (sym same) h.0
  All-In P a (x ∷ xs) h (inr later) = All-In P a xs h.1 later

  pub In-get_elem? : (a : A) (n : ℕ) (xs : List A) → get_elem? xs n ≡ some a → In a xs
  In-get_elem? a n [] h = cc
  In-get_elem? a zero (x ∷ xs) h = inl (cc)
  In-get_elem? a (suc n) (x ∷ xs) h = inr (In-get_elem? a n xs h)
