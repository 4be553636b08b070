-- ===== src/Base/Lists.antt =====
-- Counting and filtering by a Boolean test. A table is read as a bag of rows, so what the
-- theorems say of a table is the number of its rows that pass a test.
use Prim.Native.Nat.{ℕ, zero, suc, ◌+◌, ◌≤◌}
use mathlib.Core.Path.{◌≡◌, refl}
use mathlib.Core.Logic.{◌⊎◌, inl, inr}
use mathlib.Core.Bool.{Bool, true, false, ◌&&◌, ◌||◌, not}
use mathlib.Core.Option.{Option, none, some}
use mathlib.Core.List.{List, [], ◌∷◌, ◌++◌, head?}
use native.Mathlib.Omega.{arith}

infix 1 if◌then◌else◌
abbrev pub if◌then◌else◌ {ℓ} : {A : Type ℓ} → Bool → A → A → A
if true then x else y = x
if false then x else y = y

pub Bool-cases : (b : Bool) → (b ≡ true) ⊎ (b ≡ false)
Bool-cases true = inl refl
Bool-cases false = inr refl

pub and_intro : (a b : Bool) → a ≡ true → b ≡ true → (a && b) ≡ true
and_intro a b h k = ground arith

pub and_left : (a b : Bool) → (a && b) ≡ true → a ≡ true
and_left a b h = ground arith

pub and_right : (a b : Bool) → (a && b) ≡ true → b ≡ true
and_right a b h = ground arith

module _ {ℓ} {A : Type ℓ} where
  abbrev pub length : List A → ℕ
  length [] = 0
  length (x ∷ xs) = suc (length xs)

  abbrev pub get_elem? : List A → ℕ → Option A
  get_elem? [] i = none
  get_elem? (x ∷ xs) zero = some x
  get_elem? (x ∷ xs) (suc i) = get_elem? xs i

  -- How many elements pass the test.
  abbrev pub count : (A → Bool) → List A → ℕ
  count p [] = 0
  count p (x ∷ xs) = (if p x then 1 else 0) + count p xs

  abbrev pub filter : (A → Bool) → List A → List A
  filter p [] = []
  filter p (x ∷ xs) = if p x then x ∷ filter p xs else filter p xs

module _ {ℓ} {A : Type ℓ} where
  pub count_congr : (p q : A → Bool) (xs : List A) → ((a : A) → p a ≡ q a) → count p xs ≡ count q xs
  count_congr p q [] h = refl
  count_congr p q (x ∷ xs) h = ground (arith, h x, count_congr p q xs h)

  pub count_mono :
      (p q : A → Bool) (xs : List A) → ((a : A) → p a ≡ true → q a ≡ true) → count p xs ≤ count q xs
  count_mono p q [] h = omega arith
  count_mono p q (x ∷ xs) h = ground (arith, h x, count_mono p q xs h)

  pub count-false : (p : A → Bool) (xs : List A) → ((a : A) → p a ≡ false) → count p xs ≡ 0
  count-false p [] h = refl
  count-false p (x ∷ xs) h = ground (arith, h x, count-false p xs h)

  pub count_none :
      (p q : A → Bool) (xs : List A)
      → ((a : A) → p a ≡ true → q a ≡ true)
      → count q xs ≡ 0
      → count p xs ≡ 0
  count_none p q xs h none_is = omega (arith, count_mono p q xs h, none_is)

  -- A test splits the rows that pass another.
  pub count_split :
      (p q : A → Bool) (xs : List A)
      → count p xs ≡ count (λ a. p a && q a) xs + count (λ a. p a && not (q a)) xs
  count_split p q [] = refl
  count_split p q (x ∷ xs) = ground (arith, count_split p q xs)

  pub count_or_le :
      (p q : A → Bool) (xs : List A) → count (λ a. p a || q a) xs ≤ count p xs + count q xs
  count_or_le p q [] = omega arith
  count_or_le p q (x ∷ xs) = ground (arith, count_or_le p q xs)

  -- Two tests that no row passes together.
  pub count_disjoint :
      (p q r : A → Bool) (xs : List A)
      → ((a : A) → p a ≡ true → r a ≡ true)
      → ((a : A) → q a ≡ true → (r a ≡ true) × (p a ≡ false))
      → count p xs + count q xs ≤ count r xs
  count_disjoint p q r [] h k = omega arith
  count_disjoint p q r (x ∷ xs) h k = ground (arith, h x, k x, count_disjoint p q r xs h k)

  -- The first row of a selection passes its test, and none means that no row does.
  pub head?-filter-some :
      (p : A → Bool) (xs : List A) {r : A} → head? (filter p xs) ≡ some r → p r ≡ true
  head?-filter-some p [] e = cc
  head?-filter-some p (x ∷ xs) {r} e = ground (arith, head?-filter-some p xs {r = r})

  pub head?-filter-none : (p : A → Bool) (xs : List A) → head? (filter p xs) ≡ none → count p xs ≡ 0
  head?-filter-none p [] e = refl
  head?-filter-none p (x ∷ xs) e = ground (arith, head?-filter-none p xs)

  -- A selected row that passes a further test is counted by it.
  pub head?-filter-count :
      (p q : A → Bool) (xs : List A) {r : A}
      → head? (filter p xs) ≡ some r
      → q r ≡ true
      → 1 ≤ count (λ a. p a && q a) xs
  head?-filter-count p q [] e h = cc
  head?-filter-count p q (x ∷ xs) {r} e h = ground (arith, head?-filter-count p q xs {r = r})

  pub count_pos_of_head? :
      (p : A → Bool) (xs : List A) {r : A} → head? (filter p xs) ≡ some r → 1 ≤ count p xs
  count_pos_of_head? p [] e = cc
  count_pos_of_head? p (x ∷ xs) {r} e = ground (arith, count_pos_of_head? p xs {r = r})

  pub head?-filter_unseen :
      (p : A → Bool) (xs : List A) → count p xs ≡ 0 → head? (filter p xs) ≡ none
  head?-filter_unseen p [] e = refl
  head?-filter_unseen p (x ∷ xs) e = ground (arith, head?-filter_unseen p xs)

  pub head?-filter_seen :
      (p : A → Bool) (xs : List A) → 1 ≤ count p xs → (a : A) × (head? (filter p xs) ≡ some a)
  head?-filter_seen p [] h = absurd (omega (arith, h))
  head?-filter_seen p (x ∷ xs) h = elim (Bool-cases (p x)) [
    | inl e ↦ (x, ground (arith, e))
    | inr e ↦ let (a, first) = head?-filter_seen p xs (ground (arith, h, e)) in (a, later a first e)
  ]
    where
      later :
          (a : A) → head? (filter p xs) ≡ some a → p x ≡ false → head? (filter p (x ∷ xs)) ≡ some a
      later a first e = rw e first

  -- The only row that passes a test passes what one of the rows that pass it does.
  pub head?-filter_only :
      (p q : A → Bool) (xs : List A) {r : A}
      → head? (filter p xs) ≡ some r
      → count p xs ≤ 1
      → 1 ≤ count (λ a. p a && q a) xs
      → q r ≡ true
  head?-filter_only p q [] e le pos = absurd (omega (arith, pos))
  head?-filter_only p q (x ∷ xs) {r} e le pos = ground (
    arith,
    head?-filter_only p q xs {r = r},
    count_mono (λ a. p a && q a) p xs (λ a h. and_left _ _ h),
  )

  pub length-filter : (p : A → Bool) (xs : List A) → length (filter p xs) ≡ count p xs
  length-filter p [] = refl
  length-filter p (x ∷ xs) = ground (arith, length-filter p xs)

  pub count-append : (p : A → Bool) (xs ys : List A) → count p (xs ++ ys) ≡ count p xs + count p ys
  count-append p [] ys = omega arith
  count-append p (x ∷ xs) ys = omega (arith, count-append p xs ys)
