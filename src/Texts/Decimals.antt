-- ===== src/Texts/Decimals.antt =====
-- `String(n)`, and `Number(text)` after it.
use absolo_cloud_services.Base.{
  ℕ, zero, suc, ◌+◌, ◌-◌, ◌*◌, ◌/◌, ◌%◌, ◌≤◌, ◌<◌, String, ◌⧺◌, ◌≡◌, refl, ap, ◌∙◌, inl, inr,
  Bool-cases, some, leb, arith,
}
use Prim.Native.Char.{code}
use text.Mathlib.TextLemmas.{nil-append, cons-append}
use absolo_cloud_services.Texts.{digit, decimal_fuel, decimal}
use absolo_cloud_services.Schema.Scalars.{read_digits, is_digit}

pub read_digits-append :
    (n m : ℕ) (s t : String) → read_digits n s ≡ some m → read_digits n (s ⧺ t) ≡ read_digits m t
unfolding read_digits
read_digits-append n m String.[] t h =
    ap (λ u. read_digits n u) (nil-append t) ∙ ap (λ k. read_digits k t) (cc h)
read_digits-append n m (String.◌∷◌ c s) t h =
    ap (λ u. read_digits n u) (cons-append c s t) ∙ elim (Bool-cases (is_digit c)) [
      | inl digit ↦ rw digit (read_digits-append (n * 10 + (code c - 48)) m s t (rw digit at h))
      | inr other ↦ cc (rw other at h)
    ]

digit_read : (m d : ℕ) → d ≤ 9 → read_digits m (digit d) ≡ some (m * 10 + d)
unfolding read_digits digit
digit_read m zero h = refl
digit_read m (suc zero) h = refl
digit_read m (suc (suc zero)) h = refl
digit_read m (suc (suc (suc zero))) h = refl
digit_read m (suc (suc (suc (suc zero)))) h = refl
digit_read m (suc (suc (suc (suc (suc zero))))) h = refl
digit_read m (suc (suc (suc (suc (suc (suc zero)))))) h = refl
digit_read m (suc (suc (suc (suc (suc (suc (suc zero))))))) h = refl
digit_read m (suc (suc (suc (suc (suc (suc (suc (suc zero)))))))) h = refl
digit_read m (suc (suc (suc (suc (suc (suc (suc (suc (suc zero))))))))) h = refl
digit_read m (suc (suc (suc (suc (suc (suc (suc (suc (suc (suc e)))))))))) h =
    absurd (omega (arith, h))

decimal_fuel_read : (k n : ℕ) → n < k → read_digits 0 (decimal_fuel k n) ≡ some n
unfolding decimal_fuel
decimal_fuel_read zero n h = absurd (omega (arith, h))
decimal_fuel_read (suc k) n h = elim (Bool-cases (leb n 9)) [
  | inl small ↦ rw small (digit_read 0 n (ground (arith, small)) ∙ ap some (omega arith))
  | inr large ↦ rw large (
      read_digits-append 0 (n / 10) (decimal_fuel k (n / 10)) (digit (n % 10))
        (decimal_fuel_read k (n / 10) (ground (arith, large, h)))
      ∙ digit_read (n / 10) (n % 10) (omega arith)
      ∙ ap some (omega arith))
]

pub number_of-decimal : (n : ℕ) → read_digits 0 (decimal n) ≡ some n
unfolding decimal
number_of-decimal n = decimal_fuel_read (suc n) n (omega arith)
