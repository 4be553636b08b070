-- ===== src/Errors/Replies.antt =====
-- Which exceptions are answered, and with which codes.
use absolo_cloud_services.Base.{
  ℕ, ◌≤◌, String, ◌≡◌, refl, ◌⊎◌, inl, inr, ◌↔◌, Bool, true, ◌||◌, not, Bool-cases, ◌==◌, eq_iff,
  nat_eq, ltb, leb, List, [], ◌∷◌, count, if◌then◌else◌, arith,
}
use absolo_cloud_services.Errors.{code_for_status, switch, error_codes}

leb_iff : (a b : ℕ) → (leb a b ≡ true) ↔ (a ≤ b)
leb_iff a b = (λ h. ground arith, λ h. ground arith)

ltb-positive : (n : ℕ) → ltb 0 n ≡ true → 1 ≤ n
ltb-positive n h = ground arith

-- What a test says of all answers of a switch.
switch-all :
    {A : Type 0} (p : A → Bool) (status : ℕ) (cases : List (ℕ × A)) (default : A)
    → count (λ c. not (p c.1)) cases ≡ 0
    → p default ≡ true
    → p (switch status cases default) ≡ true
unfolding switch
switch-all p status [] default h k = k
switch-all p status ((n, a) ∷ cases) default h k = elim (Bool-cases (nat_eq status n)) [
  | inl e ↦ rw e (ground (arith, h))
  | inr e ↦ rw e (switch-all p status cases default (ground (arith, h)) k)
]

-- A code of the contract, or the one text that the filter adds.
abbrev is_known : String → Bool
is_known c = ltb 0 (count (λ k. k == c) error_codes) || c == "BAD_REQUEST"

-- The code of a status is one of the contract's codes, or the text BAD_REQUEST, which is none.
pub code_for_status_known :
    (status : ℕ)
    → (1 ≤ count (λ c. c == code_for_status status) error_codes)
      ⊎ (code_for_status status ≡ "BAD_REQUEST")
unfolding code_for_status
code_for_status_known status =
    elim (Bool-cases (ltb 0 (count (λ c. c == code_for_status status) error_codes))) [
      | inl e ↦ inl (ltb-positive (count (λ c. c == code_for_status status) error_codes) e)
      | inr e ↦ inr ((eq_iff (code_for_status status) "BAD_REQUEST").0 (cc (known, e)))
    ]
  where
    code_cases : List (ℕ × String)
    code_cases =
        (401, "AUTHENTICATION_REQUIRED")
        ∷ (403, "FORBIDDEN")
        ∷ (404, "NOT_FOUND")
        ∷ (409, "CONFLICT")
        ∷ (412, "PRECONDITION_FAILED")
        ∷ (413, "PAYLOAD_TOO_LARGE")
        ∷ (422, "VALIDATION_FAILED")
        ∷ (429, "RATE_LIMITED")
        ∷ (503, "SERVICE_UNAVAILABLE")
        ∷ []

    known : is_known (code_for_status status) ≡ true
    known =
        switch-all is_known status code_cases
          (if leb 500 status then "INTERNAL_ERROR" else "BAD_REQUEST") refl
          (elim (Bool-cases (leb 500 status)) [ inl e ↦ rw e refl | inr e ↦ rw e refl ])
