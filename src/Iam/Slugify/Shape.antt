-- ===== src/Iam/Slugify/Shape.antt =====
-- The slug that an address gives against the contract's slugs.
use Prim.Native.Char.{Char}
use absolo_cloud_services.Base.{
  ℕ, ◌+◌, ◌⧺◌, zero, suc, String, ◌≡◌, refl, ap, ◌∙◌, ◌⊎◌, inl, inr, Bool, true, false, ◌&&◌, ◌||◌,
  not, ◌≤◌, ◌<◌, leb, Bool-cases, and_intro, and_left, and_right, arith,
}
use absolo_cloud_services.Result.{ok}
use absolo_cloud_services.Runtime.Env.{Env}
use absolo_cloud_services.Runtime.State.{State}
use absolo_cloud_services.Texts.{drop_chars, first_chars, text_length, to_lower}
use absolo_cloud_services.Contracts.Primitives.{
  is_alnum, is_hyphen, slug_rest, slug_pattern, is_slug,
}
use absolo_cloud_services.Iam.Slugify.{
  before_at, put_char, hyphenate, trim_hyphens_start, put_unless_last, trim_hyphens_end,
  trimmed_local, cleaned, slug_or_user, slugify_email_local,
}

-- Letters and digits, with single hyphens between them, after a character that is a hyphen or not.
unfoldable pub single_hyphens : Bool → String → Bool
single_hyphens hyphen String.[] = true
single_hyphens hyphen (String.◌∷◌ c s) =
    (is_alnum c || (is_hyphen c && not hyphen)) && single_hyphens (not (is_alnum c)) s

unfoldable pub ends_in_hyphen : Bool → String → Bool
ends_in_hyphen hyphen String.[] = hyphen
ends_in_hyphen hyphen (String.◌∷◌ c s) = ends_in_hyphen (is_hyphen c) s

alnum_not_hyphen : (c : Char) → is_alnum c ≡ true → is_hyphen c ≡ false
unfolding is_alnum is_hyphen
alnum_not_hyphen c h = ground (arith, h)

le→leb : (a b : ℕ) → a ≤ b → leb a b ≡ true
le→leb a b h = ground arith

not_alnum : is_alnum "-" ≡ false
unfolding is_alnum
not_alnum = refl

single_hyphens-hyphenate : (b : Bool) (s : String) → single_hyphens b (hyphenate b s) ≡ true
unfolding hyphenate single_hyphens put_char is_hyphen
single_hyphens-hyphenate b String.[] = refl
single_hyphens-hyphenate b (String.◌∷◌ c s) =
    ground (arith, not_alnum, single_hyphens-hyphenate (not (is_alnum c)) s)

single_hyphens-trim_start :
    (b : Bool) (s : String)
    → single_hyphens b s ≡ true
    → single_hyphens true (trim_hyphens_start s) ≡ true
unfolding trim_hyphens_start single_hyphens
single_hyphens-trim_start b String.[] h = refl
single_hyphens-trim_start b (String.◌∷◌ c s) h =
    ground (arith, h, single_hyphens-trim_start (not (is_alnum c)) s)

put_unless_last_lem :
    (c : Char) (b : Bool) (s : String)
    → single_hyphens b (String.◌∷◌ c s) ≡ true
    → single_hyphens b (put_unless_last c s) ≡ true
unfolding put_unless_last single_hyphens
put_unless_last_lem c b String.[] h = elim (Bool-cases (is_hyphen c)) [
  | inl e ↦ rw e
  | inr e ↦ rw e h
]
put_unless_last_lem c b (String.◌∷◌ d s) h = h

single_hyphens-trim_end :
    (b : Bool) (s : String)
    → single_hyphens b s ≡ true
    → single_hyphens b (trim_hyphens_end s) ≡ true
unfolding trim_hyphens_end single_hyphens
single_hyphens-trim_end b String.[] h = refl
single_hyphens-trim_end b (String.◌∷◌ c s) h = put_unless_last_lem c b (trim_hyphens_end s) (
    and_intro _ _ (and_left _ _ h) (single_hyphens-trim_end (not (is_alnum c)) s (and_right _ _ h)))

single_hyphens-first_chars :
    (n : ℕ) (b : Bool) (s : String)
    → single_hyphens b s ≡ true
    → single_hyphens b (first_chars n s) ≡ true
unfolding first_chars single_hyphens
single_hyphens-first_chars zero b s h = refl
single_hyphens-first_chars (suc n) b String.[] h = refl
single_hyphens-first_chars (suc n) b (String.◌∷◌ c s) h =
    and_intro _ _ (and_left _ _ h)
      (single_hyphens-first_chars n (not (is_alnum c)) s (and_right _ _ h))

-- What the pattern asks for beyond that is no hyphen at the end.
slug_rest-eq-not_ends :
    (b : Bool) (s : String) → single_hyphens b s ≡ true → slug_rest b s ≡ not (ends_in_hyphen b s)
unfolding slug_rest single_hyphens ends_in_hyphen
slug_rest-eq-not_ends b String.[] h = refl
slug_rest-eq-not_ends b (String.◌∷◌ c s) h =
    ground (arith, h, alnum_not_hyphen c, slug_rest-eq-not_ends (not (is_alnum c)) s)

text_length-first_chars : (n : ℕ) (s : String) → text_length (first_chars n s) ≤ n
unfolding first_chars
text_length-first_chars zero s = omega arith
text_length-first_chars (suc n) String.[] = omega arith
text_length-first_chars (suc n) (String.◌∷◌ c s) = omega (arith, text_length-first_chars n s)

first_chars_all : (n : ℕ) (s : String) → text_length s ≤ n → first_chars n s ≡ s
unfolding first_chars
first_chars_all zero String.[] h = refl
first_chars_all zero (String.◌∷◌ c s) h = absurd (omega (arith, h))
first_chars_all (suc n) String.[] h = refl
first_chars_all (suc n) (String.◌∷◌ c s) h =
    ap (λ u. String.◌∷◌ c u) (first_chars_all n s (omega (arith, h)))

single_hyphens-trimmed : (email : String) → single_hyphens true (trimmed_local email) ≡ true
unfolding trimmed_local
single_hyphens-trimmed email =
    let local = to_lower (before_at email) in
    single_hyphens-trim_end true (trim_hyphens_start (hyphenate false local)) (
      single_hyphens-trim_start false (hyphenate false local)
        (single_hyphens-hyphenate false local))

-- A text of this form that starts with no hyphen is a slug just where it ends in none.
is_slug-eq-not_ends :
    (s : String)
    → single_hyphens true s ≡ true
    → 2 ≤ text_length s
    → text_length s ≤ 48
    → is_slug s ≡ not (ends_in_hyphen true s)
unfolding is_slug slug_pattern single_hyphens ends_in_hyphen
is_slug-eq-not_ends String.[] h low high = absurd (omega (arith, low))
is_slug-eq-not_ends (String.◌∷◌ c s) h low high =
    ground (arith, h, low, high, alnum_not_hyphen c, slug_rest-eq-not_ends (not (is_alnum c)) s)

put_unless_last-ends :
    (c : Char) (b : Bool) (t : String)
    → (1 ≤ text_length t → ends_in_hyphen (is_hyphen c) t ≡ false)
    → 1 ≤ text_length (put_unless_last c t)
    → ends_in_hyphen b (put_unless_last c t) ≡ false
unfolding put_unless_last ends_in_hyphen
put_unless_last-ends c b String.[] h long = elim (Bool-cases (is_hyphen c)) [
  | inl e ↦ absurd (omega (arith, rw e at long))
  | inr e ↦ rw (e, e)
]
put_unless_last-ends c b (String.◌∷◌ d t) h long = h (omega arith)

ends-trim_end :
    (b : Bool) (s : String)
    → 1 ≤ text_length (trim_hyphens_end s)
    → ends_in_hyphen b (trim_hyphens_end s) ≡ false
unfolding trim_hyphens_end
ends-trim_end b String.[] h = absurd (omega (arith, h))
ends-trim_end b (String.◌∷◌ c s) h =
    put_unless_last-ends c b (trim_hyphens_end s) (ends-trim_end (is_hyphen c) s) h

ends-trimmed :
    (email : String)
    → 1 ≤ text_length (trimmed_local email)
    → ends_in_hyphen true (trimmed_local email) ≡ false
unfolding trimmed_local
ends-trimmed email h =
    ends-trim_end true (trim_hyphens_start (hyphenate false (to_lower (before_at email)))) h

module _ (email : String) (long : 2 ≤ text_length (cleaned email)) where
  is_slug-cleaned : is_slug (cleaned email) ≡ not (ends_in_hyphen true (cleaned email))
  unfolding cleaned
  is_slug-cleaned =
      is_slug-eq-not_ends (first_chars 32 (trimmed_local email))
        (single_hyphens-first_chars 32 true (trimmed_local email) (single_hyphens-trimmed email))
        long (omega (arith, text_length-first_chars 32 (trimmed_local email)))

  -- A slug that was not cut has been trimmed.
  ends-cleaned :
      text_length (trimmed_local email) ≤ 32 → ends_in_hyphen true (cleaned email) ≡ false
  unfolding cleaned
  ends-cleaned short =
      let whole = first_chars_all 32 (trimmed_local email) short in
      ap (λ u. ends_in_hyphen true u) whole
      ∙ ends-trimmed email (omega (arith, ap (λ u. text_length u) whole, long))

module _ ⦃env : Env⦄ where
  slug_or_user_long :
      (slug : String) (s : State) → 2 ≤ text_length slug → slug_or_user slug s ≡ (ok slug, s)
  unfolding slug_or_user
  slug_or_user_long slug s long = rw (le→leb 2 (text_length slug) long)

  -- The slug takes one tick more at most, and nothing else.
  pub slugify_email_local_returns :
      (email : String) (s : State)
      → (slug : String) × (n : ℕ) × (slugify_email_local email s ≡ (ok slug, record s { tick = n }))
  unfolding slugify_email_local slug_or_user
  slugify_email_local_returns email s = elim (Bool-cases (leb 2 (text_length (cleaned email)))) [
    | inl long ↦ (cleaned email, s.tick, rw long)
    | inr short ↦
        ("user-" ⧺ first_chars 6 (drop_chars 2 (env.random_base36 s.tick)), s.tick + 1, rw short)
  ]

  -- Where at least two characters of an address's local part are left after the clean-up, they are
  -- the slug, with no further call; it conforms to the contract, or the local part was cut after 32
  -- characters and the cut left a hyphen at the end, which the contract refuses.
  pub slugify_email_local_shape :
      (email : String) (s : State)
      → 2 ≤ text_length (cleaned email)
      → (slugify_email_local email s ≡ (ok (cleaned email), s))
        × ((is_slug (cleaned email) ≡ true)
            ⊎ ((32 < text_length (trimmed_local email))
                × (ends_in_hyphen true (cleaned email) ≡ true)
                × (is_slug (cleaned email) ≡ false)))
  unfolding slugify_email_local
  slugify_email_local_shape email s long = (
    slug_or_user_long (cleaned email) s long,
    elim (Bool-cases (ends_in_hyphen true (cleaned email))) [
      | inr e ↦ inl (is_slug-cleaned email long ∙ ap (λ b. not b) e)
      | inl e ↦ inr (
        elim (Bool-cases (leb (text_length (trimmed_local email)) 32)) [
          | inr cut ↦ ground (arith, cut)
          | inl whole ↦ cc (ends-cleaned email long (ground (arith, whole)))
        ],
        e,
        is_slug-cleaned email long ∙ ap (λ b. not b) e,
      )
    ],
  )
