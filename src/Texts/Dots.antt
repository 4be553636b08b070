-- ===== src/Texts/Dots.antt =====
-- A text without a dot, and what is split off at the first dot.
use Prim.Native.Char.{Char, code}
use text.Mathlib.TextLemmas.{nil-append, cons-append}
use absolo_cloud_services.Base.{
  String, ◌⧺◌, ◌≡◌, sym, ap, ◌∙◌, Bool, true, false, ◌&&◌, not, nat_eq, some, Bool-cases, inl, inr,
  ◌==◌, eq_iff, arith, if◌then◌else◌, and_left, and_right, and_intro,
}
use absolo_cloud_services.Texts.{prepend, split_at_dot}

unfoldable pub no_dot : String → Bool
no_dot String.[] = true
no_dot (String.◌∷◌ c s) = let rest = no_dot s in not (nat_eq (code c) 46) && rest

pub no_dot-append : (s t : String) → no_dot s ≡ true → no_dot t ≡ true → no_dot (s ⧺ t) ≡ true
unfolding no_dot
no_dot-append String.[] t h k = ap (λ u. no_dot u) (nil-append t) ∙ k
no_dot-append (String.◌∷◌ c s) t h k =
    ap (λ u. no_dot u) (cons-append c s t)
    ∙ and_intro _ _ (and_left _ _ h)
        (no_dot-append s t (and_right (not (nat_eq (code c) 46)) (no_dot s) h) k)

dot-append : (t : String) → "." ⧺ t ≡ String.◌∷◌ "." t
dot-append t = cons-append "." String.[] t ∙ ap (λ u. String.◌∷◌ "." u) (nil-append t)

pub split_at_dot-append :
    (s t : String) → no_dot s ≡ true → split_at_dot (s ⧺ ("." ⧺ t)) ≡ some (s, t)
unfolding split_at_dot prepend no_dot
split_at_dot-append String.[] t h = ap (λ u. split_at_dot u) (nil-append ("." ⧺ t) ∙ dot-append t)
split_at_dot-append (String.◌∷◌ c s) t h =
    ap (λ u. split_at_dot u) (cons-append c s ("." ⧺ t))
    ∙ not_here (nat_eq (code c) 46) (and_left (not (nat_eq (code c) 46)) (no_dot s) h)
    ∙ ap (λ o. prepend c o)
        (split_at_dot-append s t (and_right (not (nat_eq (code c) 46)) (no_dot s) h))
  where
    not_here :
        (b : Bool)
        → not b ≡ true
        → (if b then some ("", s ⧺ ("." ⧺ t)) else prepend c (split_at_dot (s ⧺ ("." ⧺ t))))
          ≡ prepend c (split_at_dot (s ⧺ ("." ⧺ t)))
    not_here b e = ground (arith, e)

is_empty : String → Bool
is_empty String.[] = true
is_empty (String.◌∷◌ c s) = false

-- A text in front of another, if it is not empty.
pub cons-append_not_empty : (c : Char) (s t : String) → ((String.◌∷◌ c s ⧺ t) == "") ≡ false
unfolding is_empty
cons-append_not_empty c s t = elim (Bool-cases ((String.◌∷◌ c s ⧺ t) == "")) [
  | inr e ↦ e
  | inl e ↦ cc (
      sym (ap (λ u. is_empty u) (cons-append c s t))
      ∙ ap (λ u. is_empty u) ((eq_iff (String.◌∷◌ c s ⧺ t) "").0 e))
]
