-- ===== src/Contracts/Requests/Steps.antt =====
-- How a result of a schema's steps comes about.
use mathlib.Core.Path.{subst}
use absolo_cloud_services.Base.{
  String, ◌≡◌, refl, ap, inl, inr, Bool, true, Bool-cases, Option, none, some, or_default, List,
}
use absolo_cloud_services.Contracts.JsonValues.{
  Value, null, bool, num, str, arr, obj, Fields, only_keys,
}
use absolo_cloud_services.Contracts.Envelopes.{◌>>=◌}
use absolo_cloud_services.Contracts.Requests.{passing, strict}

-- A step that was passed, and the steps after it.
pub >>=-some {ℓ κ} :
    {A : Type ℓ} {B : Type κ} (o : Option A) (f : A → Option B) {b : B}
    → (o >>= f) ≡ some b
    → (a : A) × (o ≡ some a) × (f a ≡ some b)
>>=-some none f e = absurd (cc e)
>>=-some (some a) f e = (a, refl, e)

-- What holds of all values that five steps may make holds of the result.
pub made_of_five :
    {A B C D E R : Type 0} (P : R → Type 0) (a : Option A) (b : Option B) (c : Option C)
    (d : Option D) (e : Option E) (make : A → B → C → D → E → R) {r : R}
    → ((v : A) (w : B) (x : C) (y : D) (z : E) → a ≡ some v → b ≡ some w → P (make v w x y z))
    → (a >>= λ v. b >>= λ w. c >>= λ x. d >>= λ y. e >>= λ z. some (make v w x y z)) ≡ some r
    → P r
made_of_five P (some v) (some w) (some x) (some y) (some z) make {r} h made =
    subst P (ap (λ o. or_default o r) made) (h v w x y z refl refl)
made_of_five P none b c d e make h made = absurd (cc made)
made_of_five P (some v) none c d e make h made = absurd (cc made)
made_of_five P (some v) (some w) none d e make h made = absurd (cc made)
made_of_five P (some v) (some w) (some x) none e make h made = absurd (cc made)
made_of_five P (some v) (some w) (some x) (some y) none make h made = absurd (cc made)

pub passing-some :
    (p : String → Bool) (s : String) {t : String} → passing p s ≡ some t → (s ≡ t) × (p t ≡ true)
passing-some p s {t} e = elim (Bool-cases (p s)) [
  | inl yes_p ↦ let same : s ≡ t = cc (rw yes_p at e) in (same, cc (same, yes_p))
  | inr no_p ↦ absurd (cc (rw no_p at e))
]

-- An object that a schema accepts has fields that it reads.
pub strict-fields {ℓ} :
    {A : Type ℓ} (keys : List String) (read : Fields → Option A) (fs : Fields) {a : A}
    → strict keys read (obj fs) ≡ some a
    → read fs ≡ some a
strict-fields keys read fs {a} e = elim (Bool-cases (only_keys keys fs)) [
  | inl known ↦ rw known at e
  | inr unknown ↦ absurd (cc (rw unknown at e))
]

-- A body that an object's schema accepts is an object whose fields it reads.
pub strict-some {ℓ} :
    {A : Type ℓ} (keys : List String) (read : Fields → Option A) (v : Value) {a : A}
    → strict keys read v ≡ some a
    → (fs : Fields) × (v ≡ obj fs) × (read fs ≡ some a)
strict-some keys read (obj fs) {a} e = (fs, refl, strict-fields keys read fs {a = a} e)
strict-some keys read null e = absurd (cc e)
strict-some keys read (bool b) e = absurd (cc e)
strict-some keys read (num n) e = absurd (cc e)
strict-some keys read (str s) e = absurd (cc e)
strict-some keys read (arr l) e = absurd (cc e)
