-- ===== src/Iam/Users/Accounts.antt =====
-- The row of a new account.
use mathlib.Core.Path.{subst}
use absolo_cloud_services.Base.{
  ℕ, ◌+◌, ◌≤◌, String, ◌⧺◌, ◌≡◌, refl, sym, ap, ◌∙◌, inl, inr, Bool, true, ◌&&◌, not, is_some, ◌==◌,
  eq_refl, eq_iff, head?, filter, count, count_none, Option-cases, if◌then◌else◌, arith,
}
use absolo_cloud_services.Result.{Result, ok, err}
use absolo_cloud_services.Runtime.Env.{Env}
use absolo_cloud_services.Runtime.State.{State}
use absolo_cloud_services.Runtime.Action.{pure, in_table, insert}
use absolo_cloud_services.Runtime.Laws.{>>=-eq-ok, insert-eq-ok_free, count-insert_done}
use absolo_cloud_services.Schema.Iam.{User}
use absolo_cloud_services.Runtime.Tables.Iam.{users}
use absolo_cloud_services.Iam.Users.{normalise, new_user, create_user, create_unless, insert_user}

module _ ⦃env : Env⦄ where
  -- An account that is not locked, has the password's hash, and no second factor.
  abbrev pub unlocked : String → User → Bool
  unlocked password r =
      not (is_some r.locked_at) && (env.argon2_verify r.password_hash password && not r.mfa_enabled)

  abbrev pub has_email : String → User → Bool
  has_email email r = r.email == normalise email

  -- A new account has its address alone, and its password opens it.
  abbrev pub Opened : String → String → User → State → Type 0
  Opened email password user u =
      (count (has_email email) (in_table users u) ≡ 1)
      × (1
          ≤ count (λ r. has_email email r && (r.id == user.id && unlocked password r))
              (in_table users u))

  added : (n m : ℕ) (b : Bool) → m ≡ n + (if b then 1 else 0) → b ≡ true → 1 ≤ m
  added n m b e h = ground (arith, e, h)

  alone :
      (row : User) (email password : String) (v : State)
      → row.email ≡ normalise email
      → unlocked password row ≡ true
      → (insert users row v).0 ≡ ok tt
      → Opened email password row (insert users row v).1
  alone row email password v same opens inserted =
      let none_before : count (has_email email) (in_table users v) ≡ 0 =
        count_none (has_email email) (users.clashes row) (in_table users v)
          (λ r h.
            ground (arith, h, same, eq_iff r.email (normalise email), eq_iff row.email r.email))
          (insert-eq-ok_free users row v inserted) in
      (
        count-insert_done users (has_email email) row v inserted
            ∙ rw (none_before, same, eq_refl (normalise email)) refl,
        added _ _ _
            (count-insert_done users
              (λ r. has_email email r && (r.id == row.id && unlocked password r)) row v inserted)
            (rw (same, eq_refl (normalise email), eq_refl row.id, opens) refl),
      )

  abbrev user_in : User → Result User → User
  user_in user (ok row) = row
  user_in user (err e) = user

  inserted_user :
      (email full_name password : String) (s : State) {user : User}
      → env.argon2_verify (env.argon2_hash s.tick password) password ≡ true
      → (insert_user (normalise email) full_name password s).0 ≡ ok user
      → Opened email password user (insert_user (normalise email) full_name password s).1
  unfolding insert_user
  inserted_user email full_name password s {user} right done =
      let v : State = record s { tick = s.tick + 1 + 1 + 1 } in
      let row =
        new_user ("usr" ⧺ "_" ⧺ env.ulid (s.tick + 1)) (normalise email) full_name
          (env.argon2_hash s.tick password) (env.clock (s.tick + 1 + 1)) in
      let (x, inserted, returned, state) = >>=-eq-ok (insert users row) (λ _. pure row) v done in
      let is_user : row ≡ user = ap (user_in row) returned in
      subst (λ w. Opened email password user w) (sym state)
        (subst (λ z. Opened email password z (insert users row v).1) is_user
          (alone row email password v refl (rw right refl) inserted))

  pub create_user-ok :
      (email full_name password : String) (s : State) {user : User}
      → env.argon2_verify (env.argon2_hash s.tick password) password ≡ true
      → (create_user email full_name password s).0 ≡ ok user
      → Opened email password user (create_user email full_name password s).1
  unfolding create_user create_unless
  create_user-ok email full_name password s {user} right done =
      elim (Option-cases
        (head? (filter (λ r. r.email == normalise (normalise email)) (in_table users s)))) [
          | inr (old, taken) ↦ cc (
              sym (ap (λ o. (create_unless o (normalise email) full_name password s).0) taken)
              ∙ done)
          | inl free ↦
              let step = ap (λ o. create_unless o (normalise email) full_name password s) free in
              subst (λ o. Opened email password user o.1) (sym step)
                (inserted_user email full_name password s {user = user} right
                  (sym (ap (λ o. o.0) step) ∙ done))
        ]
