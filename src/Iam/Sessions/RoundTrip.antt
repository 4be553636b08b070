-- ===== src/Iam/Sessions/RoundTrip.antt =====
-- What the cookie of a new session resolves to.
use native.Mathlib.Nat.{le_trans}
use absolo_cloud_services.Base.{
  ℕ, ◌+◌, ◌*◌, ◌≤◌, String, ◌⧺◌, ◌≡◌, refl, sym, ap, ◌∙◌, Bool, true, false, ◌&&◌, Option, some,
  ◌==◌, eq_refl, eq_iff, eq_comm, ltb, count, count_congr, count_mono, head?-filter_seen,
  head?-filter_only, head?-filter-some, and_left, and_right, and_intro, if◌then◌else◌, arith,
}
use absolo_cloud_services.Result.{Result, ok, err}
use absolo_cloud_services.Runtime.Env.{Env}
use absolo_cloud_services.Runtime.State.{State}
use absolo_cloud_services.Runtime.Action.{pure, in_table, insert}
use absolo_cloud_services.Runtime.Laws.{>>=-eq-ok, insert-eq-ok_free, count-insert_done}
use absolo_cloud_services.Texts.Dots.{
  no_dot, no_dot-append, split_at_dot-append, cons-append_not_empty,
}
use absolo_cloud_services.Schema.Iam.{Session}
use absolo_cloud_services.Runtime.Tables.Iam.{sessions}
use absolo_cloud_services.Iam.Sessions.{
  IssuedSession, is_live, same_hash, compare_hash, touch, look_up, parsed, resolve, issue,
  new_session, hmac, session_ttl_seconds,
}

module _ ⦃env : Env⦄ where
  touched :
      (row : Session) (id token user_id : String) (s : State)
      → row.id ≡ id
      → row.user_id ≡ user_id
      → same_hash row token ≡ true
      → (compare_hash (some row) id token s).0
        ≡ ok (some (record { session_id = id; user_id = user_id }))
  unfolding compare_hash touch
  touched row id token user_id s same_id same_user same = rw (same, same_id, same_user) refl

  -- The only live row with an id has the user and the hash: it is resolved.
  resolved :
      (id token user_id : String) (u : State)
      → (id == "") ≡ false
      → (token == "") ≡ false
      → count (λ r. r.id == id) (in_table sessions u) ≤ 1
      → 1
        ≤ count
            (λ r. is_live id (env.clock u.tick) r && (r.user_id == user_id && same_hash r token))
            (in_table sessions u)
      → (parsed (some (id, token)) u).0 ≡ ok (some (record { session_id = id; user_id = user_id }))
  unfolding parsed look_up
  resolved id token user_id u full_id full_token le pos =
      let live = is_live id (env.clock u.tick) in
      let (row, found) =
        head?-filter_seen live (in_table sessions u)
          (le_trans pos (count_mono _ live (in_table sessions u) (λ r h. and_left _ _ h))) in
      let proof =
        head?-filter_only live (λ r. r.user_id == user_id && same_hash r token)
          (in_table sessions u) {r = row} found
          (le_trans
            (count_mono live (λ r. r.id == id) (in_table sessions u)
              (λ r h. and_left _ _ (and_left _ _ h)))
            le)
          pos in
      let same_id = (eq_iff row.id id).0 (
        and_left _ _
          (and_left _ _ (head?-filter-some live (in_table sessions u) {r = row} found))) in
      rw (full_id, full_token)
        (ap (λ o. (compare_hash o id token (record u { tick = u.tick + 1 })).0) found
          ∙ touched row id token user_id (record u { tick = u.tick + 1 }) same_id
              ((eq_iff row.user_id user_id).0 (and_left _ _ proof))
              (and_right (row.user_id == user_id) (same_hash row token) proof))

  added : (n m : ℕ) (b : Bool) → m ≡ n + (if b then 1 else 0) → b ≡ true → 1 ≤ m
  added n m b e h = ground (arith, e, h)

  abbrev issued_in : IssuedSession → Result IssuedSession → IssuedSession
  issued_in i (ok j) = j
  issued_in i (err e) = i

  -- A session that was issued resolves: in every later state with the same sessions, before the
  -- session expires, its cookie gives its id and its user. The ids of `ulid` have no dot, and the
  -- token is not empty.
  pub resolve-issue :
      (user_id : String) (ua ip : Option String) (s u : State) {i : IssuedSession}
      → no_dot (env.ulid s.tick) ≡ true
      → (env.random_bytes (s.tick + 1) 32 "base64url" == "") ≡ false
      → (issue user_id ua ip s).0 ≡ ok i
      → u.sessions ≡ (issue user_id ua ip s).1.sessions
      → ltb (env.clock u.tick) i.expires_at ≡ true
      → (resolve (some i.cookie_value) u).0
        ≡ ok (some (record { session_id = i.id; user_id = user_id }))
  unfolding issue resolve no_dot
  resolve-issue user_id ua ip s u {i} dotless full done same before =
      let v : State = record s { tick = s.tick + 1 + 1 + 1 } in
      let id = "ses" ⧺ "_" ⧺ env.ulid s.tick in
      let token = env.random_bytes (s.tick + 1) 32 "base64url" in
      let at = env.clock (s.tick + 1 + 1) in
      let row = new_session id user_id (hmac token) ua ip at in
      let i' : IssuedSession = record {
        id = id;
        expires_at = at + session_ttl_seconds * 1000;
        cookie_value = id ⧺ "." ⧺ token;
      } in
      let (x, inserted, returned, state) = >>=-eq-ok (insert sessions row) (λ _. pure i') v done in
      let is_i : i' ≡ i = ap (issued_in i') returned in
      let live : ltb (env.clock u.tick) (at + session_ttl_seconds * 1000) ≡ true =
        ap (λ j. ltb (env.clock u.tick) j.expires_at) is_i ∙ before in
      let table : u.sessions ≡ (insert sessions row v).1.sessions =
        same ∙ ap (λ w. w.sessions) state in
      let no_id : count (λ r. r.id == id) (in_table sessions s) ≡ 0 =
        count_congr (λ r. r.id == id) (sessions.clashes row) (in_table sessions s)
          (λ r. eq_comm r.id id)
        ∙ insert-eq-ok_free sessions row v inserted in
      let one_id : count (λ r. r.id == id) (in_table sessions u) ≡ 1 =
        ap (λ t. count (λ r. r.id == id) (env.rows t)) table
        ∙ count-insert_done sessions (λ r. r.id == id) row v inserted
        ∙ rw (no_id, eq_refl id) refl in
      let proofs =
        count-insert_done sessions
          (λ r. is_live id (env.clock u.tick) r && (r.user_id == user_id && same_hash r token)) row
          v inserted in
      let pos : 1
          ≤ count
              (λ r. is_live id (env.clock u.tick) r && (r.user_id == user_id && same_hash r token))
              (in_table sessions u) =
        omega (
          arith,
          ap
              (λ t.
                count
                  (λ r.
                    is_live id (env.clock u.tick) r && (r.user_id == user_id && same_hash r token))
                  (env.rows t))
              table,
          added _ _ _ proofs (
              and_intro _ _ (and_intro _ _ (and_intro _ _ (eq_refl id) refl) live)
                (and_intro _ _ (eq_refl user_id) (eq_refl (env.from_hex (hmac token))))),
        ) in
      rw (sym is_i) (
        ap (λ o. (parsed o u).0)
          (split_at_dot-append id token (
            no_dot-append "ses" ("_" ⧺ env.ulid s.tick) refl
              (no_dot-append "_" (env.ulid s.tick) refl dotless)))
        ∙ resolved id token user_id u (cons-append_not_empty "s" "es" ("_" ⧺ env.ulid s.tick)) full
            (omega (arith, one_id)) pos)
