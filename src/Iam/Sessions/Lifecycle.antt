-- ===== src/Iam/Sessions/Lifecycle.antt =====
-- What a cookie resolves to: before and after its session is revoked.
use absolo_cloud_services.Base.{
  ℕ, ◌+◌, ◌≤◌, String, ◌≡◌, refl, sym, ap, ◌∙◌, inl, inr, Bool, true, ◌&&◌, ◌||◌, Bool-cases,
  Option, none, some, ◌==◌, eq_iff, head?, filter, count, head?-filter_unseen, head?-filter-some,
  head?-filter-count, and_left, and_intro, Option-cases, arith,
}
use absolo_cloud_services.Result.{Result, ok, err}
use absolo_cloud_services.Runtime.Env.{Env}
use absolo_cloud_services.Runtime.State.{State}
use absolo_cloud_services.Runtime.Action.{in_table}
use absolo_cloud_services.Runtime.Laws.{count-update_none}
use absolo_cloud_services.Texts.{split_at_dot}
use absolo_cloud_services.Schema.Iam.{Session}
use absolo_cloud_services.Runtime.Tables.Iam.{sessions}
use absolo_cloud_services.Iam.Sessions.{
  ResolvedSession, is_live, same_hash, compare_hash, touch, look_up, parsed, resolve, revoke,
}

module _ ⦃env : Env⦄ where
  -- A session of a user that is live, with the hash of a token.
  abbrev pub is_proof : ResolvedSession → String → ℕ → Session → Bool
  is_proof r presented at row =
      is_live r.session_id at row && (row.user_id == r.user_id && same_hash row presented)

  abbrev id_in : Result (Option ResolvedSession) → String
  id_in (ok (some r)) = r.session_id
  id_in (ok none) = ""
  id_in (err e) = ""

  abbrev user_in : Result (Option ResolvedSession) → String
  user_in (ok (some r)) = r.user_id
  user_in (ok none) = ""
  user_in (err e) = ""

  compare_hash_sound :
      (row : Option Session) (session_id presented : String) (s : State) {r : ResolvedSession}
      → (compare_hash row session_id presented s).0 ≡ ok (some r)
      → (row' : Session) × (row ≡ some row')
        × (same_hash row' presented ≡ true)
        × (r.session_id ≡ row'.id)
        × (r.user_id ≡ row'.user_id)
  unfolding compare_hash touch
  compare_hash_sound none session_id presented s e = cc
  compare_hash_sound (some row) session_id presented s {r} e =
      elim (Bool-cases (same_hash row presented)) [
        | inl same ↦
            (let e' = rw same at e in (row, refl, same, sym (ap id_in e'), sym (ap user_in e')))
        | inr other ↦ cc (rw other at e)
      ]

  found_proof :
      (id presented : String) (s : State) {r : ResolvedSession}
      → (parsed (some (id, presented)) s).0 ≡ ok (some r)
      → 1 ≤ count (is_proof r presented (env.clock s.tick)) (in_table sessions s)
  unfolding parsed look_up
  found_proof id presented s {r} e = elim (Bool-cases (id == "" || presented == "")) [
    | inl blank ↦ cc (rw blank at e)
    | inr full ↦
        let (row, found, same, sid, uid) =
          compare_hash_sound (head? (filter (is_live id (env.clock s.tick)) (in_table sessions s)))
            id presented (record s { tick = s.tick + 1 }) {r = r} (rw full at e) in
        let live =
          head?-filter-some (is_live id (env.clock s.tick)) (in_table sessions s) {r = row} found in
        rw (sid ∙ (eq_iff row.id id).0 (and_left _ _ (and_left _ _ live))) (
          head?-filter-count (is_live id (env.clock s.tick))
            (λ row'. row'.user_id == r.user_id && same_hash row' presented) (in_table sessions s)
            {r = row} found (and_intro _ _ ((eq_iff row.user_id r.user_id).1 (sym uid)) same))
  ]

  -- What a cookie resolves to is a session that is neither revoked nor expired, of that user, with
  -- the hash of the cookie's token.
  pub resolve_sound :
      (raw : String) (s : State) {r : ResolvedSession}
      → (resolve (some raw) s).0 ≡ ok (some r)
      → (id : String) × (presented : String) × (split_at_dot raw ≡ some (id, presented))
        × (1 ≤ count (is_proof r presented (env.clock s.tick)) (in_table sessions s))
  unfolding resolve parsed look_up
  resolve_sound raw s {r} e = elim (Option-cases (split_at_dot raw)) [
    | inl unparsed ↦ cc (sym (ap (λ o. (parsed o s).0) unparsed) ∙ e)
    | inr ((id, presented), p) ↦
        (id, presented, p, found_proof id presented s (sym (ap (λ o. (parsed o s).0) p) ∙ e))
  ]

  -- No cookie with the id of a revoked session resolves.
  pub revoke-resolve :
      (raw id presented : String) (s : State)
      → split_at_dot raw ≡ some (id, presented)
      → (resolve (some raw) (revoke id s).1).0 ≡ ok none
  unfolding resolve parsed look_up revoke compare_hash
  revoke-resolve raw id presented s p =
      ap (λ o. (parsed o u).0) p ∙ elim (Bool-cases (id == "" || presented == "")) [
        | inl blank ↦ rw blank refl
        | inr full ↦
            rw full
              (ap (λ o. (compare_hash o id presented (record u { tick = u.tick + 1 })).0) gone)
      ]
    where
      u : State
      u = (revoke id s).1

      gone : head? (filter (is_live id (env.clock u.tick)) (in_table sessions u)) ≡ none
      gone = head?-filter_unseen (is_live id (env.clock u.tick)) (in_table sessions u) (
          count-update_none (is_live id (env.clock u.tick)) (λ r. r.id == id)
            (λ r. record r { revoked_at = some (env.clock s.tick) }) s.sessions
            (λ r h. ground arith) (λ r h. rw h refl))

  compare_hash-ok :
      (row : Option Session) (id presented : String) (s : State)
      → (o : Option ResolvedSession) × ((compare_hash row id presented s).0 ≡ ok o)
  unfolding compare_hash touch
  compare_hash-ok none id presented s = (none, refl)
  compare_hash-ok (some row) id presented s = elim (Bool-cases (same_hash row presented)) [
    | inl same ↦ (some (record { session_id = row.id; user_id = row.user_id }), rw same refl)
    | inr other ↦ (none, rw other refl)
  ]

  parsed-ok :
      (o : Option (String × String)) (s : State)
      → (r : Option ResolvedSession) × ((parsed o s).0 ≡ ok r)
  unfolding parsed look_up
  parsed-ok none s = (none, refl)
  parsed-ok (some (id, presented)) s = elim (Bool-cases (id == "" || presented == "")) [
    | inl blank ↦ (none, rw blank refl)
    | inr full ↦ rw full (
        compare_hash-ok (head? (filter (is_live id (env.clock s.tick)) (in_table sessions s))) id
          presented (record s { tick = s.tick + 1 }))
  ]

  -- Every cookie resolves to a session or to none: nothing is thrown.
  pub resolve-ok :
      (cookie : Option String) (s : State)
      → (r : Option ResolvedSession) × ((resolve cookie s).0 ≡ ok r)
  unfolding resolve
  resolve-ok none s = (none, refl)
  resolve-ok (some raw) s = parsed-ok (split_at_dot raw) s
