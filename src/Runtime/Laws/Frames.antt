-- ===== src/Runtime/Laws/Frames.antt =====
-- What a table's statements leave alone, and when they return.
use absolo_cloud_services.Base.{
  false, is_some, if◌then◌else◌, true, ◌≡◌, inl, inr, Bool, true, Option-cases, Bool-cases, head?,
  filter,
}
use absolo_cloud_services.Result.{ok, err, Error, unique_violation, foreign_key_violation}
use absolo_cloud_services.Runtime.Env.{Env}
use absolo_cloud_services.Runtime.State.{State}
use absolo_cloud_services.Runtime.Action.{
  Relation, in_table, insert, insert_or_ignore, upsert, clash,
}

module _ ⦃env : Env⦄ where
  open env use {rows, update_where, count-insert_into, count-update_where, count-delete_where}

  -- Where references cannot dangle, an insert that ignores conflicts always returns.
  pub insert_or_ignore-ok :
      {Row : Type 0} (t : Relation Row) (r : Row) (s : State)
      → t.refers s r ≡ true
      → (insert_or_ignore t r s).0 ≡ ok tt
  unfolding insert_or_ignore
  insert_or_ignore-ok t r s known = elim (Option-cases (clash t r s)) [
    | inl free ↦ rw (free, insert_or_ignore, known)
    | inr (_, taken) ↦ rw (taken, insert_or_ignore)
  ]

  -- An insert that throws changes nothing.
  pub insert_thrown :
      {Row : Type 0} (t : Relation Row) (r : Row) (s : State) {e : Error}
      → (insert t r s).0 ≡ err e
      → (insert t r s).1 ≡ s
  unfolding insert
  insert_thrown t r s thrown = elim (Option-cases (clash t r s)) [
    | inr (_, taken) ↦ rw (taken, insert)
    | inl free ↦ elim (Bool-cases (t.refers s r)) [
      | inl known ↦ cc (rw (free, insert, known) at thrown)
      | inr unknown ↦ rw (free, insert, unknown)
    ]
  ]

  -- An insert whose reference is missing throws: that its row is taken, if it is, and otherwise that
  -- the reference is missing.
  abbrev pub refusal : {Row : Type 0} → Relation Row → Row → State → Error
  refusal t r s = if is_some (clash t r s) then unique_violation else foreign_key_violation

  pub insert_dangling :
      {Row : Type 0} (t : Relation Row) (r : Row) (s : State)
      → t.refers s r ≡ false
      → insert t r s ≡ (err (refusal t r s), s)
  unfolding insert
  insert_dangling t r s unknown = elim (Option-cases (clash t r s)) [
    | inr (_, taken) ↦ rw (taken, insert)
    | inl free ↦ rw (free, insert, unknown)
  ]

  -- What a table's statements leave alone.
  module _ {Row : Type 0} (t : Relation Row) {A : Type 0} (f : State → A) where
    pub insert_frame :
        (r : Row) (s : State)
        → ((v : env.Table Row) (u : State) → f (t.write v u) ≡ f u)
        → f (insert t r s).1 ≡ f s
    unfolding insert
    insert_frame r s h = elim (Option-cases (clash t r s)) [
      | inl free ↦ elim (Bool-cases (t.refers s r)) [
        | inl known ↦ rw (free, insert, known) (h _ s)
        | inr unknown ↦ rw (free, insert, unknown)
      ]
      | inr (_, taken) ↦ rw (taken, insert)
    ]

    pub insert_or_ignore_frame :
        (r : Row) (s : State)
        → ((v : env.Table Row) (u : State) → f (t.write v u) ≡ f u)
        → f (insert_or_ignore t r s).1 ≡ f s
    unfolding insert_or_ignore
    insert_or_ignore_frame r s h = elim (Option-cases (clash t r s)) [
      | inl free ↦ elim (Bool-cases (t.refers s r)) [
        | inl known ↦ rw (free, insert_or_ignore, known) (h _ s)
        | inr unknown ↦ rw (free, insert_or_ignore, unknown)
      ]
      | inr (_, taken) ↦ rw (taken, insert_or_ignore)
    ]

    pub upsert_frame :
        (target : Row → Row → Bool) (r : Row) (g : Row → Row) (s : State)
        → ((v : env.Table Row) (u : State) → f (t.write v u) ≡ f u)
        → f (upsert t target r g s).1 ≡ f s
    unfolding upsert
    upsert_frame target r g s h = elim (Option-cases (head? (filter (target r) (in_table t s)))) [
      | inl new ↦ rw (new, upsert) (insert_frame r s h)
      | inr (_, old) ↦ rw (old, upsert) (h _ s)
    ]
