-- ===== src/Runtime/Laws/Counts.antt =====
-- How each statement changes the number of rows that pass a test.
use absolo_cloud_services.Base.{
  head?-filter-none, count_none, head?-filter-none, count_congr, count-false, true, false, ◌+◌, ◌≤◌,
  ◌≡◌, ap, ◌∙◌, inl, inr, Bool, true, ◌&&◌, not, arith, Option-cases, Bool-cases, if◌then◌else◌,
  count, count_mono, count_pos_of_head?,
}
use native.Mathlib.Nat.{le_trans}
use absolo_cloud_services.Result.{is_ok, ok}
use absolo_cloud_services.Runtime.Env.{Env}
use absolo_cloud_services.Runtime.State.{State}
use absolo_cloud_services.Runtime.Action.{
  Relation, in_table, insert, insert_or_ignore, update, delete, clash,
}

module _ ⦃env : Env⦄ where
  open env use {rows, update_where, count-insert_into, count-update_where, count-delete_where}

  module _ {Row : Type 0} (q p : Row → Bool) (f : Row → Row) (v : env.Table Row) where
    -- An update that no row's test sees.
    pub count-update_keeps :
        ((r : Row) → q (f r) ≡ q r) → count q (rows (update_where p f v)) ≡ count q (rows v)
    count-update_keeps h = count-update_where q p f v ∙ count_congr _ q (rows v) same
      where
        same : (r : Row) → q (if p r then f r else r) ≡ q r
        same r = elim (Bool-cases (p r)) [ inl yes_p ↦ rw yes_p (h r) | inr no_p ↦ rw no_p ]

    -- An update after which no row passes.
    pub count-update_none :
        ((r : Row) → p r ≡ true → q (f r) ≡ false)
        → ((r : Row) → p r ≡ false → q r ≡ false)
        → count q (rows (update_where p f v)) ≡ 0
    count-update_none h k = count-update_where q p f v ∙ count-false _ (rows v) nowhere
      where
        nowhere : (r : Row) → q (if p r then f r else r) ≡ false
        nowhere r = elim (Bool-cases (p r)) [
          | inl yes_p ↦ rw yes_p (h r yes_p)
          | inr no_p ↦ rw no_p (k r no_p)
        ]

  module _ {Row : Type 0} (t : Relation Row) where
    -- A row that is new to every unique index, and whose references exist, is inserted.
    pub insert-eq-ok :
        (r : Row) (s : State)
        → t.refers s r ≡ true
        → count (t.clashes r) (in_table t s) ≡ 0
        → (insert t r s).0 ≡ ok tt
    unfolding insert
    insert-eq-ok r s known free = elim (Option-cases (clash t r s)) [
      | inl e ↦ rw (e, insert, known)
      | inr (r', e) ↦
          absurd (omega (arith, count_pos_of_head? (t.clashes r) (in_table t s) e, free))
    ]

    -- An insert that returns found no row that clashes.
    pub insert-eq-ok_free :
        (r : Row) (s : State) → (insert t r s).0 ≡ ok tt → count (t.clashes r) (in_table t s) ≡ 0
    unfolding insert
    insert-eq-ok_free r s done = elim (Option-cases (clash t r s)) [
      | inl free ↦ head?-filter-none (t.clashes r) (in_table t s) free
      | inr (_, taken) ↦ cc (rw (taken, insert) at done)
    ]

  module _ {Row : Type 0} (t : Relation Row) (q : Row → Bool) where
    count-write :
        (s : State) (v : env.Table Row) → count q (in_table t (t.write v s)) ≡ count q (rows v)
    count-write s v = ap (λ u. count q (rows u)) (t.read-write v s)

    -- An insert adds its row, or throws and changes nothing.
    pub count-insert :
        (r : Row) (s : State)
        → count q (in_table t (insert t r s).1)
          ≡ count q (in_table t s) + (if is_ok (insert t r s).0 && q r then 1 else 0)
    unfolding insert
    count-insert r s = elim (Option-cases (clash t r s)) [
      | inr (_, taken) ↦ rw (taken, insert) (omega arith)
      | inl free ↦ elim (Bool-cases (t.refers s r)) [
        | inl known ↦ rw (free, insert, known) (count-write s _ ∙ count-insert_into q r (t.read s))
        | inr unknown ↦ rw (free, insert, unknown) (omega arith)
      ]
    ]

    pub count-insert_done :
        (r : Row) (s : State)
        → (insert t r s).0 ≡ ok tt
        → count q (in_table t (insert t r s).1) ≡ count q (in_table t s) + (if q r then 1 else 0)
    count-insert_done r s done =
        count-insert r s ∙ ap (λ o. count q (in_table t s) + (if is_ok o && q r then 1 else 0)) done

    -- At most one row passes a test whose rows clash with each other.
    pub insert_unique :
        (r : Row) (s : State)
        → ((r' : Row) → q r ≡ true → q r' ≡ true → t.clashes r r' ≡ true)
        → count q (in_table t s) ≤ 1
        → count q (in_table t (insert t r s).1) ≤ 1
    unfolding insert
    insert_unique r s similar le = elim (Option-cases (clash t r s)) [
      | inr (_, taken) ↦ rw (taken, insert) le
      | inl free ↦ elim (Bool-cases (t.refers s r)) [
        | inr unknown ↦ rw (free, insert, unknown) le
        | inl known ↦
            rw
              (
                free,
                insert,
                known,
                count-write s (env.insert_into r (t.read s)),
                count-insert_into q r (t.read s),
              )
              (elim (Bool-cases (q r)) [
                | inl same ↦ rw same (
                    omega (
                      arith,
                      count_none q (t.clashes r) (in_table t s) (λ r' h. similar r' same h)
                          (head?-filter-none (t.clashes r) (in_table t s) free),
                    ))
                | inr other ↦ rw other (omega (arith, le))
              ])
      ]
    ]

    pub count-update :
        (p : Row → Bool) (f : Row → Row) (s : State)
        → count q (in_table t (update t p f s).1)
          ≡ count (λ r. q (if p r then f r else r)) (in_table t s)
    count-update p f s = count-write s _ ∙ count-update_where q p f (t.read s)

    pub count-delete :
        (p : Row → Bool) (s : State)
        → count q (in_table t (delete t p s).1) ≡ count (λ r. q r && not (p r)) (in_table t s)
    count-delete p s = count-write s _ ∙ count-delete_where q p (t.read s)

    -- After an insert that ignores conflicts, the row or one that clashes with it is there.
    pub insert_or_ignore_present :
        (r : Row) (s : State)
        → ((r' : Row) → t.clashes r r' ≡ true → q r' ≡ true)
        → q r ≡ true
        → (insert_or_ignore t r s).0 ≡ ok tt
        → 1 ≤ count q (in_table t (insert_or_ignore t r s).1)
    unfolding insert_or_ignore
    insert_or_ignore_present r s similar same done = elim (Option-cases (clash t r s)) [
      | inr (r', e) ↦
          rw (e, insert_or_ignore)
            (le_trans (count_pos_of_head? (t.clashes r) (in_table t s) e)
              (count_mono (t.clashes r) q (in_table t s) similar))
      | inl free ↦ elim (Bool-cases (t.refers s r)) [
        | inl known ↦
            rw
              (
                free,
                insert_or_ignore,
                known,
                count-write s (env.insert_into r (t.read s)),
                count-insert_into q r (t.read s),
                same,
              )
              (omega arith)
        | inr unknown ↦ cc (rw (free, insert_or_ignore, unknown) at done)
      ]
    ]

    -- A row that fails the test is not counted, whether it is inserted or not.
    pub insert_or_ignore_unseen :
        (r : Row) (s : State)
        → q r ≡ false
        → count q (in_table t (insert_or_ignore t r s).1) ≡ count q (in_table t s)
    unfolding insert_or_ignore
    insert_or_ignore_unseen r s unseen = elim (Option-cases (clash t r s)) [
      | inr (r', e) ↦ rw (e, insert_or_ignore)
      | inl free ↦ elim (Bool-cases (t.refers s r)) [
        | inl known ↦
            rw
              (
                free,
                insert_or_ignore,
                known,
                count-write s (env.insert_into r (t.read s)),
                count-insert_into q r (t.read s),
                unseen,
              )
              (omega arith)
        | inr unknown ↦ rw (free, insert_or_ignore, unknown)
      ]
    ]
