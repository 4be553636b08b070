-- ===== src/Runtime/Action.antt =====
-- An async method: it reads and changes the state, and returns or throws. What was written before
-- a throw stays written, but for a transaction, which is rolled back.
use absolo_cloud_services.Base.{
  map, ℕ, ◌+◌, ◌≡◌, Bool, Option, none, some, List, [], map, ◌∷◌, String, ◌⧺◌, head?, filter,
  if◌then◌else◌,
}
use absolo_cloud_services.Result.{Error, Result, ok, err, unique_violation, foreign_key_violation}
use absolo_cloud_services.Runtime.Env.{Env}
use absolo_cloud_services.Runtime.State.{State}
use absolo_cloud_services.Runtime.Stripe.{Call}

module _ ⦃env : Env⦄ where
  open env use {Table, rows, insert_into, update_where, delete_where}

  abbrev pub Action : Type 0 → Type 0
  Action A = State → Result A × State

  abbrev pub pure : {A : Type 0} → A → Action A
  pure a s = (ok a, s)

  abbrev pub throw : {A : Type 0} → Error → Action A
  throw e s = (err e, s)

  infixl 5 ◌>>=◌ ◌>>◌
  abbrev pub ◌>>=◌ : {A B : Type 0} → Action A → (A → Action B) → Action B
  ◌>>=◌ m f s = let (r, s') = m s in elim r [ ok a ↦ f a s' | err e ↦ (err e, s') ]

  abbrev pub ◌>>◌ : {A B : Type 0} → Action A → Action B → Action B
  m >> k = m >>= λ _. k

  -- `if (c) { … }`
  abbrev pub when : Bool → Action (Unit {0}) → Action (Unit {0})
  when c m s = if c then m s else (ok tt, s)

  -- `const [row] = …; if (!row) throw e`
  abbrev pub or_throw : {A : Type 0} → Error → Option A → Action A
  or_throw e none s = (err e, s)
  or_throw e (some a) s = (ok a, s)

  -- `try { m } catch (e) { h e }`
  abbrev pub catch : {A : Type 0} → Action A → (Error → Action A) → Action A
  catch m h s = let (r, s') = m s in elim r [ ok a ↦ (ok a, s') | err e ↦ h e s' ]

  -- `db.transaction(tx => m)`: a throw undoes the writes to the tables. The ticks and the calls
  -- stay spent, since neither is a row.
  abbrev pub transaction : {A : Type 0} → Action A → Action A
  transaction m s =
      let (r, s') = m s in
      elim r [ ok a ↦ (ok a, s') | err e ↦ (err e, record s { tick = s'.tick; calls = s'.calls }) ]

  abbrev pub lift : {A : Type 0} → Result A → Action A
  lift r s = (r, s)

  -- An outcome of the n-th call of something that is not a function.
  abbrev pub next : {A : Type 0} → (ℕ → A) → Action A
  next f s = (ok (f s.tick), record s { tick = s.tick + 1 })

  abbrev pub respond : {A : Type 0} → (ℕ → Result A) → Action A
  respond f s = (f s.tick, record s { tick = s.tick + 1 })

  -- A call that changes something at Stripe.
  abbrev pub send : {A : Type 0} → Call → (ℕ → Result A) → Action A
  send c f s = (f s.tick, record s { tick = s.tick + 1; calls = c ∷ s.calls })

  -- `new Date()`
  abbrev pub now : Action ℕ
  now = next env.clock

  -- `newId(prefix)`
  abbrev pub new_id : String → Action String
  new_id prefix = next (λ n. prefix ⧺ "_" ⧺ env.ulid n)

  -- A table of the state: how it is read and replaced, when two of its rows may not both stand
  -- there (its primary key and unique indexes), and whether the rows that a row references exist.
  pub record Relation (Row : Type 0) : Type 0 where
    pub read : State → Table Row
    pub write : Table Row → State → State
    pub clashes : Row → Row → Bool
    pub refers : State → Row → Bool
    pub read-write : (v : Table Row) (s : State) → read (write v s) ≡ v

  module _ {Row : Type 0} (t : Relation Row) where
    -- the rows of the table in a state
    abbrev pub in_table : State → List Row
    in_table s = rows (t.read s)

    -- `db.select().from(t).where(p)`
    abbrev pub select : (Row → Bool) → Action (List Row)
    select p s = (ok (filter p (in_table s)), s)

    -- `const [row] = await db.select().from(t).where(p)`
    abbrev pub select_first : (Row → Bool) → Action (Option Row)
    select_first p s = (ok (head? (filter p (in_table s))), s)

    -- A row that the table holds already by one of its unique indexes.
    abbrev pub clash : Row → State → Option Row
    clash r s = head? (filter (t.clashes r) (in_table s))

    -- `db.insert(t).values(r)`: the unique indexes are checked as the row is stored, the references
    -- at the end of the statement.
    unfoldable pub insert : Row → Action (Unit {0})
    insert r s = elim (clash r s) [
      | some _ ↦ (err unique_violation, s)
      | none ↦
          if t.refers s r
          then (ok tt, t.write (insert_into r (t.read s)) s)
          else (err foreign_key_violation, s)
    ]

    -- `db.insert(t).values(r).onConflictDoNothing()`
    unfoldable pub insert_or_ignore : Row → Action (Unit {0})
    insert_or_ignore r s = elim (clash r s) [
      | some _ ↦ (ok tt, s)
      | none ↦
          if t.refers s r
          then (ok tt, t.write (insert_into r (t.read s)) s)
          else (err foreign_key_violation, s)
    ]

    -- `db.insert(t).values(r).onConflictDoUpdate({ target, set: f })`, where `target` says which
    -- rows have the same value in the target's column.
    unfoldable pub upsert : (Row → Row → Bool) → Row → (Row → Row) → Action (Unit {0})
    upsert target r f s = elim (head? (filter (target r) (in_table s))) [
      | some _ ↦ (ok tt, t.write (update_where (target r) f (t.read s)) s)
      | none ↦ insert r s
    ]

    -- `db.update(t).set(f).where(p)`
    abbrev pub update : (Row → Bool) → (Row → Row) → Action (Unit {0})
    update p f s = (ok tt, t.write (update_where p f (t.read s)) s)

    -- `db.update(t).set(f).where(p).returning()`
    abbrev pub update_returning : (Row → Bool) → (Row → Row) → Action (List Row)
    update_returning p f s =
        (ok (map f (filter p (in_table s))), t.write (update_where p f (t.read s)) s)

    -- `db.insert(t).values(rows)`: one statement, so it inserts all rows or none. The rows are stored
    -- one after another, and the references of all are checked at the end.
    store_each : List Row → Action (Unit {0})
    store_each [] s = (ok tt, s)
    store_each (r ∷ l) s = elim (clash r s) [
      | some _ ↦ (err unique_violation, s)
      | none ↦ store_each l (t.write (insert_into r (t.read s)) s)
    ]

    check_references : List Row → Action (Unit {0})
    check_references [] s = (ok tt, s)
    check_references (r ∷ l) s =
        if t.refers s r then check_references l s else (err foreign_key_violation, s)

    unfoldable pub insert_all : List Row → Action (Unit {0})
    unfolding store_each check_references
    insert_all l = transaction (store_each l >> check_references l)

    -- `db.delete(t).where(p)`
    abbrev pub delete : (Row → Bool) → Action (Unit {0})
    delete p s = (ok tt, t.write (delete_where p (t.read s)) s)
