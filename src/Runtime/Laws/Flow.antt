-- ===== src/Runtime/Laws/Flow.antt =====
-- How a method goes on after a call.
use absolo_cloud_services.Base.{Option, none, some, refl, sym, ◌≡◌, ap, ◌∙◌, inl, inr}
use absolo_cloud_services.Result.{Result-cases, Error, err, ok}
use absolo_cloud_services.Runtime.Env.{Env}
use absolo_cloud_services.Runtime.State.{State}
use absolo_cloud_services.Runtime.Action.{or_throw, catch, transaction, Action, ◌>>=◌}

module _ ⦃env : Env⦄ where
  open env use {rows, update_where, count-insert_into, count-update_where, count-delete_where}

  -- A method goes on after a call that returns, and throws what a call throws.
  pub >>=-ok :
      {A B : Type 0} (m : Action A) (f : A → Action B) (s : State) {a : A}
      → (m s).0 ≡ ok a
      → (m >>= f) s ≡ f a (m s).1
  >>=-ok m f s done = rw (done, ◌>>=◌)

  pub >>=-err :
      {A B : Type 0} (m : Action A) (f : A → Action B) (s : State) {e : Error}
      → (m s).0 ≡ err e
      → (m >>= f) s ≡ (err e, (m s).1)
  >>=-err m f s thrown = rw (thrown, ◌>>=◌)

  -- A method that returns has returned from each of its calls.
  pub >>=-eq-ok :
      {A B : Type 0} (m : Action A) (f : A → Action B) (s : State) {b : B}
      → ((m >>= f) s).0 ≡ ok b
      → (a : A) × ((m s).0 ≡ ok a) × ((f a (m s).1).0 ≡ ok b) × (((m >>= f) s).1 ≡ (f a (m s).1).1)
  >>=-eq-ok m f s done = elim (Result-cases (m s).0) [
    | inl (a, e) ↦
        (a, e, ap (λ o. o.0) (sym (>>=-ok m f s e)) ∙ done, ap (λ o. o.1) (>>=-ok m f s e))
    | inr (e, thrown) ↦ cc (rw (>>=-err m f s thrown) at done)
  ]

  pub catch-ok :
      {A : Type 0} (m : Action A) (h : Error → Action A) (s : State) {a : A}
      → (m s).0 ≡ ok a
      → catch m h s ≡ (ok a, (m s).1)
  catch-ok m h s done = rw (done, catch)

  pub catch-err :
      {A : Type 0} (m : Action A) (h : Error → Action A) (s : State) {e : Error}
      → (m s).0 ≡ err e
      → catch m h s ≡ h e (m s).1
  catch-err m h s thrown = rw (thrown, catch)

  -- To return something after a call changes nothing more.
  pub >>-pure :
      {A B : Type 0} (m : Action A) (f : A → B) (s : State)
      → ((m >>= λ a. (λ u. (ok (f a), u))) s).1 ≡ (m s).1
  >>-pure m f s = elim (Result-cases (m s).0) [
    | inl (a, e) ↦ ap (λ o. o.1) (>>=-ok m (λ a. λ u. (ok (f a), u)) s e)
    | inr (e, thrown) ↦ ap (λ o. o.1) (>>=-err m (λ a. λ u. (ok (f a), u)) s thrown)
  ]

  -- What neither call sees, their sequence does not.
  pub >>=_frame :
      {A B C : Type 0} (f : State → C) (m : Action A) (k : A → Action B) (s : State)
      → f (m s).1 ≡ f s
      → ((a : A) (u : State) → f (k a u).1 ≡ f u)
      → f ((m >>= k) s).1 ≡ f s
  >>=_frame f m k s first later = elim (Result-cases (m s).0) [
    | inl (a, done) ↦ rw (done, ◌>>=◌) (later a (m s).1 ∙ first)
    | inr (e, thrown) ↦ rw (thrown, ◌>>=◌) first
  ]

  -- `if (!row) throw e`, in front of the rest of a method.
  pub or_throw-none :
      {A B : Type 0} (e : Error) (o : Option A) (k : A → Action B) (s : State)
      → o ≡ none
      → (or_throw e o >>= k) s ≡ (err e, s)
  or_throw-none e o k s missing = ap (λ x. (or_throw e x >>= k) s) missing

  pub or_throw-some :
      {A B : Type 0} (e : Error) (o : Option A) (k : A → Action B) (s : State) {a : A}
      → o ≡ some a
      → (or_throw e o >>= k) s ≡ k a s
  or_throw-some e o k s found = ap (λ x. (or_throw e x >>= k) s) found

  pub or_throw_frame :
      {A C : Type 0} (f : State → C) (e : Error) (o : Option A) (s : State)
      → f (or_throw e o s).1 ≡ f s
  or_throw_frame f e none s = refl
  or_throw_frame f e (some a) s = refl

  -- A transaction that returns keeps all writes, and one that throws none.
  pub transaction-ok :
      {A : Type 0} (m : Action A) (s : State) {a : A}
      → (m s).0 ≡ ok a
      → transaction m s ≡ (ok a, (m s).1)
  transaction-ok m s done = rw (done, transaction)

  pub transaction-err :
      {A : Type 0} (m : Action A) (s : State) {e : Error}
      → (m s).0 ≡ err e
      → transaction m s ≡ (err e, record s { tick = (m s).1.tick; calls = (m s).1.calls })
  transaction-err m s thrown = rw (thrown, transaction)
