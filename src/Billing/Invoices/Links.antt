-- ===== src/Billing/Invoices/Links.antt =====
-- What `getInvoicePdfUrl` of services/control-plane/src/modules/billing/billing.service.ts keeps of
-- the link to an invoice's document.
use absolo_cloud_services.Base.{
  ◌+◌, ◌≤◌, String, ◌⧺◌, ◌≡◌, refl, sym, ap, ◌∙◌, ◌⊎◌, inl, inr, true, ◌&&◌, not, Bool-cases,
  Option, none, some, some_eq, or_default, ◌==◌, eq_refl, eq_iff, head?, filter, count,
  count_pos_of_head?, head?-filter_seen, head?-filter-count, Option-cases, arith,
}
use absolo_cloud_services.Result.{Result, ok, err, Error, not_found, Result-cases}
use absolo_cloud_services.Runtime.Env.{Env}
use absolo_cloud_services.Runtime.State.{State}
use absolo_cloud_services.Runtime.Action.{Action, respond, in_table}
use absolo_cloud_services.Runtime.Laws.{
  >>=-ok, >>=-err, or_throw-none, or_throw-some, count-update_keeps, count-update_none,
}
use absolo_cloud_services.Schema.Billing.{Invoice}
use absolo_cloud_services.Runtime.Tables.Billing.{invoices}
use absolo_cloud_services.Billing.Invoices.{
  is_invoice, truthy, keep_url, fetch_url, url_of, get_invoice_pdf_url,
}

module _ ⦃env : Env⦄ where
  abbrev url_in : Result (Option String) → Option String
  url_in (ok o) = o
  url_in (err e) = none

  truthy-some : (o : Option String) {u : String} → truthy o ≡ some u → truthy (some u) ≡ some u
  truthy-some none e = cc
  truthy-some (some t) {u} e = elim (Bool-cases (t == "")) [
    | inl blank ↦ cc (rw blank at e)
    | inr full ↦ rw (sym (ap (λ o. or_default o "") (rw full at e)), full) refl
  ]

  some_eq_lem : (o : Option String) (u : String) → some_eq o u ≡ true → o ≡ some u
  some_eq_lem none u e = cc
  some_eq_lem (some t) u e = ap (λ t. some t) ((eq_iff t u).0 e)

  abbrev invoice_not_found : String → Error
  invoice_not_found id = not_found ("Invoice " ⧺ id ⧺ " not found")

  -- The rest, once the invoice is found.
  link_of : String → Invoice → Action (Option String)
  link_of id inv = url_of id (truthy inv.pdf_url) (truthy inv.stripe_invoice_id)

  abbrev with_url : String → String → env.Table Invoice → env.Table Invoice
  with_url id u t = env.update_where (λ r. r.id == id) (λ r. record r { pdf_url = some u }) t

  keep_url-cases :
      (id : String) (o : Option String) (p : Option String) (s : State) {url : String}
      → truthy o ≡ p
      → (keep_url id p s).0 ≡ ok (some url)
      → (truthy o ≡ some url) × ((keep_url id p s).1.invoices ≡ with_url id url s.invoices)
  unfolding keep_url
  keep_url-cases id o none s same e = cc
  keep_url-cases id o (some u) s {url} same e =
      let is_url : some u ≡ some url = ap url_in e in
      (same ∙ is_url, ap (λ p. with_url id (or_default p "") s.invoices) is_url)

  url_of-cases :
      (id : String) (p q : Option String) (s : State) {url : String}
      → (url_of id p q s).0 ≡ ok (some url)
      → ((p ≡ some url) × (url_of id p q s ≡ (ok (some url), s)))
        ⊎ ((o : Option String) × (truthy o ≡ some url)
            × ((url_of id p q s).1.invoices ≡ with_url id url s.invoices))
  unfolding url_of fetch_url
  url_of-cases id (some u) q s e = inl (ap url_in e, ap (λ r. (r, s)) e)
  url_of-cases id none none s e = cc
  url_of-cases id none (some sid) s {url} e =
      elim (Result-cases (env.invoices_retrieve s.tick sid)) [
        | inr (x, thrown) ↦ cc (
            sym (
              ap (λ o. o.0)
                (>>=-err (respond (λ n. env.invoices_retrieve n sid))
                  (λ i. keep_url id (truthy i.invoice_pdf)) s thrown))
            ∙ e)
        | inl (i, done) ↦
            let step =
              >>=-ok (respond (λ n. env.invoices_retrieve n sid))
                (λ i. keep_url id (truthy i.invoice_pdf)) s done in
            let (is_url, table) =
              keep_url-cases id i.invoice_pdf (truthy i.invoice_pdf)
                (record s { tick = s.tick + 1 }) {url = url} refl (sym (ap (λ o. o.0) step) ∙ e) in
            inr (i.invoice_pdf, is_url, ap (λ o. o.1.invoices) step ∙ table)
      ]

  -- After the link is kept, the invoice is found with it.
  kept :
      (org_id id u : String) (o : Option String) (t : env.Table Invoice)
      → truthy o ≡ some u
      → 1 ≤ count (is_invoice org_id id) (env.rows t)
      → (v : State)
      → v.invoices ≡ env.update_where (λ r. r.id == id) (λ r. record r { pdf_url = some u }) t
      → get_invoice_pdf_url org_id id v ≡ (ok (some u), v)
  unfolding get_invoice_pdf_url url_of link_of
  kept org_id id u o t is_url pos v e =
      let l = in_table invoices v in
      let still : 1 ≤ count (is_invoice org_id id) l = omega (
        arith,
        pos,
        ap (λ w. count (is_invoice org_id id) (env.rows w)) e,
        count-update_keeps (is_invoice org_id id) (λ r. r.id == id)
            (λ r. record r { pdf_url = some u }) t (λ r. refl),
      ) in
      let (r, found) = head?-filter_seen (is_invoice org_id id) l still in
      let without : count (λ r. is_invoice org_id id r && not (some_eq r.pdf_url u)) l ≡ 0 =
        ap (λ w. count (λ r. is_invoice org_id id r && not (some_eq r.pdf_url u)) (env.rows w)) e
        ∙ count-update_none (λ r. is_invoice org_id id r && not (some_eq r.pdf_url u))
            (λ r. r.id == id) (λ r. record r { pdf_url = some u }) t
            (λ r h. rw (eq_refl u) (ground arith)) (λ r h. rw h refl) in
      elim (Bool-cases (some_eq r.pdf_url u)) [
        | inr differs ↦ absurd (
            omega (
              arith,
              without,
              head?-filter-count (is_invoice org_id id) (λ r. not (some_eq r.pdf_url u)) l {r = r}
                  found (rw differs refl),
            ))
        | inl agrees ↦
            or_throw-some (invoice_not_found id) (head? (filter (is_invoice org_id id) l))
              (link_of id) v found
            ∙ ap (λ p. url_of id (truthy p) (truthy r.stripe_invoice_id) v)
                (some_eq_lem r.pdf_url u agrees)
            ∙ ap (λ p. url_of id p (truthy r.stripe_invoice_id) v) (truthy-some o is_url)
      ]

  -- The invoice that was found, in a state with the same invoices.
  still_there :
      (org_id id : String) (s v : State) {inv : Invoice} {url : String}
      → head? (filter (is_invoice org_id id) (in_table invoices s)) ≡ some inv
      → truthy inv.pdf_url ≡ some url
      → v.invoices ≡ s.invoices
      → get_invoice_pdf_url org_id id v ≡ (ok (some url), v)
  unfolding get_invoice_pdf_url url_of link_of
  still_there org_id id s v {inv} {url} found is_url e =
      or_throw-some (invoice_not_found id)
        (head? (filter (is_invoice org_id id) (in_table invoices v))) (link_of id) v
        (ap (λ t. head? (filter (is_invoice org_id id) (env.rows t))) e ∙ found)
      ∙ ap (λ p. url_of id p (truthy inv.stripe_invoice_id) v) is_url

  -- A link that was returned is returned again, with no call of Stripe and no change, in every later
  -- state in which the table of invoices is as the first call left it.
  pub get_invoice_pdf_url_cached :
      (org_id id : String) (s v : State) {url : String}
      → (get_invoice_pdf_url org_id id s).0 ≡ ok (some url)
      → v.invoices ≡ (get_invoice_pdf_url org_id id s).1.invoices
      → get_invoice_pdf_url org_id id v ≡ (ok (some url), v)
  unfolding get_invoice_pdf_url link_of
  get_invoice_pdf_url_cached org_id id s v {url} e left =
      elim (Option-cases (head? (filter (is_invoice org_id id) (in_table invoices s)))) [
        | inl missing ↦ cc (
            sym (
              ap (λ o. o.0)
                (or_throw-none (invoice_not_found id)
                  (head? (filter (is_invoice org_id id) (in_table invoices s))) (link_of id) s
                  missing))
            ∙ e)
        | inr (inv, found) ↦
            let same =
              or_throw-some (invoice_not_found id)
                (head? (filter (is_invoice org_id id) (in_table invoices s))) (link_of id) s
                found in
            elim (url_of-cases id (truthy inv.pdf_url) (truthy inv.stripe_invoice_id) s {url = url}
              (sym (ap (λ o. o.0) same) ∙ e)) [
                | inl (is_url, there) ↦
                    still_there org_id id s v {inv = inv} found is_url
                      (left ∙ ap (λ o. o.1.invoices) (same ∙ there))
                | inr (o, is_url, table) ↦
                    kept org_id id url o s.invoices is_url
                      (count_pos_of_head? (is_invoice org_id id) (in_table invoices s) {r = inv}
                        found)
                      v (left ∙ ap (λ o. o.1.invoices) same ∙ table)
              ]
      ]
