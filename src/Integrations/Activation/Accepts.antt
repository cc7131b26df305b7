-- ===== src/Integrations/Activation/Accepts.antt =====
-- When an activation is taken (src/modules/integrations/integrations.service.ts).
use text.Mathlib.Text.{◌==◌ as str_eq}
use text.Mathlib.TextEquality.{eq_iff}
use isp_sam_backend.Prelude.{
  ℕ, ◌≡◌, ◌≢◌, ap, refl, sym, ◌∙◌, String, Bool, true, false, Option, none, some, List, [], ◌∷◌,
  arith, includes, Option-cases, Bool-cases, inl, inr, select, gather,
}
use isp_sam_backend.Db.{Account, Store, Table, ok, latest, find_newest}
use isp_sam_backend.World.{World}
use isp_sam_backend.Accounts.Import.Write.{is_in_use}
use isp_sam_backend.Accounts.Import.Write.Unique.{
  IsIndexed, Column, lead, crm_customer, customer_code, circuit, column, is_in_use-false,
}
use isp_sam_backend.Integrations.Activation.{
  CustomerPayload, has_crm_id, upsert_account, created_account, refreshed_account,
}

-- What `findFirst` gives is a row that passes the test.
latest_found :
    (p : Account → Bool) (row : ℕ → Option Account) (ks : List ℕ) (acc : Option Account)
    (a : Account)
    → ((b : Account) → acc ≡ some b → (k : ℕ) × (row k ≡ some b) × (p b ≡ true))
    → latest acc (select p (gather row ks)) ≡ some a
    → (k : ℕ) × (row k ≡ some a) × (p a ≡ true)
latest_found p row [] acc a h e = h a e
latest_found p row (k ∷ ks) acc a h e = elim (Option-cases (row k)) [
  | inl f ↦ latest_found p row ks acc a h (ground arith)
  | inr (b, f) ↦ elim (Bool-cases (p b)) [
    | inr n ↦ latest_found p row ks acc a h (ground arith)
    | inl y ↦
        latest_found p row ks (some b) a (λ d q. (k, ground arith, ground arith)) (ground arith)
  ]
]

pub newest_found :
    (p : Account → Bool) (t : Table Account) (a : Account)
    → find_newest p t ≡ some a
    → (k : ℕ) × (t.row k ≡ some a) × (p a ≡ true)
newest_found p t a e = latest_found p (λ k. t.row k) t.keys none a (λ b q. cc) e

pub has_crm_id-some :
    (x : String) (a : Account) → has_crm_id x a ≡ true → a.external_crm_id ≡ some x
has_crm_id-some x a h = elim (Option-cases a.external_crm_id) [
  | inl e ↦ absurd (ground arith)
  | inr (y, e) ↦
      let same : str_eq x y ≡ true = ground arith in
      e ∙ ap (λ t. some t) (sym ((eq_iff x y).0 same))
]

latest-some-ne : (a : Account) (xs : List Account) → latest (some a) xs ≢ none
latest-some-ne a [] e = cc
latest-some-ne a (x ∷ xs) e = latest-some-ne x xs e

-- Where `findFirst` gives nothing, no listed row passes the test.
latest-none :
    (p : Account → Bool) (row : ℕ → Option Account) (ks : List ℕ) (k : ℕ) (a : Account)
    → latest none (select p (gather row ks)) ≡ none
    → includes k ks ≡ true
    → row k ≡ some a
    → p a ≡ false
latest-none p row [] k a e i f = cc
latest-none p row (j ∷ js) k a e i f = elim (Option-cases (row j)) [
  | inl q ↦ ground (arith, latest-none p row js k a)
  | inr (b, q) ↦ elim (Bool-cases (p b)) [
    | inl t ↦ absurd (latest-some-ne b (select p (gather row js)) (ground arith))
    | inr t ↦ ground (arith, latest-none p row js k a)
  ]
]

module _ (w : World) (p : CustomerPayload) (arc : ℕ) (s : Store) (h : IsIndexed s.accounts)
    (vacant : s.accounts.row w.fresh_id ≡ none)
    (apart : (j : ℕ) (b : Account) (x : String)
      → s.accounts.row j ≡ some b
      → p.circuit_id ≡ some x
      → b.circuit_id ≡ some x
      → b.external_crm_id ≡ some p.external_id) where
  -- No account has the CRM id that was sent.
  module _ (unnamed : find_newest (has_crm_id p.external_id) s.accounts ≡ none) where
    no_customer :
        (j : ℕ) (b : Account) → s.accounts.row j ≡ some b → b.external_crm_id ≢ some p.external_id
    no_customer j b f q =
        let no =
          latest-none (has_crm_id p.external_id) (λ k. s.accounts.row k) s.accounts.keys j b unnamed
            (h.listed j b f) f in
        let same = (eq_iff p.external_id p.external_id).1 refl in ground arith

    created-apart :
        (c : Column) (j : ℕ) (b : Account) (x : String)
        → s.accounts.row j ≡ some b
        → column c (created_account w p arc) ≡ some x
        → column c b ≢ some x
    created-apart lead j b x f e q = cc
    created-apart crm_customer j b x f e q = no_customer j b f (q ∙ sym e)
    created-apart customer_code j b x f e q = cc
    created-apart circuit j b x f e q = no_customer j b f (apart j b x f e q)

  -- The account `a` has it.
  module _ (k : ℕ) (a : Account) (row : s.accounts.row k ≡ some a)
      (named : a.external_crm_id ≡ some p.external_id) where
    refreshed-apart :
        (c : Column) (j : ℕ) (b : Account) (x : String)
        → s.accounts.row j ≡ some b
        → b.id ≢ a.id
        → column c (refreshed_account p arc a) ≡ some x
        → column c b ≢ some x
    refreshed-apart lead j b x f ne e q =
        let same = h.unique lead j k b a x f row q e in
        ne (h.keyed j b f ∙ same ∙ sym (h.keyed k a row))
    refreshed-apart crm_customer j b x f ne e q =
        let same = h.unique crm_customer j k b a x f row q e in
        ne (h.keyed j b f ∙ same ∙ sym (h.keyed k a row))
    refreshed-apart customer_code j b x f ne e q =
        let same = h.unique customer_code j k b a x f row q e in
        ne (h.keyed j b f ∙ same ∙ sym (h.keyed k a row))
    refreshed-apart circuit j b x f ne e q =
        let same = h.unique crm_customer j k b a p.external_id f row (apart j b x f e q) named in
        ne (h.keyed j b f ∙ same ∙ sym (h.keyed k a row))

  -- An activation is taken where its new id is free and the circuit that was sent, if there is one, is
  -- on no account but that of the customer.
  pub upsert_account-accepts : (k : ℕ) × ((upsert_account w p arc s).0 ≡ ok k)
  unfolding upsert_account
  upsert_account-accepts = elim (Option-cases (find_newest (has_crm_id p.external_id) s.accounts)) [
    | inl e ↦
        let free : is_in_use w.fresh_id (created_account w p arc) s ≡ false =
          is_in_use-false w.fresh_id (created_account w p arc) s
            (λ j b c x f ne. created-apart e c j b x f) in
        (w.fresh_id, ground arith)
    | inr (a, e) ↦
        let (k, f, named) = newest_found (has_crm_id p.external_id) s.accounts a e in
        let free : is_in_use a.id (refreshed_account p arc a) s ≡ false =
          is_in_use-false a.id (refreshed_account p arc a) s (λ j b c x g ne.
            refreshed-apart k a f (has_crm_id-some p.external_id a named) c j b x g ne) in
        (a.id, ground arith)
  ]
