-- ===== src/Accounts/Edit/Laws.antt =====
-- What an edit leaves of an account (src/modules/accounts/accounts.service.ts).
use text.Mathlib.TextEquality.{eq_iff}
use isp_sam_backend.Prelude.{
  ℕ, ◌≡◌, ◌==◌, String, Bool, true, false, Option, none, some, List, [], ◌∷◌, ◌++◌, All, get_or,
  arith, refl, ◌∙◌, inl, inr, ap, Bool-cases, Option-cases,
}
use isp_sam_backend.Dates.{start_of_day_utc}
use isp_sam_backend.Db.{
  ContractStatus, active, expired, terminated, pending, probable_churn, disconnecting,
  pending_quick_approval, pending_approval, same_status, Account, Json, json_or_null,
}
use isp_sam_backend.Accounts.Edit.{
  TextField, client_name_field, company_name_field, mobile_number_field, email_field,
  current_plan_field, customer_code_field, circuit_id_field, address_field, gst_number_field,
  contact_person_name_field, industry_type_field, circle_field, account_manager_field,
  user_name_field, ip_details_field, lead_id_field, external_crm_id_field, text_fields, text_of,
  field_name, AccountUpdatePatch, UpdateData, same_text, same_figure, same_day, differing,
  next_text, update_data, diff_of, text_diffs, diffs_of, edited_account, clears_name, day_of_update,
}

same_text_sound : (x y : Option String) → same_text x y ≡ true → x ≡ y
same_text_sound none none h = refl
same_text_sound none (some y) h = ground arith
same_text_sound (some x) none h = ground arith
same_text_sound (some x) (some y) h = ap (λ t. some t) ((eq_iff x y).0 h)

same_figure_sound : (x y : Option ℕ) → same_figure x y ≡ true → x ≡ y
same_figure_sound none none h = refl
same_figure_sound none (some y) h = ground arith
same_figure_sound (some x) none h = ground arith
same_figure_sound (some x) (some y) h = ground arith

same_status_sound : (x y : ContractStatus) → same_status x y ≡ true → x ≡ y
same_status_sound active y h = ground arith
same_status_sound expired y h = ground arith
same_status_sound terminated y h = ground arith
same_status_sound pending y h = ground arith
same_status_sound probable_churn y h = ground arith
same_status_sound disconnecting y h = ground arith
same_status_sound pending_quick_approval y h = ground arith
same_status_sound pending_approval y h = ground arith

-- Writing what differs is writing what is given.
differing-get_or :
    {A : Type 0} (same : A → A → Bool)
    → ((x y : A) → same x y ≡ true → x ≡ y)
    → (prev : A) (given : Option A) → get_or (differing same prev given) prev ≡ get_or given prev
differing-get_or same sound prev none = refl
differing-get_or same sound prev (some next) = elim (Bool-cases (same prev next)) [
  | inl e ↦ let q = sound prev next e in ground arith
  | inr e ↦ ground arith
]

append_nil : {A : Type 0} (xs ys : List A) → xs ++ ys ≡ [] → (xs ≡ []) × (ys ≡ [])
append_nil [] ys e = (refl, e)
append_nil (x ∷ xs) ys e = absurd (ground arith)

diff_of_nil :
    {A : Type 0} (name : String) (json : A → Json) (prev : A) (given : Option A)
    → diff_of name json prev given ≡ []
    → given ≡ none
diff_of_nil name json prev none e = refl
diff_of_nil name json prev (some next) e = absurd (ground arith)

text_diffs_nil :
    (fs : List TextField) (d : UpdateData) (a : Account)
    → text_diffs fs d a ≡ []
    → All (λ f. d.text f ≡ none) fs
text_diffs_nil [] d a e = tt
text_diffs_nil (f ∷ fs) d a e =
    let (x, y) =
      append_nil (diff_of (field_name f) (json_or_null Json.text) (text_of f a) (d.text f))
        (text_diffs fs d a) e in
    (
      diff_of_nil (field_name f) (json_or_null Json.text) (text_of f a) (d.text f) x,
      text_diffs_nil fs d a y,
    )

-- Every text field is listed.
listed : (P : TextField → Type 0) → All P text_fields → (f : TextField) → P f
listed P h client_name_field = h.0
listed P h company_name_field = h.1.0
listed P h mobile_number_field = h.1.1.0
listed P h email_field = h.1.1.1.0
listed P h current_plan_field = h.1.1.1.1.0
listed P h customer_code_field = h.1.1.1.1.1.0
listed P h circuit_id_field = h.1.1.1.1.1.1.0
listed P h address_field = h.1.1.1.1.1.1.1.0
listed P h gst_number_field = h.1.1.1.1.1.1.1.1.0
listed P h contact_person_name_field = h.1.1.1.1.1.1.1.1.1.0
listed P h industry_type_field = h.1.1.1.1.1.1.1.1.1.1.0
listed P h circle_field = h.1.1.1.1.1.1.1.1.1.1.1.0
listed P h account_manager_field = h.1.1.1.1.1.1.1.1.1.1.1.1.0
listed P h user_name_field = h.1.1.1.1.1.1.1.1.1.1.1.1.1.0
listed P h ip_details_field = h.1.1.1.1.1.1.1.1.1.1.1.1.1.1.0
listed P h lead_id_field = h.1.1.1.1.1.1.1.1.1.1.1.1.1.1.1.0
listed P h external_crm_id_field = h.1.1.1.1.1.1.1.1.1.1.1.1.1.1.1.1.0

-- The texts that are written. A name that is cleared would not be.
text_of-edited_account :
    (f : TextField) (d : UpdateData) (a : Account)
    → clears_name d ≡ false
    → text_of f (edited_account d a) ≡ get_or (d.text f) (text_of f a)
text_of-edited_account client_name_field d a h = elim (Option-cases (d.text client_name_field)) [
  | inl e ↦ ground arith
  | inr (v, e) ↦ elim (Option-cases v) [ inl n ↦ ground arith | inr (t, n) ↦ ground arith ]
]
text_of-edited_account company_name_field d a h = refl
text_of-edited_account mobile_number_field d a h = refl
text_of-edited_account email_field d a h = refl
text_of-edited_account current_plan_field d a h = refl
text_of-edited_account customer_code_field d a h = refl
text_of-edited_account circuit_id_field d a h = refl
text_of-edited_account address_field d a h = refl
text_of-edited_account gst_number_field d a h = refl
text_of-edited_account contact_person_name_field d a h = refl
text_of-edited_account industry_type_field d a h = refl
text_of-edited_account circle_field d a h = refl
text_of-edited_account account_manager_field d a h = refl
text_of-edited_account user_name_field d a h = refl
text_of-edited_account ip_details_field d a h = refl
text_of-edited_account lead_id_field d a h = refl
text_of-edited_account external_crm_id_field d a h = refl

-- The account with the fields that were given, trimmed, empty texts as null, and the rest as before.
pub record IsEdited (patch : AccountUpdatePatch) (a b : Account) : Type 0 where
  pub texts : (f : TextField) → text_of f b ≡ get_or (next_text patch f) (text_of f a)
  pub bandwidth : b.bandwidth_mbps ≡ get_or patch.bandwidth_mbps a.bandwidth_mbps
  pub arc : b.current_arc ≡ get_or patch.current_arc a.current_arc
  pub start : b.start_of_period_arc ≡ get_or patch.start_of_period_arc a.start_of_period_arc
  pub status : b.contract_status ≡ get_or patch.contract_status a.contract_status
  pub onboarding :
      start_of_day_utc b.onboarding_date
      ≡ start_of_day_utc (get_or patch.onboarding_date a.onboarding_date)
  pub id : b.id ≡ a.id
  pub kitty : b.kitty_type ≡ a.kitty_type
  pub owner : b.sam_owner_id ≡ a.sam_owner_id
  pub meeting : b.last_meeting_date ≡ a.last_meeting_date
  pub mom : b.last_mom_date ≡ a.last_mom_date
  pub metadata : b.metadata ≡ a.metadata

pub same_day-get_or :
    (prev : ℕ) (given : Option ℕ)
    → start_of_day_utc (get_or (differing same_day prev given) prev)
      ≡ start_of_day_utc (get_or given prev)
same_day-get_or prev none = refl
same_day-get_or prev (some next) = elim (Bool-cases (same_day prev next)) [
  | inl e ↦ ground arith
  | inr e ↦ ground arith
]

pub edited_account-IsEdited :
    (patch : AccountUpdatePatch) (a : Account)
    → clears_name (update_data patch a) ≡ false
    → IsEdited patch a (edited_account (update_data patch a) a)
unfolding update_data
edited_account-IsEdited patch a h = record {
  texts = λ f.
      text_of-edited_account f (update_data patch a) a h
      ∙ differing-get_or same_text same_text_sound (text_of f a) (next_text patch f);
  bandwidth = differing-get_or same_figure same_figure_sound a.bandwidth_mbps patch.bandwidth_mbps;
  arc = differing-get_or (λ x y. x == y) (λ x y e. ground arith) a.current_arc patch.current_arc;
  start =
      differing-get_or same_figure same_figure_sound a.start_of_period_arc
        patch.start_of_period_arc;
  status = differing-get_or same_status same_status_sound a.contract_status patch.contract_status;
  onboarding = same_day-get_or a.onboarding_date patch.onboarding_date;
  id = refl;
  kitty = refl;
  owner = refl;
  meeting = refl;
  mom = refl;
  metadata = refl;
}

-- Where there is no difference, nothing is to be written.
pub no_difference :
    (d : UpdateData) (a : Account)
    → diffs_of d a ≡ []
    → ((f : TextField) → d.text f ≡ none)
      × (d.bandwidth_mbps ≡ none)
      × (d.current_arc ≡ none)
      × (d.start_of_period_arc ≡ none)
      × (d.contract_status ≡ none)
      × (day_of_update d.onboarding_date ≡ none)
unfolding diffs_of
no_difference d a e =
    let onboarding =
      diff_of "onboardingDate" Json.day (start_of_day_utc a.onboarding_date)
        (day_of_update d.onboarding_date) in
    let status = diff_of "contractStatus" Json.status a.contract_status d.contract_status in
    let start =
      diff_of "startOfPeriodArc" (json_or_null Json.num) a.start_of_period_arc
        d.start_of_period_arc in
    let arc = diff_of "currentArc" Json.num a.current_arc d.current_arc in
    let bandwidth =
      diff_of "bandwidthMbps" (json_or_null Json.num) a.bandwidth_mbps d.bandwidth_mbps in
    let (p, e1) =
      append_nil (text_diffs text_fields d a)
        (bandwidth ++ (arc ++ (start ++ (status ++ onboarding)))) e in
    let (q, e2) = append_nil bandwidth (arc ++ (start ++ (status ++ onboarding))) e1 in
    let (r, e3) = append_nil arc (start ++ (status ++ onboarding)) e2 in
    let (t, e4) = append_nil start (status ++ onboarding) e3 in
    let (u, v) = append_nil status onboarding e4 in
    (
      listed (λ f. d.text f ≡ none) (text_diffs_nil text_fields d a p),
      diff_of_nil "bandwidthMbps" (json_or_null Json.num) a.bandwidth_mbps d.bandwidth_mbps q,
      diff_of_nil "currentArc" Json.num a.current_arc d.current_arc r,
      diff_of_nil "startOfPeriodArc" (json_or_null Json.num) a.start_of_period_arc
          d.start_of_period_arc t,
      diff_of_nil "contractStatus" Json.status a.contract_status d.contract_status u,
      diff_of_nil "onboardingDate" Json.day (start_of_day_utc a.onboarding_date)
          (day_of_update d.onboarding_date) v,
    )

pub unchanged-IsEdited :
    (patch : AccountUpdatePatch) (a : Account)
    → diffs_of (update_data patch a) a ≡ []
    → IsEdited patch a a
unfolding update_data
unchanged-IsEdited patch a e =
    let (p, q, r, t, u, v) = no_difference (update_data patch a) a e in
    let day = same_day-get_or a.onboarding_date patch.onboarding_date in
    let b = differing-get_or same_figure same_figure_sound a.bandwidth_mbps patch.bandwidth_mbps in
    let s =
      differing-get_or same_figure same_figure_sound a.start_of_period_arc
        patch.start_of_period_arc in
    let c =
      differing-get_or (λ x y. x == y) (λ x y e. ground arith) a.current_arc patch.current_arc in
    let d =
      differing-get_or same_status same_status_sound a.contract_status patch.contract_status in
    record {
      texts = λ f.
          let x = differing-get_or same_text same_text_sound (text_of f a) (next_text patch f) in
          let y = p f in ground arith;
      bandwidth = ground arith;
      arc = ground arith;
      start = ground arith;
      status = ground arith;
      onboarding =
          elim (Option-cases (differing same_day a.onboarding_date patch.onboarding_date)) [
            | inl n ↦ ground arith
            | inr (x, n) ↦ ground arith
          ];
      id = refl;
      kitty = refl;
      owner = refl;
      meeting = refl;
      mom = refl;
      metadata = refl;
    }
