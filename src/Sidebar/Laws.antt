-- ===== src/Sidebar/Laws.antt =====
-- What the badges count (src/modules/sidebar/sidebar.service.ts).
use isp_sam_backend.Prelude.{
  ℕ, ◌≡◌, ◌≤◌, ◌↔◌, Bool, true, none, some, List, [], ◌∷◌, length, select, gather, arith, refl, not,
  ◌&&◌, if◌then◌else◌, inl, inr, Bool-cases, Option-cases,
}
use isp_sam_backend.Db.{
  Account, Change, Store, find_many, disconnection, terminated, probable_churn, same_status, sam,
  sam_head, same_role,
}
use isp_sam_backend.Dates.{start_of_day_utc}
use isp_sam_backend.Dates.Laws.{midnight}
use isp_sam_backend.Scope.{Requester}
use isp_sam_backend.World.{World}
use isp_sam_backend.Approvals.Queue.{count_pending, list_pending, pending_approvals_where}
use isp_sam_backend.Accounts.View.{
  unassigned, account_matches, narrowed_where, scoped_where, listed,
}
use isp_sam_backend.Sidebar.{
  awaits_prompt, in_window, count_probable_churn_due, may_assign, is_unassigned,
  count_unassigned_customers, get_counts,
}

length-select-select :
    (p q m : Account → Bool)
    → ((a : Account) → p a ≡ (m a && q a))
    → (xs : List Account) → length (select p xs) ≡ length (select q (select m xs))
length-select-select p q m h [] = refl
length-select-select p q m h (x ∷ xs) =
    let e = h x in
    let k = length-select-select p q m h xs in
    elim (Bool-cases (m x)) [
      | inl t ↦ elim (Bool-cases (q x)) [ inl u ↦ ground arith | inr u ↦ ground arith ]
      | inr t ↦ ground arith
    ]

abbrev is_open : Account → Bool
is_open a = not (same_status a.contract_status terminated)

abbrev triage : Requester → Store → Account → Bool
triage r s = account_matches (narrowed_where (some unassigned) r s (scoped_where none r s))

triage-is_unassigned :
    (r : Requester) (s : Store) (a : Account) → is_unassigned a ≡ (triage r s a && is_open a)
unfolding narrowed_where scoped_where
triage-is_unassigned r s a = elim (Bool-cases (same_role r.role sam)) [
  | inl e ↦ ground arith
  | inr e ↦ elim (Bool-cases (same_role r.role sam_head)) [
    | inl f ↦ ground arith
    | inr f ↦ ground arith
  ]
]

-- A disconnection without a decision whose prompt is due, on an account in its retention window, which
-- is the SAM's own where a SAM asks.
abbrev pub AwaitsAnswer : Requester → ℕ → Store → Change → Type 0
AwaitsAnswer r today s c =
    (c.change_type ≡ disconnection)
    × (c.retention_decision ≡ none)
    × ((d : ℕ) × (c.retention_prompt_due_at ≡ some d) × (d ≤ today))
    × ((a : Account) × (s.accounts.row c.account_id ≡ some a)
        × (a.contract_status ≡ probable_churn)
        × (r.role ≡ sam → a.sam_owner_id ≡ some r.id))

module _ (r : Requester) (today : ℕ) (s : Store) (c : Change) where
  due_of :
      awaits_prompt r today s c ≡ true
      → (d : ℕ) × (c.retention_prompt_due_at ≡ some d) × (d ≤ today)
  due_of h = elim (Option-cases c.retention_prompt_due_at) [
    | inl e ↦ absurd (ground arith)
    | inr (d, e) ↦ (d, e, ground arith)
  ]

  own_account :
      (a : Account)
      → in_window r a ≡ true
      → (a.contract_status ≡ probable_churn) × (r.role ≡ sam → a.sam_owner_id ≡ some r.id)
  own_account a h = (ground arith, λ e. ground arith)

  account_of_prompt :
      awaits_prompt r today s c ≡ true
      → (a : Account) × (s.accounts.row c.account_id ≡ some a)
        × (a.contract_status ≡ probable_churn)
        × (r.role ≡ sam → a.sam_owner_id ≡ some r.id)
  account_of_prompt h = elim (Option-cases (s.accounts.row c.account_id)) [
    | inl e ↦ absurd (ground arith)
    | inr (a, e) ↦ let (p, q) = own_account a (ground arith) in (a, e, p, q)
  ]

  in_window_of :
      (a : Account)
      → a.contract_status ≡ probable_churn
      → (r.role ≡ sam → a.sam_owner_id ≡ some r.id)
      → in_window r a ≡ true
  in_window_of a e own = elim (Bool-cases (same_role r.role sam)) [
    | inl f ↦ let role : r.role ≡ sam = ground arith in let o = own role in ground arith
    | inr f ↦ ground arith
  ]

  pub awaits_prompt_iff : (awaits_prompt r today s c ≡ true) ↔ AwaitsAnswer r today s c
  awaits_prompt_iff = (
    λ h. (ground arith, ground arith, due_of h, account_of_prompt h),
    λ (t, u, (d, e, l), (a, f, p, own)). let x = in_window_of a p own in ground arith,
  )

-- The badges: that of the approvals is the length of the user's queue; that of the churn counts the
-- disconnections without a decision whose prompt date is today or earlier, on an account in its
-- retention window, which is the user's own where a SAM asks; and that of the customers counts those
-- without an owner that are in the user's list and not terminated, for a head or an administrator,
-- and is 0 for others.
pub get_counts_lem :
    (w : World) (r : Requester) (s : Store)
    → let m = get_counts w r s in
      let today = midnight w.now in
      (m.approvals ≡ length (list_pending r s))
      × (m.probable_churn ≡ length (find_many (awaits_prompt r today s) s.changes))
      × ((c : Change) → (awaits_prompt r today s c ≡ true) ↔ AwaitsAnswer r today s c)
      × (m.unassigned_customers ≡ (
          if may_assign r
          then length (
              select
                (λ a. not (same_status a.contract_status terminated))
                (listed none (some unassigned) r s))
          else 0))
unfolding get_counts count_pending list_pending count_probable_churn_due count_unassigned_customers
    listed start_of_day_utc
get_counts_lem w r s =
    let today = midnight w.now in
    let k =
      length-select-select is_unassigned is_open (triage r s) (triage-is_unassigned r s)
        (gather s.accounts.row s.accounts.keys) in
    (
      elim (Option-cases (pending_approvals_where r s)) [
        | inl e ↦ ground arith
        | inr (x, e) ↦ ground arith
      ],
      refl,
      awaits_prompt_iff r today s,
      elim (Bool-cases (may_assign r)) [ inl t ↦ ground arith | inr t ↦ ground arith ],
    )
