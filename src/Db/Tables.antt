-- ===== src/Db/Tables.antt =====
-- The database as the services use it through Prisma: a table is its rows by id, with the ids in
-- the order of creation. A statement that finds no row to update fails (P2025), and a failed
-- transaction leaves the store as it was.
use isp_sam_backend.Prelude.{
  ℕ, String, ◌≡◌, refl, ◌⊎◌, inl, inr, Bool, true, false, not, Option, none, some, List, [], ◌∷◌,
  ◌++◌, ◌==◌, arith, if◌then◌else◌, gather, select,
}
use isp_sam_backend.Db.Types.{
  Account, Change, User, AuditEntry, IntegrationEvent, Meeting, NotificationState,
}

pub record Table (V : Type 0) : Type 0 where
  pub keys : List ℕ
  pub row : ℕ → Option V

module _ {V : Type 0} where
  -- `update` of a row that is there.
  abbrev pub put : ℕ → V → Table V → Table V
  put k v t = record { keys = t.keys; row = λ j. if k == j then some v else t.row j }

  -- `create`
  abbrev pub add : ℕ → V → Table V → Table V
  add k v t = record { keys = t.keys ++ k ∷ []; row = λ j. if k == j then some v else t.row j }

  -- `delete`
  abbrev pub delete : ℕ → Table V → Table V
  delete k t = record {
    keys = select (λ j. not (j == k)) t.keys;
    row = λ j. if k == j then none else t.row j;
  }

  -- `findMany`, oldest first.
  abbrev pub find_many : (V → Bool) → Table V → List V
  find_many p t = select p (gather t.row t.keys)

  abbrev pub latest : Option V → List V → Option V
  latest found [] = found
  latest found (v ∷ vs) = latest (some v) vs

  -- `findFirst`, newest first.
  abbrev pub find_newest : (V → Bool) → Table V → Option V
  find_newest p t = latest none (find_many p t)

pub record Store : Type 0 where
  pub accounts : Table Account
  pub changes : Table Change
  pub users : Table User
  pub meetings : Table Meeting
  pub events : Table IntegrationEvent
  pub audit : List AuditEntry
  -- By user, and by audit row: a row is known by its place in the trail.
  pub notification_states : ℕ → ℕ → Option NotificationState

-- The errors that the services throw, by the head of their messages.
pub data Error : Type 0 where
  account_not_found account_already_terminated account_terminated account_disconnecting : Error
  disconnection_in_flight account_pending_quick_approval account_pending_approval : Error
  quick_disconnect_disabled quick_disconnect_invalid_days quick_disconnect_reason_required : Error
  user_not_found document_required change_not_found no_file no_crm_order : Error
  not_a_quick_disconnect out_of_scope already_decided new_base_not_local : Error
  not_a_disconnection retention_already_decided window_not_elapsed : Error
  meeting_not_found reassign_forbidden not_pending wrong_stage rejection_reason_required : Error
  upload_failed categories_required missing_arc record_not_found unique_violation
        foreign_key_violation validation_failed :
      Error
  -- A call of the CRM that failed: the HTTP status if there was one, and the message.
  crm_failure : Option ℕ → String → Error

pub data Result (A : Type 0) : Type 0 where
  ok : A → Result A
  err : Error → Result A

pub Result-cases :
    {A : Type 0} (r : Result A) → ((a : A) × (r ≡ ok a)) ⊎ ((e : Error) × (r ≡ err e))
Result-cases (ok a) = inl (a, refl)
Result-cases (err e) = inr (e, refl)

-- A service call: what was written before a throw stays written.
abbrev pub Action : Type 0 → Type 0
Action A = Store → Result A × Store

module _ {A : Type 0} where
  abbrev pub pure : A → Action A
  pure a s = (ok a, s)

  abbrev pub throw : Error → Action A
  throw e s = (err e, s)

  abbrev pub gets : (Store → A) → Action A
  gets f s = (ok (f s), s)

  abbrev pub or_throw : Option A → Error → Action A
  or_throw none e = throw e
  or_throw (some a) e = pure a

  -- `prisma.$transaction`: all of it or nothing.
  abbrev pub transaction : Action A → Action A
  transaction m s = elim (m s).0 [ ok a ↦ m s | err e ↦ (err e, s) ]

infixl 5 ◌>>=◌ ◌>>◌
abbrev pub ◌>>=◌ : {A B : Type 0} → Action A → (A → Action B) → Action B
◌>>=◌ m f s = let (r, s') = m s in elim r [ ok a ↦ f a s' | err e ↦ (err e, s') ]

abbrev pub ◌>>◌ : {A B : Type 0} → Action A → Action B → Action B
m >> k = m >>= λ _. k

-- A step that succeeds hands its store to the next.
pub >>-ok :
    {A B : Type 0} (m : Action A) (n : Action B) (s : Store) {a : A}
    → (m s).0 ≡ ok a
    → (m >> n) s ≡ n (m s).1
>>-ok m n s e = ground arith

-- A chain that returns has gone through its first step.
pub >>=-returns :
    {A B : Type 0} (m : Action A) (f : A → Action B) (s : Store) {b : B}
    → ((m >>= f) s).0 ≡ ok b
    → (x : A) × ((m s).0 ≡ ok x) × ((m >>= f) s ≡ f x (m s).1) × ((f x (m s).1).0 ≡ ok b)
>>=-returns m f s h = elim (Result-cases (m s).0) [
  | inl (x, e) ↦ (x, e, ground arith, ground arith)
  | inr (e, q) ↦ ground arith
]

abbrev pub throw_if : Bool → Error → Action (Unit {0})
throw_if c e s = (if c then err e else ok tt, s)

abbrev pub when : Bool → Action (Unit {0}) → Action (Unit {0})
when true m = m
when false m = pure tt

-- A change with its account. A foreign key keeps the account there.
abbrev pub joined : Option Change → (ℕ → Option Account) → Option (Change × Account)
joined none accounts = none
joined (some c) accounts = elim (accounts c.account_id) [ none ↦ none | some a ↦ some (c, a) ]

abbrev pub find_change_with_account : ℕ → Action (Option (Change × Account))
find_change_with_account k = gets (λ s. joined (s.changes.row k) s.accounts.row)

abbrev pub find_account : ℕ → Action (Option Account)
find_account k = gets (λ s. s.accounts.row k)

abbrev pub find_change : ℕ → Action (Option Change)
find_change k = gets (λ s. s.changes.row k)

abbrev pub set_account : ℕ → Account → Action (Unit {0})
set_account k a s = (ok tt, record s { accounts = put k a s.accounts })

abbrev pub set_change : ℕ → Change → Action (Unit {0})
set_change k c s = (ok tt, record s { changes = put k c s.changes })

abbrev pub update_account : ℕ → (Account → Account) → Action (Unit {0})
update_account k f s = elim (s.accounts.row k) [
  | none ↦ (err record_not_found, s)
  | some a ↦ set_account k (f a) s
]

abbrev pub update_change : ℕ → (Change → Change) → Action (Unit {0})
update_change k f s = elim (s.changes.row k) [
  | none ↦ (err record_not_found, s)
  | some c ↦ set_change k (f c) s
]

abbrev pub create_change : Change → Action Change
create_change c s = (ok c, record s { changes = add c.id c s.changes })

abbrev pub create_audit : AuditEntry → Action (Unit {0})
create_audit e s = (ok tt, record s { audit = s.audit ++ e ∷ [] })
