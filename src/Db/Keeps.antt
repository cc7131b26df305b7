-- ===== src/Db/Keeps.antt =====
-- Actions that keep the store consistent, one rule for each way to build an action.
use isp_sam_backend.Prelude.{
  ℕ, ◌≡◌, sym, subst, ◌≢◌, Bool, true, false, Option, none, some, List, [], ◌∷◌, ◌++◌, arith,
  includes, if◌then◌else◌, Bool-cases, Option-cases, inl, inr,
}
use isp_sam_backend.Db.Types.{Account, Change, AuditEntry}
use isp_sam_backend.Db.Tables.{
  Store, Error, ok, err, Action, pure, throw, gets, or_throw, transaction, ◌>>=◌, ◌>>◌, throw_if,
  when, set_account, set_change, update_account, update_change, create_audit, create_change,
  find_account, find_change, find_change_with_account, Result-cases,
}
use isp_sam_backend.Db.Invariant.{IsConsistent, is_consistent}

pub record Keeps {A : Type 0} (m : Action A) : Type 0 where
  pub at : (s : Store) → IsConsistent s → IsConsistent (m s).1

pub moved : {s t : Store} → IsConsistent s → t ≡ s → IsConsistent t
moved h e = subst IsConsistent (sym e) h

-- A change of the columns that leaves the keys alone and the row consistent.
pub record IsFaithful (f : Change → Change) : Type 0 where
  pub same_id : (c : Change) → (f c).id ≡ c.id
  pub same_account : (c : Change) → (f c).account_id ≡ c.account_id
  pub consistent : (c : Change) → is_consistent c ≡ true → is_consistent (f c) ≡ true

module _ {A : Type 0} where
  pub Keeps-pure : (a : A) → Keeps (pure a)
  Keeps-pure a = record { at = λ s h. h }

  pub Keeps-throw : (e : Error) → Keeps (throw {A = A} e)
  Keeps-throw e = record { at = λ s h. h }

  pub Keeps-gets : (f : Store → A) → Keeps (gets f)
  Keeps-gets f = record { at = λ s h. h }

  pub Keeps-or_throw : (o : Option A) (e : Error) → Keeps (or_throw o e)
  Keeps-or_throw none e = record { at = λ s h. h }
  Keeps-or_throw (some a) e = record { at = λ s h. h }

  pub transaction-IsConsistent :
      (m : Action A) (s : Store)
      → IsConsistent s
      → IsConsistent (m s).1
      → IsConsistent (transaction m s).1
  transaction-IsConsistent m s h k = elim (Result-cases (m s).0) [
    | inl (a, e) ↦ moved k (ground arith)
    | inr (e, q) ↦ moved h (ground arith)
  ]

  pub Keeps-transaction : (m : Action A) → Keeps m → Keeps (transaction m)
  Keeps-transaction m k = record { at = λ s h. transaction-IsConsistent m s h (k.at s h) }

  pub Keeps-if : (b : Bool) (m n : Action A) → Keeps m → Keeps n → Keeps (if b then m else n)
  Keeps-if true m n km kn = km
  Keeps-if false m n km kn = kn

  pub Keeps-if_at :
      (b : Bool) (m n : Action A) → Keeps m → Keeps n → Keeps {A = A} (λ s. if b then m s else n s)
  Keeps-if_at true m n km kn = record { at = km.at }
  Keeps-if_at false m n km kn = record { at = kn.at }

module _ {A B : Type 0} where
  pub Keeps-option :
      (o : Option A) (m : Action B) (f : A → Action B)
      → Keeps m
      → ((a : A) → Keeps (f a))
      → Keeps (elim o [ none ↦ m | some a ↦ f a ])
  Keeps-option none m f km kf = km
  Keeps-option (some a) m f km kf = kf a

  pub Keeps-option_at :
      (o : Option A) (m : Action B) (f : A → Action B)
      → Keeps m
      → ((a : A) → Keeps (f a))
      → Keeps {A = B} (λ s. elim o [ none ↦ m s | some a ↦ f a s ])
  Keeps-option_at none m f km kf = record { at = km.at }
  Keeps-option_at (some a) m f km kf = record { at = (kf a).at }

  pub Keeps-bind :
      (m : Action A) (f : A → Action B) → Keeps m → ((a : A) → Keeps (f a)) → Keeps (m >>= f)
  Keeps-bind m f km kf = record {
    at = λ s h. elim (Result-cases (m s).0) [
      | inl (a, e) ↦ moved ((kf a).at (m s).1 (km.at s h)) (ground arith)
      | inr (e, q) ↦ moved (km.at s h) (ground arith)
    ];
  }

-- A first step that leaves this store consistent, and a rest that keeps any.
pub bind-IsConsistent :
    {A B : Type 0} (m : Action A) (f : A → Action B) (s : Store)
    → IsConsistent (m s).1
    → ((a : A) → Keeps (f a))
    → IsConsistent ((m >>= f) s).1
bind-IsConsistent m f s h kf = elim (Result-cases (m s).0) [
  | inl (a, e) ↦ moved ((kf a).at (m s).1 h) (ground arith)
  | inr (e, q) ↦ moved h (ground arith)
]

-- A first step that only reads.
pub reading-IsConsistent :
    {A B : Type 0} (m : Action A) (f : A → Action B) (s : Store)
    → IsConsistent s
    → (m s).1 ≡ s
    → ((a : A) → (m s).0 ≡ ok a → IsConsistent (f a s).1)
    → IsConsistent ((m >>= f) s).1
reading-IsConsistent m f s h q k = elim (Result-cases (m s).0) [
  | inl (a, e) ↦ moved (k a e) (ground arith)
  | inr (e, r) ↦ moved h (ground arith)
]

pub Keeps-then : {A B : Type 0} (m : Action A) (n : Action B) → Keeps m → Keeps n → Keeps (m >> n)
Keeps-then m n km kn = Keeps-bind m (λ _. n) km (λ _. kn)

pub Keeps-throw_if : (b : Bool) (e : Error) → Keeps (throw_if b e)
Keeps-throw_if b e = record { at = λ s h. h }

pub Keeps-when : (b : Bool) (m : Action (Unit {0})) → Keeps m → Keeps (when b m)
Keeps-when true m k = k
Keeps-when false m k = record { at = λ s h. h }

pub Keeps-find_account : (k : ℕ) → Keeps (find_account k)
Keeps-find_account k = record { at = λ s h. h }

pub Keeps-find_change : (k : ℕ) → Keeps (find_change k)
Keeps-find_change k = record { at = λ s h. h }

pub Keeps-find_change_with_account : (k : ℕ) → Keeps (find_change_with_account k)
Keeps-find_change_with_account k = record { at = λ s h. h }

pub Keeps-set_account : (k : ℕ) (a : Account) → Keeps (set_account k a)
Keeps-set_account k a = record {
  at = λ s h. record {
    sound = record {
      keyed = h.sound.keyed;
      listed = h.sound.listed;
      owned = λ j c e. ground (arith, h.sound.owned j c e);
    };
    rows = h.rows;
  };
}

pub Keeps-update_account : (k : ℕ) (f : Account → Account) → Keeps (update_account k f)
Keeps-update_account k f = record {
  at = λ s h. elim (Option-cases (s.accounts.row k)) [
    | inl e ↦ moved h (ground arith)
    | inr (a, e) ↦ moved ((Keeps-set_account k (f a)).at s h) (ground arith)
  ];
}

-- An update under a guard, as `updateMany` and `update` with a condition are.
pub Keeps-guarded :
    (k : ℕ) (p : Account → Bool) (f : Account → Account) (e : Error)
    → Keeps {A = Unit {0}} (λ s. elim (s.accounts.row k) [
      | none ↦ (err e, s)
      | some a ↦ if p a then set_account k (f a) s else (err e, s)
    ])
Keeps-guarded k p f e = record {
  at = λ s h. elim (Option-cases (s.accounts.row k)) [
    | inl q ↦ moved h (ground arith)
    | inr (a, q) ↦ elim (Bool-cases (p a)) [
      | inl t ↦ moved ((Keeps-set_account k (f a)).at s h) (ground arith)
      | inr t ↦ moved h (ground arith)
    ]
  ];
}

Keeps-set_change :
    (k : ℕ) (d c : Change) (s : Store)
    → IsConsistent s
    → s.changes.row k ≡ some d
    → c.id ≡ d.id
    → c.account_id ≡ d.account_id
    → is_consistent c ≡ true
    → IsConsistent (set_change k c s).1
Keeps-set_change k d c s h e i a p = record {
  sound = record {
    keyed = λ j x q. ground (arith, h.sound.keyed j x, h.sound.keyed k d e);
    listed = λ j x q. ground (arith, h.sound.listed j x, h.sound.listed k d e);
    owned = λ j x q. ground (arith, h.sound.owned j x, h.sound.owned k d e);
  };
  rows = λ j x q. ground (arith, h.rows j x);
}

pub Keeps-update_change : (k : ℕ) (f : Change → Change) → IsFaithful f → Keeps (update_change k f)
Keeps-update_change k f p = record {
  at = λ s h. elim (Option-cases (s.changes.row k)) [
    | inl e ↦ moved h (ground arith)
    | inr (d, e) ↦
        moved
          (Keeps-set_change k d (f d) s h e (p.same_id d) (p.same_account d)
            (p.consistent d (h.rows k d e)))
          (ground arith)
  ];
}

pub Keeps-create_audit : (e : AuditEntry) → Keeps (create_audit e)
Keeps-create_audit e = record {
  at = λ s h. record {
    sound = record { keyed = h.sound.keyed; listed = h.sound.listed; owned = h.sound.owned };
    rows = h.rows;
  };
}

includes-append_left :
    (k j : ℕ) (xs : List ℕ) → includes k xs ≡ true → includes k (xs ++ j ∷ []) ≡ true
includes-append_left k j [] h = cc
includes-append_left k j (x ∷ xs) h = ground (arith, includes-append_left k j xs)

includes-append_right : (k : ℕ) (xs : List ℕ) → includes k (xs ++ k ∷ []) ≡ true
includes-append_right k [] = ground arith
includes-append_right k (x ∷ xs) = ground (arith, includes-append_right k xs)

-- A new row needs its account.
pub create_change-IsConsistent :
    (c : Change) (s : Store)
    → IsConsistent s
    → s.accounts.row c.account_id ≢ none
    → is_consistent c ≡ true
    → IsConsistent (create_change c s).1
create_change-IsConsistent c s h a p = record {
  sound = record {
    keyed = λ j x q. ground (arith, h.sound.keyed j x);
    listed = λ j x q. ground (
      arith,
      h.sound.listed j x,
      includes-append_left j c.id s.changes.keys,
      includes-append_right j s.changes.keys,
    );
    owned = λ j x q. ground (arith, h.sound.owned j x);
  };
  rows = λ j x q. ground (arith, h.rows j x);
}

pub ruleset keeps_rules = (
  Keeps-pure, Keeps-throw, Keeps-gets, Keeps-or_throw, Keeps-transaction, Keeps-if, Keeps-if_at,
  Keeps-option, Keeps-option_at, Keeps-then, Keeps-bind, Keeps-throw_if, Keeps-when,
  Keeps-find_account, Keeps-find_change, Keeps-find_change_with_account, Keeps-set_account,
  Keeps-update_account, Keeps-update_change, Keeps-create_audit,
)
