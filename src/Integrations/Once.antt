-- ===== src/Integrations/Once.antt =====
-- An event id is taken once, whatever becomes of the event
-- (src/modules/integrations/integrations.service.ts).
use isp_sam_backend.Prelude.{
  ℕ, ◌≡◌, ◌≢◌, ◌&&◌, false, ap, sym, ◌∙◌, refl, Bool, true, Option, none, some, List, [], ◌∷◌, ◌++◌,
  arith, includes, select, gather, Option-cases, inl, inr,
}
use isp_sam_backend.Db.{Store, IntegrationEvent, ok, Action, latest}
use isp_sam_backend.Notifications.{send_customer_activated_alert}
use isp_sam_backend.World.{World}
use isp_sam_backend.Integrations.Events.{
  reserve, has_external_id, seen_event, Ingested, duplicate_event,
}
use isp_sam_backend.Integrations.Status.{StatusPayload, ingest_commercial_change_status_changed}
use isp_sam_backend.Integrations.Quick.{DecisionPayload, ingest_quick_disconnect_decision}
use isp_sam_backend.Integrations.Activation.{CustomerPayload, ingest_customer_activated}

-- The row `k` is listed and has the external id `x`.
abbrev pub is_taken : ℕ → ℕ → Store → Bool
is_taken x k s =
    includes k s.events.keys
    && elim (s.events.row k) [ none ↦ false | some e ↦ has_external_id x e ]

includes_last : (k : ℕ) (ks : List ℕ) → includes k (ks ++ k ∷ []) ≡ true
includes_last k [] = ground arith
includes_last k (j ∷ js) = ground (arith, includes_last k js)

select-some :
    (ks : List ℕ) (row : ℕ → Option IntegrationEvent) (x k : ℕ) (e : IntegrationEvent)
    → row k ≡ some e
    → includes k ks ≡ true
    → e.external_event_id ≡ x
    → select (has_external_id x) (gather row ks) ≢ []
select-some [] row x k e f i q = cc
select-some (j ∷ js) row x k e f i q = ground (arith, select-some js row x k e f)

latest-some :
    (e : IntegrationEvent) (es : List IntegrationEvent)
    → (d : IntegrationEvent) × (latest (some e) es ≡ some d)
latest-some e [] = (e, refl)
latest-some e (d ∷ ds) = latest-some d ds

newest_some :
    (es : List IntegrationEvent) → es ≢ [] → (d : IntegrationEvent) × (latest none es ≡ some d)
newest_some [] h = absurd (h refl)
newest_some (e ∷ es) h = latest-some e es

taken_seen :
    (x k : ℕ) (s : Store)
    → is_taken x k s ≡ true
    → (d : IntegrationEvent) × (seen_event x s ≡ some d)
taken_seen x k s h = elim (Option-cases (s.events.row k)) [
  | inl f ↦ ground arith
  | inr (e, f) ↦
      newest_some _
        (select-some s.events.keys (λ j. s.events.row j) x k e f (ground arith) (ground arith))
]

status_takes :
    (w : World) (p : StatusPayload) (s : Store)
    → seen_event p.event_id s ≡ none
    → is_taken p.event_id w.fresh_id (ingest_commercial_change_status_changed w p s).1 ≡ true
unfolding ingest_commercial_change_status_changed reserve
status_takes w p s h = ground (arith, includes_last w.fresh_id s.events.keys)

decision_takes :
    (w : World) (p : DecisionPayload) (s : Store)
    → seen_event p.event_id s ≡ none
    → is_taken p.event_id w.fresh_id (ingest_quick_disconnect_decision w p s).1 ≡ true
unfolding ingest_quick_disconnect_decision reserve
decision_takes w p s h = ground (arith, includes_last w.fresh_id s.events.keys)

activation_takes :
    (w : World) (p : CustomerPayload) (s : Store)
    → seen_event p.event_id s ≡ none
    → is_taken p.event_id w.fresh_id (ingest_customer_activated w p s).1 ≡ true
unfolding ingest_customer_activated reserve send_customer_activated_alert
activation_takes w p s h = ground (arith, includes_last w.fresh_id s.events.keys)

-- The three webhooks, and the service call that each endpoint makes.
pub data Webhook : Type 0 where
  status_changed : StatusPayload → Webhook
  quick_decided : DecisionPayload → Webhook
  activated : CustomerPayload → Webhook

abbrev pub event_id_of : Webhook → ℕ
event_id_of (status_changed p) = p.event_id
event_id_of (quick_decided p) = p.event_id
event_id_of (activated p) = p.event_id

abbrev pub ingest : World → Webhook → Action Ingested
ingest w (status_changed p) = ingest_commercial_change_status_changed w p
ingest w (quick_decided p) = ingest_quick_disconnect_decision w p
ingest w (activated p) = ingest_customer_activated w p

takes :
    (w : World) (h : Webhook) (s : Store)
    → seen_event (event_id_of h) s ≡ none
    → is_taken (event_id_of h) w.fresh_id (ingest w h s).1 ≡ true
takes w (status_changed p) s e = status_takes w p s e
takes w (quick_decided p) s e = decision_takes w p s e
takes w (activated p) s e = activation_takes w p s e

-- A webhook whose event id has been seen is a duplicate.
Duplicate : World → Webhook → Store → Type 0
Duplicate w h s =
    (k : ℕ) × (account : Option ℕ) × (ingest w h s ≡ (ok (duplicate_event k account), s))

seen-Duplicate :
    (w : World) (h : Webhook) (s : Store) (d : IntegrationEvent)
    → seen_event (event_id_of h) s ≡ some d
    → Duplicate w h s
unfolding Duplicate ingest_commercial_change_status_changed ingest_quick_disconnect_decision
    ingest_customer_activated reserve
seen-Duplicate w (status_changed p) s d e = (d.id, none, ground arith)
seen-Duplicate w (quick_decided p) s d e = (d.id, none, ground arith)
seen-Duplicate w (activated p) s d e = (d.id, d.account_id, ground arith)

seen_after :
    (w : World) (h : Webhook) (s : Store)
    → (d : IntegrationEvent) × (seen_event (event_id_of h) (ingest w h s).1 ≡ some d)
unfolding Duplicate
seen_after w h s = elim (Option-cases (seen_event (event_id_of h) s)) [
  | inl e ↦ taken_seen (event_id_of h) w.fresh_id (ingest w h s).1 (takes w h s e)
  | inr (d, e) ↦
      let (k, account, q) = seen-Duplicate w h s d e in
      (d, ap (λ x. seen_event (event_id_of h) x.1) q ∙ e)
]

-- Whatever became of a webhook, an error included, a later one with the same event id is answered
-- as a duplicate and changes nothing.
pub ingest_once :
    (w later : World) (h h' : Webhook) (s : Store)
    → event_id_of h ≡ event_id_of h'
    → (k : ℕ) × (account : Option ℕ) × (ingest later h' (ingest w h s).1
        ≡ (ok (duplicate_event k account), (ingest w h s).1))
unfolding Duplicate
ingest_once w later h h' s same =
    let (d, e) = seen_after w h s in
    seen-Duplicate later h' (ingest w h s).1 d
      (ap (λ x. seen_event x (ingest w h s).1) (sym same) ∙ e)
