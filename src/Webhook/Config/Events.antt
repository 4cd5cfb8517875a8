-- ===== src/Webhook/Config/Events.antt =====
-- The events of a request: what the loop over them accepts, and what it selects.
use whatsapp_mcp.Prelude.{
  ◌≡◌, refl, ap, ◌∙◌, Bool, true, false, not, ◌&&◌, ◌||◌, none, some, List, [], ◌∷◌, Bool-cases,
  Option-cases, inl, inr, arith,
}
use whatsapp_mcp.Prelude.Text.{Text, codes, text_eq, text_eq_to, has}
use whatsapp_mcp.Webhook.Outbox.{
  EventKind, message_received, connection_changed, storage_warning, selects, same_kind,
}
use whatsapp_mcp.Webhook.Config.{Checked, ok, refused, event_of, check_events}

abbrev pub name_of : EventKind → Text
name_of message_received = codes "message.received"
name_of connection_changed = codes "connection.changed"
name_of storage_warning = codes "storage.warning"

abbrev pub names : List EventKind → List Text
names [] = []
names (k ∷ ks) = name_of k ∷ names ks

abbrev is_known : Text → Bool
is_known t =
    text_eq t (codes "message.received")
    || (text_eq t (codes "connection.changed") || text_eq t (codes "storage.warning"))

abbrev pub all_known : List Text → Bool
all_known [] = true
all_known (t ∷ ts) = is_known t && all_known ts

-- No text twice, and none of those before.
abbrev pub fresh : List Text → List Text → Bool
fresh before [] = true
fresh before (t ∷ ts) = not (has before t) && fresh (t ∷ before) ts

abbrev pub is_ok {ℓ} : {A : Type ℓ} → Checked A → Bool
is_ok (ok a) = true
is_ok (refused e) = false

event_of-name : (t : Text) (k : EventKind) → event_of t ≡ some k → t ≡ name_of k
unfolding event_of
event_of-name t k h = ground (
  arith,
  text_eq_to t (codes "message.received"),
  text_eq_to t (codes "connection.changed"),
  text_eq_to t (codes "storage.warning"),
)

event_of-known : (t : Text) → event_of t ≡ none → is_known t ≡ false
unfolding event_of
event_of-known t h = ground arith

known-event_of : (t : Text) (k : EventKind) → event_of t ≡ some k → is_known t ≡ true
unfolding event_of
known-event_of t k h = ground arith

text_eq-name : (a b : EventKind) → text_eq (name_of a) (name_of b) ≡ same_kind a b
unfolding text_eq same_kind
text_eq-name message_received message_received = refl
text_eq-name message_received connection_changed = refl
text_eq-name message_received storage_warning = refl
text_eq-name connection_changed message_received = refl
text_eq-name connection_changed connection_changed = refl
text_eq-name connection_changed storage_warning = refl
text_eq-name storage_warning message_received = refl
text_eq-name storage_warning connection_changed = refl
text_eq-name storage_warning storage_warning = refl

pub has-names : (ks : List EventKind) (k : EventKind) → has (names ks) (name_of k) ≡ selects ks k
unfolding has selects
has-names [] k = refl
has-names (x ∷ ks) k = rw (text_eq-name x k, has-names ks k)

-- The loop accepts exactly known events without a repetition.
pub check_events_lem :
    (seen : List EventKind) (ts : List Text)
    → is_ok (check_events seen ts) ≡ (all_known ts && fresh (names seen) ts)
unfolding check_events
check_events_lem seen [] = refl
check_events_lem seen (t ∷ ts) = elim (Option-cases (event_of t)) [
  | inl e ↦ ground (arith, event_of-known t e)
  | inr (k, e) ↦
      let named = event_of-name t k e in
      let old : has (names seen) t ≡ selects seen k =
        ap (has (names seen)) named ∙ has-names seen k in
      let next : fresh (t ∷ names seen) ts ≡ fresh (names (k ∷ seen)) ts =
        ap (λ u. fresh (u ∷ names seen) ts) named in
      ground (arith, known-event_of t k e, old, next, check_events_lem (k ∷ seen) ts)
]

-- The events selected are those of the request and those before.
pub selects-check_events :
    (seen : List EventKind) (ts : List Text) (ks : List EventKind) (k : EventKind)
    → check_events seen ts ≡ ok ks
    → selects ks k ≡ (has ts (name_of k) || selects seen k)
unfolding check_events has selects
selects-check_events seen [] ks k h = ground arith
selects-check_events seen (t ∷ ts) ks k h = elim (Option-cases (event_of t)) [
  | inl e ↦ ground arith
  | inr (j, e) ↦
      let named : text_eq t (name_of k) ≡ same_kind j k =
        ap (λ u. text_eq u (name_of k)) (event_of-name t j e) ∙ text_eq-name j k in
      elim (Bool-cases (selects seen j)) [
        | inl old ↦ ground arith
        | inr new ↦ ground (arith, named, selects-check_events (j ∷ seen) ts ks k (ground arith))
      ]
]
