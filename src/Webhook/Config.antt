-- ===== src/Webhook/Config.antt =====
-- The checks of `configure` and `receiver` in whatsapp-bridge/webhook_runtime.go, in the order of the
-- code, each with the error it gives. Texts are lists of bytes. `strconv.Atoi` is Go's library;
-- what `url.Parse` and the DNS lookup answer is in the request.
pub mod Events
pub mod Accepts
pub mod Refusals
use whatsapp_mcp.Prelude.{
  ℕ, ◌+◌, Bool, true, false, not, ◌&&◌, ◌||◌, Option, none, some, List, [], ◌∷◌, length, ltb, leb,
  ◌==◌, if◌then◌else◌,
}
use whatsapp_mcp.Prelude.Text.{Text, codes, text_eq, is_empty, trim_space, cut_prefix}
use whatsapp_mcp.Prelude.Int.{ℤ, pos, ltb_ℤ}
use whatsapp_mcp.Webhook.Outbox.{
  EventKind, message_received, connection_changed, storage_warning, selects,
}
use whatsapp_mcp.Webhook.Address.{Ip, public_ip}

pub data Refusal : Type 0 where
  bad_secret bad_authorization bad_event_count bad_events denied_connection widened_filter
        bad_prefix :
      Refusal
  bad_url bad_port lookup_failed forbidden_address : Refusal

pub data Checked {ℓ} (A : Type ℓ) : Type ℓ where
  ok : A → Checked A
  refused : Refusal → Checked A

infixl 5 ◌>>=◌
abbrev pub ◌>>=◌ {ℓ κ} : {A : Type ℓ} {B : Type κ} → Checked A → (A → Checked B) → Checked B
ok a >>= f = f a
refused e >>= f = refused e

-- `if fault { return err }`
abbrev pub guard : Bool → Refusal → Checked (Unit {0})
guard true e = refused e
guard false e = ok tt

pub record Filters : Type 0 where
  pub forward_self : Bool
  pub forward_channels : Bool
  pub forward_broadcasts : Bool

-- `runtimeWebhookOptions`, as far as the checks read it.
pub record Options : Type 0 where
  pub allow_ports : Bool
  pub denied_filters : Filters
  pub denied_connection_events : Bool

pub record Url : Type 0 where
  pub scheme : Text
  pub hostname : Text
  pub has_user : Bool
  pub fragment : Text
  pub port : Text

pub record Address : Type 0 where
  pub zone : Text
  pub ip : Ip

pub record Request : Type 0 where
  pub raw : Text
  pub parsed : Option Url
  pub addresses : Option (List Address)
  pub events : List Text
  pub secret : Text
  pub header_prefix : Text
  pub authorization : Text
  pub wants_self : Option Bool
  pub wants_channels : Option Bool
  pub wants_broadcasts : Option Bool

abbrev pub is_between : ℕ → ℕ → ℕ → Bool
is_between a b c = leb a c && leb c b

unfoldable pub all_bytes : (ℕ → Bool) → Text → Bool
all_bytes test [] = true
all_bytes test (c ∷ s) = test c && all_bytes test s

abbrev pub is_token : ℕ → Bool
is_token c = is_between 97 122 c || (is_between 65 90 c || (is_between 48 57 c || c == 45))

abbrev pub has_prefix : Text → Text → Bool
has_prefix p s = elim (cut_prefix p s) [ none ↦ false | some rest ↦ true ]

-- `validWebhookPrefix`
unfoldable pub valid_prefix : Text → Bool
valid_prefix p = is_between 3 48 (length p) && (has_prefix (codes "X-") p && all_bytes is_token p)

-- `validWebhookAuthorization`
unfoldable pub valid_authorization : Text → Bool
valid_authorization v =
    leb (length v) 2100 && (not (is_empty (trim_space v)) && all_bytes (is_between 0x20 0x7e) v)

unfoldable pub event_of : Text → Option EventKind
event_of t =
    if text_eq t (codes "message.received")
    then some message_received
    else if text_eq t (codes "connection.changed")
    then some connection_changed
    else if text_eq t (codes "storage.warning")
    then some storage_warning
    else none

-- The loop over the selected events; `seen` are those before.
unfoldable pub check_events : List EventKind → List Text → Checked (List EventKind)
check_events seen [] = ok seen
check_events seen (t ∷ ts) = elim (event_of t) [
  | none ↦ refused bad_events
  | some k ↦ if selects seen k then refused bad_events else check_events (k ∷ seen) ts
]

-- One turn of the loop over the filters.
unfoldable pub check_filter : Option Bool → Bool → Bool → Checked Bool
check_filter none denied effective = ok effective
check_filter (some value) denied effective =
    if value && denied then refused widened_filter else ok value

unfoldable pub check_filters : Request → Filters → Filters → Checked Filters
unfolding check_filter
check_filters q denied filters = do
  own ← check_filter q.wants_self denied.forward_self filters.forward_self
  channels ← check_filter q.wants_channels denied.forward_channels filters.forward_channels
  broadcasts ← check_filter q.wants_broadcasts denied.forward_broadcasts filters.forward_broadcasts
  ok (record { forward_self = own; forward_channels = channels; forward_broadcasts = broadcasts })

unfoldable pub all_public : List Address → Bool
all_public [] = true
all_public (a ∷ as') = is_empty a.zone && (public_ip a.ip && all_public as')

abbrev pub port_of : Url → Text
port_of u = if is_empty u.port then codes "443" else u.port

-- `n < 1 || n > 65535 || (!AllowPorts && n != 443)`
abbrev pub port_allowed : Bool → ℤ → Bool
port_allowed any n =
    not (ltb_ℤ n (pos 1))
    && (not (ltb_ℤ (pos 65535) n) && (any || (not (ltb_ℤ n (pos 443)) && not (ltb_ℤ (pos 443) n))))

abbrev pub url_allowed : Text → Url → Bool
url_allowed raw u =
    text_eq u.scheme (codes "https")
    && (not (is_empty u.hostname)
        && (not u.has_user && (is_empty u.fragment && leb (length raw) 2048)))

unfoldable pub check_addresses : Option (List Address) → Checked (Unit {0})
check_addresses none = refused lookup_failed
check_addresses (some []) = refused lookup_failed
check_addresses (some (a ∷ as')) = guard (not (all_public (a ∷ as'))) forbidden_address

unfoldable pub check_port : Bool → Option ℤ → Checked (Unit {0})
check_port any none = refused bad_port
check_port any (some n) = guard (not (port_allowed any n)) bad_port

pub record Accepted : Type 0 where
  pub chosen : List EventKind
  pub filters : Filters
  pub prefix : Text

module _ (atoi : Text → Option ℤ) where
  -- `receiver`
  unfoldable pub check_receiver :
      Bool → Text → Option Url → Option (List Address) → Checked (Unit {0})
  unfolding check_port check_addresses
  check_receiver any raw none found = refused bad_url
  check_receiver any raw (some u) found = do
    a ← guard (not (url_allowed raw u)) bad_url
    b ← check_port any (atoi (port_of u))
    check_addresses found

  -- `configure`, up to where it takes `mu`. `filters` are those of the deployment.
  unfoldable pub check_request : Options → Request → Filters → Checked Accepted
  unfolding check_receiver check_filters check_events
  check_request o q filters = do
    a ← guard (not (is_between 32 256 (length q.secret))) bad_secret
    b ←
        guard (not (is_empty q.authorization) && not (valid_authorization q.authorization))
          bad_authorization
    c ← guard (not (is_between 1 3 (length q.events))) bad_event_count
    seen ← check_events [] q.events
    d ← guard (selects seen connection_changed && o.denied_connection_events) denied_connection
    effective ← check_filters q o.denied_filters filters
    let prefix : Text = if is_empty q.header_prefix then codes "X-Webhook" else q.header_prefix
    e ← guard (not (valid_prefix prefix)) bad_prefix
    f ← check_receiver o.allow_ports q.raw q.parsed q.addresses
    ok (record { chosen = seen; filters = effective; prefix = prefix })
