-- ===== src/Webhook/Config/Accepts.antt =====
-- What an accepted request is.
use whatsapp_mcp.Prelude.{
  ◌≤◌, ◌≡◌, refl, sym, ap, subst, ◌∙◌, Bool, true, false, not, ◌&&◌, ◌||◌, Option, none, some, List,
  [], ◌∷◌, length, if◌then◌else◌, arith,
}
use whatsapp_mcp.Prelude.Text.{Text, codes, is_empty, has}
use whatsapp_mcp.Prelude.Int.{ℤ}
use whatsapp_mcp.Webhook.Outbox.{EventKind, connection_changed, selects}
use whatsapp_mcp.Webhook.Config.{
  Refusal, Checked, ok, refused, guard, ◌>>=◌, Filters, Options, Url, Address, Request, Accepted,
  valid_prefix, valid_authorization, bad_url, bad_secret, bad_authorization, bad_event_count,
  denied_connection, bad_prefix, all_bytes, is_between, check_events, check_filter, check_filters,
  all_public, port_of, port_allowed, url_allowed, check_addresses, check_port, check_receiver,
  check_request,
}
use whatsapp_mcp.Webhook.Config.Events.{
  name_of, all_known, fresh, is_ok, check_events_lem, selects-check_events,
}

pub >>=-ok {ℓ κ} :
    {A : Type ℓ} {B : Type κ} (m : Checked A) (f : A → Checked B) {b : B}
    → (m >>= f) ≡ ok b
    → (a : A) × ((m ≡ ok a) × (f a ≡ ok b))
>>=-ok (ok a) f h = (a, (refl, h))
>>=-ok (refused e) f h = cc

pub guard-ok : (b : Bool) (e : Refusal) {u : Unit} → guard b e ≡ ok u → b ≡ false
guard-ok true e h = cc
guard-ok false e h = refl

module _ (atoi : Text → Option ℤ) where
  -- What `receiver` asks for.
  pub record IsReceiver (o : Options) (q : Request) : Type 0 where
    pub url : Url
    pub parses : q.parsed ≡ some url
    pub allowed : url_allowed q.raw url ≡ true
    pub number : ℤ
    pub numbered : atoi (port_of url) ≡ some number
    pub port_fits : port_allowed o.allow_ports number ≡ true
    pub first : Address
    pub others : List Address
    pub resolved : q.addresses ≡ some (first ∷ others)
    pub public_only : all_public (first ∷ others) ≡ true

  check_addresses-ok :
      (found : Option (List Address)) {u : Unit}
      → check_addresses found ≡ ok u
      → (a : Address) × ((as' : List Address) × ((found ≡ some (a ∷ as'))
            × (all_public (a ∷ as') ≡ true)))
  unfolding check_addresses
  check_addresses-ok none h = cc
  check_addresses-ok (some []) h = cc
  check_addresses-ok (some (a ∷ as')) h = (a, (as', (refl, ground (arith, guard-ok _ _ h))))

  check_port-ok :
      (any : Bool) (o : Option ℤ) {u : Unit}
      → check_port any o ≡ ok u
      → (n : ℤ) × ((o ≡ some n) × (port_allowed any n ≡ true))
  unfolding check_port
  check_port-ok any none h = cc
  check_port-ok any (some n) h = (n, (refl, ground (arith, guard-ok _ _ h)))

  parsed-IsReceiver :
      (o : Options) (q : Request) (p : Option Url) {u : Unit}
      → q.parsed ≡ p
      → check_receiver atoi o.allow_ports q.raw p q.addresses ≡ ok u
      → IsReceiver o q
  unfolding check_receiver
  parsed-IsReceiver o q none e h = cc
  parsed-IsReceiver o q (some url) e h =
      let (a, (fault, h₁)) = >>=-ok (guard (not (url_allowed q.raw url)) bad_url) _ h in
      let (b, (port, h₂)) = >>=-ok (check_port o.allow_ports (atoi (port_of url))) _ h₁ in
      let (n, (numbered, fits)) = check_port-ok o.allow_ports (atoi (port_of url)) port in
      let (x, (xs, (found, public))) = check_addresses-ok q.addresses h₂ in
      record {
        url = url;
        parses = e;
        allowed = ground (arith, guard-ok _ _ fault);
        number = n;
        numbered = numbered;
        port_fits = fits;
        first = x;
        others = xs;
        resolved = found;
        public_only = public;
      }

  check_receiver-ok :
      (o : Options) (q : Request) {u : Unit}
      → check_receiver atoi o.allow_ports q.raw q.parsed q.addresses ≡ ok u
      → IsReceiver o q
  check_receiver-ok o q h = parsed-IsReceiver o q q.parsed refl h

-- A filter that the deployment denies is off.
abbrev pub NoWider : Filters → Filters → Type 0
NoWider denied f =
    ((denied.forward_self && f.forward_self) ≡ false)
    × (((denied.forward_channels && f.forward_channels) ≡ false)
        × ((denied.forward_broadcasts && f.forward_broadcasts) ≡ false))

-- What holds of a value, if there is one.
abbrev Holds {ℓ κ} : {A : Type ℓ} → (A → Type κ) → Checked A → Type κ
Holds P (ok a) = P a
Holds P (refused e) = Unit

check_filter-ok :
    (v : Option Bool) (denied effective b : Bool)
    → (denied && effective) ≡ false
    → check_filter v denied effective ≡ ok b
    → (denied && b) ≡ false
unfolding check_filter
check_filter-ok none denied effective b n h = ground arith
check_filter-ok (some v) denied effective b n h = ground arith

check_filters-NoWider :
    (q : Request) (denied f g : Filters)
    → NoWider denied f
    → check_filters q denied f ≡ ok g
    → NoWider denied g
unfolding check_filters
check_filters-NoWider q denied f g (x, (y, z)) h =
    let (a, (ha, h₁)) = >>=-ok (check_filter q.wants_self denied.forward_self f.forward_self) _ h in
    let (b, (hb, h₂)) =
      >>=-ok (check_filter q.wants_channels denied.forward_channels f.forward_channels) _ h₁ in
    let (c, (hc, h₃)) =
      >>=-ok (check_filter q.wants_broadcasts denied.forward_broadcasts f.forward_broadcasts) _
        h₂ in
    subst (Holds (NoWider denied)) h₃ (
      check_filter-ok q.wants_self denied.forward_self f.forward_self a x ha,
      (
        check_filter-ok q.wants_channels denied.forward_channels f.forward_channels b y hb,
        check_filter-ok q.wants_broadcasts denied.forward_broadcasts f.forward_broadcasts c z hc,
      ),
    )

module _ (atoi : Text → Option ℤ) where
  -- What the code promises of a request it accepts, and of what it takes from it.
  pub record IsSafe (o : Options) (q : Request) (a : Accepted) : Type 0 where
    pub secret_size : (32 ≤ length q.secret) × (length q.secret ≤ 256)
    pub clean_authorization :
        (is_empty q.authorization || all_bytes (is_between 0x20 0x7e) q.authorization) ≡ true
    pub known_events : all_known q.events ≡ true
    pub distinct_events : fresh [] q.events ≡ true
    pub some_event : 1 ≤ length q.events
    pub same_events : (k : EventKind) → selects a.chosen k ≡ has q.events (name_of k)
    pub no_denied_connection :
        (selects a.chosen connection_changed && o.denied_connection_events) ≡ false
    pub no_wider : NoWider o.denied_filters a.filters
    pub good_prefix : valid_prefix a.prefix ≡ true
    pub good_receiver : IsReceiver atoi o q

  authorized :
      (v : Text)
      → (not (is_empty v) && not (valid_authorization v)) ≡ false
      → (is_empty v || all_bytes (is_between 0x20 0x7e) v) ≡ true
  unfolding valid_authorization
  authorized v h = ground arith

  same_events_of :
      (q : Request) (seen : List EventKind)
      → check_events [] q.events ≡ ok seen
      → (k : EventKind) → selects seen k ≡ has q.events (name_of k)
  unfolding selects
  same_events_of q seen h k = ground (arith, selects-check_events [] q.events seen k h)

  IsSafe-parts :
      (o : Options) (q : Request) (seen : List EventKind) (g : Filters) (prefix : Text)
      → not (is_between 32 256 (length q.secret)) ≡ false
      → (not (is_empty q.authorization) && not (valid_authorization q.authorization)) ≡ false
      → not (is_between 1 3 (length q.events)) ≡ false
      → check_events [] q.events ≡ ok seen
      → (selects seen connection_changed && o.denied_connection_events) ≡ false
      → NoWider o.denied_filters g
      → not (valid_prefix prefix) ≡ false
      → IsReceiver atoi o q
      → IsSafe o q (record { chosen = seen; filters = g; prefix = prefix })
  IsSafe-parts o q seen g prefix size auth count events connection filters header receiver =
      let fine = sym (check_events_lem [] q.events) ∙ ap is_ok events in
      record {
        secret_size = ground arith;
        clean_authorization = authorized q.authorization auth;
        known_events = ground (arith, fine);
        distinct_events = ground (arith, fine);
        some_event = ground arith;
        same_events = same_events_of q seen events;
        no_denied_connection = connection;
        no_wider = filters;
        good_prefix = ground arith;
        good_receiver = receiver;
      }

  -- A request that is accepted has a secret of 32 to 256 bytes, an authorization that is absent or
  -- printable ASCII, and known events, one at least and none twice, which are those selected; it does
  -- not select the connection event where the deployment denies it, and turns on no filter that the
  -- deployment denies; its prefix is valid, and its receiver is an HTTPS URL with an allowed port
  -- whose addresses, one at least, are all public. The deployment's own filters are not wider than
  -- what it denies.
  pub IsSafe-check_request :
      (o : Options) (q : Request) (f : Filters) (a : Accepted)
      → NoWider o.denied_filters f
      → check_request atoi o q f ≡ ok a
      → IsSafe o q a
  unfolding check_request
  IsSafe-check_request o q f a n h =
      let (_, (secret, h₁)) =
        >>=-ok (guard (not (is_between 32 256 (length q.secret))) bad_secret) _ h in
      let (_, (authorization, h₂)) =
        >>=-ok
          (guard (not (is_empty q.authorization) && not (valid_authorization q.authorization))
            bad_authorization)
          _ h₁ in
      let (_, (count, h₃)) =
        >>=-ok (guard (not (is_between 1 3 (length q.events))) bad_event_count) _ h₂ in
      let (seen, (events, h₄)) = >>=-ok (check_events [] q.events) _ h₃ in
      let (_, (connection, h₅)) =
        >>=-ok
          (guard (selects seen connection_changed && o.denied_connection_events) denied_connection)
          _ h₄ in
      let (g, (filters, h₆)) = >>=-ok (check_filters q o.denied_filters f) _ h₅ in
      let prefix : Text = if is_empty q.header_prefix then codes "X-Webhook" else q.header_prefix in
      let (_, (header, h₇)) = >>=-ok (guard (not (valid_prefix prefix)) bad_prefix) _ h₆ in
      let (_, (receiver, h₈)) =
        >>=-ok (check_receiver atoi o.allow_ports q.raw q.parsed q.addresses) _ h₇ in
      subst (Holds (IsSafe o q)) h₈ (
        IsSafe-parts o q seen g prefix (guard-ok _ _ secret) (guard-ok _ _ authorization)
          (guard-ok _ _ count) events (guard-ok _ _ connection)
          (check_filters-NoWider q o.denied_filters f g n filters) (guard-ok _ _ header)
          (check_receiver-ok atoi o q receiver))
