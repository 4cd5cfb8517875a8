-- ===== src/Webhook/Config/Refusals.antt =====
-- What is wrong with a refused request.
use whatsapp_mcp.Prelude.{
  ◌<◌, ◌≡◌, refl, sym, subst, ◌∙◌, Bool, true, false, not, ◌&&◌, Option, none, some, List, [], ◌∷◌,
  length, if◌then◌else◌, inl, inr, ◌⊎◌, arith, if_both,
}
use whatsapp_mcp.Prelude.Text.{Text, codes, is_empty, has, cut_prefix}
use whatsapp_mcp.Prelude.Int.{ℤ}
use whatsapp_mcp.Webhook.Outbox.{EventKind, connection_changed, selects}
use whatsapp_mcp.Webhook.Config.{
  Refusal, bad_secret, bad_authorization, bad_event_count, bad_events, denied_connection,
  widened_filter, bad_prefix, bad_url, bad_port, lookup_failed, forbidden_address, Checked, ok,
  refused, guard, ◌>>=◌, Filters, Options, Url, Address, Request, all_bytes, valid_prefix,
  valid_authorization, event_of, check_events, check_filter, check_filters, all_public, port_of,
  port_allowed, url_allowed, check_addresses, check_port, check_receiver, check_request, is_between,
}
use whatsapp_mcp.Webhook.Config.Events.{
  name_of, all_known, fresh, is_ok, check_events_lem, selects-check_events,
}

-- What holds of the error, if there is one.
abbrev Tells {ℓ κ} : {A : Type ℓ} → (Refusal → Type κ) → Checked A → Type κ
Tells P (ok a) = Unit
Tells P (refused e) = P e

Tells->>= {ℓ κ ν} :
    {A : Type ℓ} {B : Type κ} (P : Refusal → Type ν) (m : Checked A) (f : A → Checked B)
    → Tells P m
    → ((a : A) → m ≡ ok a → Tells P (f a))
    → Tells P (m >>= f)
Tells->>= P (ok a) f t go = go a refl
Tells->>= P (refused e) f t go = t

Tells-guard {ν} :
    (P : Refusal → Type ν) (b : Bool) (e : Refusal) → (b ≡ true → P e) → Tells P (guard b e)
Tells-guard P true e h = h refl
Tells-guard P false e h = tt

Tells-only {ℓ ν} :
    {A : Type ℓ} (P : Refusal → Type ν) (e : Refusal) (m : Checked A)
    → Tells (λ x. x ≡ e) m
    → (is_ok m ≡ false → P e)
    → Tells P m
Tells-only P e (ok a) t h = tt
Tells-only P e (refused x) t h = subst P (sym t) (h refl)

Tells-event :
    (seen : List EventKind) (ts : List Text) (o : Option EventKind)
    → ((k : EventKind) → Tells (λ x. x ≡ bad_events) (check_events (k ∷ seen) ts))
    → Tells
        (λ x. x ≡ bad_events)
        (elim o [
          | none ↦ refused bad_events
          | some k ↦ if selects seen k then refused bad_events else check_events (k ∷ seen) ts
        ])
Tells-event seen ts none h = refl
Tells-event seen ts (some k) h =
    if_both (Tells (λ x. x ≡ bad_events)) (selects seen k) _ _ (λ _. refl) (λ _. h k)

Tells-check_events :
    (seen : List EventKind) (ts : List Text) → Tells (λ x. x ≡ bad_events) (check_events seen ts)
unfolding check_events
Tells-check_events seen [] = tt
Tells-check_events seen (t ∷ ts) =
    Tells-event seen ts (event_of t) (λ k. Tells-check_events (k ∷ seen) ts)

not-true : (b : Bool) → not b ≡ true → b ≡ false
not-true true h = cc
not-true false h = refl

module _ (atoi : Text → Option ℤ) where
  abbrev Widens : Option Bool → Bool → Type 0
  Widens wanted denied = (wanted ≡ some true) × (denied ≡ true)

  -- What each error says of the request.
  abbrev pub Because : Options → Request → Refusal → Type 0
  Because o q bad_secret = (length q.secret < 32) ⊎ (256 < length q.secret)
  Because o q bad_authorization =
      (is_empty q.authorization ≡ false) × (valid_authorization q.authorization ≡ false)
  Because o q bad_event_count = (length q.events ≡ 0) ⊎ (3 < length q.events)
  Because o q bad_events = (all_known q.events && fresh [] q.events) ≡ false
  Because o q denied_connection =
      (has q.events (name_of connection_changed) ≡ true) × (o.denied_connection_events ≡ true)
  Because o q widened_filter =
      Widens q.wants_self o.denied_filters.forward_self
      ⊎ (Widens q.wants_channels o.denied_filters.forward_channels
          ⊎ Widens q.wants_broadcasts o.denied_filters.forward_broadcasts)
  Because o q bad_prefix =
      (is_empty q.header_prefix ≡ false) × (valid_prefix q.header_prefix ≡ false)
  Because o q bad_url =
      (q.parsed ≡ none) ⊎ ((u : Url) × ((q.parsed ≡ some u) × (url_allowed q.raw u ≡ false)))
  Because o q bad_port =
      (u : Url) × ((q.parsed ≡ some u)
        × ((atoi (port_of u) ≡ none)
            ⊎ ((n : ℤ) × ((atoi (port_of u) ≡ some n) × (port_allowed o.allow_ports n ≡ false)))))
  Because o q lookup_failed = (q.addresses ≡ none) ⊎ (q.addresses ≡ some [])
  Because o q forbidden_address =
      (found : List Address) × ((q.addresses ≡ some found) × (all_public found ≡ false))

  given :
      (p : Text)
      → not (valid_prefix (if is_empty p then codes "X-Webhook" else p)) ≡ true
      → (is_empty p ≡ false) × (valid_prefix p ≡ false)
  unfolding valid_prefix all_bytes cut_prefix
  given [] h = cc
  given (c ∷ s) h = (refl, not-true (valid_prefix (c ∷ s)) h)

  Tells-check_filter :
      (o : Options) (q : Request) (v : Option Bool) (denied effective : Bool)
      → (Widens v denied → Because o q widened_filter)
      → Tells (Because o q) (check_filter v denied effective)
  unfolding check_filter
  Tells-check_filter o q none denied effective h = tt
  Tells-check_filter o q (some true) true effective h = h (refl, refl)
  Tells-check_filter o q (some true) false effective h = tt
  Tells-check_filter o q (some false) denied effective h = tt

  Tells-check_filters :
      (o : Options) (q : Request) (f : Filters)
      → Tells (Because o q) (check_filters q o.denied_filters f)
  unfolding check_filters
  Tells-check_filters o q f =
      Tells->>= (Because o q) _ _
        (Tells-check_filter o q q.wants_self o.denied_filters.forward_self f.forward_self
          (λ w. inl w))
        (λ a _.
          Tells->>= (Because o q) _ _
            (Tells-check_filter o q q.wants_channels o.denied_filters.forward_channels
              f.forward_channels (λ w. inr (inl w)))
            (λ b _.
              Tells->>= (Because o q) _ _
                (Tells-check_filter o q q.wants_broadcasts o.denied_filters.forward_broadcasts
                  f.forward_broadcasts (λ w. inr (inr w)))
                (λ c _. tt)))

  Tells-check_addresses :
      (o : Options) (q : Request) (found : Option (List Address))
      → q.addresses ≡ found
      → Tells (Because o q) (check_addresses found)
  unfolding check_addresses
  Tells-check_addresses o q none e = inl e
  Tells-check_addresses o q (some []) e = inr e
  Tells-check_addresses o q (some (a ∷ as')) e =
      Tells-guard (Because o q) _ _ (λ fault. (a ∷ as', (e, ground arith)))

  Tells-check_port :
      (o : Options) (q : Request) (u : Url) (p : Option ℤ)
      → q.parsed ≡ some u
      → atoi (port_of u) ≡ p
      → Tells (Because o q) (check_port o.allow_ports p)
  unfolding check_port
  Tells-check_port o q u none e a = (u, (e, inl a))
  Tells-check_port o q u (some n) e a =
      Tells-guard (Because o q) _ _ (λ fault. (u, (e, inr (n, (a, ground arith)))))

  Tells-check_receiver :
      (o : Options) (q : Request) (p : Option Url)
      → q.parsed ≡ p
      → Tells (Because o q) (check_receiver atoi o.allow_ports q.raw p q.addresses)
  unfolding check_receiver
  Tells-check_receiver o q none e = inl e
  Tells-check_receiver o q (some u) e =
      Tells->>= (Because o q) _ _
        (Tells-guard (Because o q) _ _ (λ fault. inr (u, (e, ground arith))))
        (λ a _.
          Tells->>= (Because o q) _ _ (Tells-check_port o q u (atoi (port_of u)) e refl)
            (λ b _. Tells-check_addresses o q q.addresses refl))

  connection_told :
      (o : Options) (q : Request) (seen : List EventKind)
      → check_events [] q.events ≡ ok seen
      → (selects seen connection_changed && o.denied_connection_events) ≡ true
      → (has q.events (name_of connection_changed) ≡ true) × (o.denied_connection_events ≡ true)
  unfolding selects
  connection_told o q seen e h =
      ground (arith, selects-check_events [] q.events seen connection_changed e)

  Tells-events : (o : Options) (q : Request) → Tells (Because o q) (check_events [] q.events)
  Tells-events o q =
      Tells-only (Because o q) bad_events _ (Tells-check_events [] q.events)
        (λ no. sym (check_events_lem [] q.events) ∙ no)

  -- The three tests before the events.
  Tells-sizes :
      (o : Options) (q : Request)
      → Tells (Because o q) (guard (not (is_between 32 256 (length q.secret))) bad_secret)
        × (Tells (Because o q) (
              guard
                (not (is_empty q.authorization) && not (valid_authorization q.authorization))
                bad_authorization)
            × Tells (Because o q) (guard (not (is_between 1 3 (length q.events))) bad_event_count))
  Tells-sizes o q = (
    Tells-guard (Because o q) (not (is_between 32 256 (length q.secret))) bad_secret
        (λ h. ground arith),
    (
      Tells-guard (Because o q)
          (not (is_empty q.authorization) && not (valid_authorization q.authorization))
          bad_authorization (λ h. ground arith),
      Tells-guard (Because o q) (not (is_between 1 3 (length q.events))) bad_event_count
          (λ h. ground arith),
    ),
  )

  Tells-check_request :
      (o : Options) (q : Request) (f : Filters) → Tells (Because o q) (check_request atoi o q f)
  unfolding check_request
  Tells-check_request o q f =
      let (secret, (authorization, count)) = Tells-sizes o q in
      Tells->>= (Because o q) _ _ secret (λ a _. Tells->>= (Because o q) _ _ authorization (λ b _.
        Tells->>= (Because o q) _ _ count (λ c _.
          Tells->>= (Because o q) _ _ (Tells-events o q) (λ seen chosen.
            Tells->>= (Because o q) _ _
              (Tells-guard (Because o q)
                (selects seen connection_changed && o.denied_connection_events) denied_connection
                (connection_told o q seen chosen))
              (λ d _. Tells->>= (Because o q) _ _ (Tells-check_filters o q f) (λ g _.
                Tells->>= (Because o q) _ _
                  (Tells-guard (Because o q)
                    (not (
                      valid_prefix
                        (if is_empty q.header_prefix then codes "X-Webhook" else q.header_prefix)))
                    bad_prefix (given q.header_prefix))
                  (λ e _.
                    Tells->>= (Because o q) _ _ (Tells-check_receiver o q q.parsed refl)
                      (λ r _. tt))))))))

  -- An error of `configure` tells what is wrong with the request: the secret is too short or too
  -- long; the authorization is not empty and not valid; no event is selected, or more than three; an
  -- event is unknown or is selected twice; the connection event is selected and the deployment denies
  -- it; a filter is turned on that the deployment denies; the header prefix is given and not valid;
  -- the URL cannot be parsed or is not allowed; its port is no number or not allowed; the lookup
  -- finds no address; or an address has a zone or is not public.
  pub check_request-Because :
      (o : Options) (q : Request) (f : Filters) (e : Refusal)
      → check_request atoi o q f ≡ refused e
      → Because o q e
  check_request-Because o q f e h = subst (Tells (Because o q)) h (Tells-check_request o q f)
