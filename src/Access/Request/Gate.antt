-- ===== src/Access/Request/Gate.antt =====
-- What a request of the mutating endpoints has to satisfy to reach its handler.
use whatsapp_mcp.Prelude.{
  true, false, ◌≡◌, ◌↔◌, inl, inr, refl, sym, ◌∙◌, ap, Option, none, some, arith, ◌⊎◌, Option-cases,
  Bool-cases,
}
use whatsapp_mcp.Access.Tools.{ToolPolicy, Refusal, refusal}
use whatsapp_mcp.Access.Tools.Laws.{MayProceed, refusal-MayProceed}
use whatsapp_mcp.Access.Hosts.{allows_host, check_bearer_token}
use whatsapp_mcp.Prelude.Text.{Text}
use whatsapp_mcp.Access.Request.{
  Snapshot, Request, handled, Reply, Handler, Server, with_auth, read_only_guard, settings_snapshot,
  pin, runtime_policy_guard, tool_guard, answer, runtime_tool_guard, mutate,
}

-- A handler that says it was reached, and with which snapshot.
abbrev pub reached : Handler
reached r = handled r.pinned

snapshot_in : Reply → Option Snapshot → Option Snapshot
snapshot_in (handled o) d = o
snapshot_in _ d = d

handled-injective : (o p : Option Snapshot) → handled o ≡ handled p → o ≡ p
unfolding snapshot_in
handled-injective o p e = ap (λ (r : Reply). snapshot_in r o) e

tool_guard-reached :
    (p : ToolPolicy) (r : Request) (o : Option Snapshot)
    → (tool_guard p reached r ≡ handled o) ↔ (MayProceed p r.path × (r.pinned ≡ o))
unfolding tool_guard answer
tool_guard-reached p r o = (
  λ h. let (e, k) = (through (refusal p r.path)).0 h in ((refusal-MayProceed p r.path).0 e, k),
  λ (m, k). (through (refusal p r.path)).1 ((refusal-MayProceed p r.path).1 m, k),
)
  where
    through :
        (w : Option Refusal) → (answer reached r w ≡ handled o) ↔ ((w ≡ none) × (r.pinned ≡ o))
    through none = (λ h. (refl, handled-injective r.pinned o h), λ (e, k). ap handled k)
    through (some why) = (λ h. cc, λ (e, k). cc)

-- Under a pinned snapshot the tool guard reads that one.
pinned_tools :
    (s : Server) (r : Request) (p : Snapshot) (o : Option Snapshot)
    → s.has_runtime ≡ true
    → (runtime_tool_guard s reached (record r { pinned = some p }) ≡ handled o)
      ↔ ((s.operator_logout ≡ false) × MayProceed p.tools r.path × (some p ≡ o))
unfolding runtime_tool_guard settings_snapshot
pinned_tools s r p o y = elim (Bool-cases s.operator_logout) [
  | inl out ↦ (λ h. cc (rw (y, out) at h), λ (n, m, k). cc)
  | inr n ↦
      let there = tool_guard-reached p.tools (record r { pinned = some p }) o in
      (
        λ h. let (m, k) = there.0 (rw (y, n) at h) in (n, m, k),
        λ (_, m, k). rw (y, n) (there.1 (m, k)),
      )
]

-- The policy guard hands on the request with the snapshot that it read.
policy_pins :
    (s : Server) (h : Handler) (r : Request) (p : Snapshot)
    → s.has_runtime ≡ true
    → settings_snapshot s.policy_read r ≡ some p
    → runtime_policy_guard s h r ≡ h (record r { pinned = some p })
unfolding runtime_policy_guard pin
policy_pins s h r p y e = rw (y, e) refl

-- What the settings have to say for a request to be handled, under the snapshot `o`.
abbrev pub Cleared : Server → Request → Option Snapshot → Type 0
Cleared s r o =
    ((s.has_runtime ≡ false) × (o ≡ r.pinned) × MayProceed s.tools r.path)
    ⊎ ((s.has_runtime ≡ true)
        × (s.operator_logout ≡ false)
        × ((p : Snapshot) × (settings_snapshot s.policy_read r ≡ some p)
            × (o ≡ some p)
            × MayProceed p.tools r.path))

runtime_tool_guard-Cleared :
    (s : Server) (r : Request) (o : Option Snapshot)
    → runtime_policy_guard s (runtime_tool_guard s reached) r ≡ handled o
    → Cleared s r o
unfolding runtime_policy_guard runtime_tool_guard pin
runtime_tool_guard-Cleared s r o h = elim (Bool-cases s.has_runtime) [
  | inr n ↦ let (m, k) = (tool_guard-reached s.tools r o).0 (ground arith) in inl (n, sym k, m)
  | inl y ↦ elim (Option-cases (settings_snapshot s.policy_read r)) [
    | inl e ↦ cc (rw (y, e) at h)
    | inr (p, e) ↦
        let (out, m, k) =
          (pinned_tools s r p o y).0
            (sym (policy_pins s (runtime_tool_guard s reached) r p y e) ∙ h) in
        inr (y, out, (p, e, sym k, m))
  ]
]

Cleared-runtime_tool_guard :
    (s : Server) (r : Request) (o : Option Snapshot)
    → Cleared s r o
    → runtime_policy_guard s (runtime_tool_guard s reached) r ≡ handled o
unfolding runtime_policy_guard runtime_tool_guard pin
Cleared-runtime_tool_guard s r o (inl (n, k, m)) =
    rw n ((tool_guard-reached s.tools r o).1 (m, sym k))
Cleared-runtime_tool_guard s r o (inr (y, out, (p, e, k, m))) =
    policy_pins s (runtime_tool_guard s reached) r p y e
    ∙ (pinned_tools s r p o y).1 (out, m, sym k)

module _ (split_host_port : Text → Option Text) where
  -- A mutating request reaches its handler with the snapshot `o` in its context exactly where its host
  -- is allowed, its token is right, the bridge is not read-only, and one of two holds. Without runtime
  -- settings, the start-up policy lets its endpoint proceed and `o` is what the request came with.
  -- With them, no operator logout is set, the policy guard got a snapshot, `o` is that snapshot, and
  -- its tool lists let the endpoint proceed, whatever a second read of the settings would answer.
  pub mutate-reached :
      (s : Server) (r : Request) (o : Option Snapshot)
      → (mutate split_host_port s reached r ≡ handled o) ↔ (
          (allows_host split_host_port s.allowed_hosts r.host ≡ true)
          × (check_bearer_token r.authorization s.token ≡ true)
          × (s.is_read_only ≡ false)
          × Cleared s r o)
  unfolding mutate with_auth read_only_guard
  mutate-reached s r o = (
    λ h.
        (ground arith, ground arith, ground arith, runtime_tool_guard-Cleared s r o (ground arith)),
    λ (a, t, w, c). ground (arith, Cleared-runtime_tool_guard s r o c),
  )
