-- ===== src/Access/Tools/Laws.antt =====
-- What the lists allow.
use whatsapp_mcp.Prelude.{
  true, false, ◌≡◌, ◌↔◌, ◌⊎◌, inl, inr, refl, ap, Option, none, some, List, [], ◌∷◌, ◌++◌, arith,
  Bool-cases,
}
use whatsapp_mcp.Prelude.Text.{Text, has, has-append}
use whatsapp_mcp.Access.Tools.{
  refusal_of, judge, endpoint_tools, tools_of, ToolPolicy, restricted, allows_tool, blocked_tools,
  refusal, known_tools, unknown_names, check_tool_policy, accepted,
}

-- Some tool of the list is allowed.
abbrev pub SomeAllowed : ToolPolicy → List Text → Type 0
SomeAllowed p [] = ⊥
SomeAllowed p (t ∷ ts) = (allows_tool p t ≡ true) ⊎ SomeAllowed p ts

blocked_tools-open :
    (p : ToolPolicy) (ts : List Text) → blocked_tools p ts ≡ none → SomeAllowed p ts
unfolding blocked_tools
blocked_tools-open p [] h = cc
blocked_tools-open p (t ∷ ts) h = elim (Bool-cases (allows_tool p t)) [
  | inl a ↦ inl a
  | inr a ↦ inr (blocked_tools-open p ts (ground arith))
]

open-blocked_tools :
    (p : ToolPolicy) (ts : List Text) → SomeAllowed p ts → blocked_tools p ts ≡ none
unfolding blocked_tools
open-blocked_tools p [] h = absurd h
open-blocked_tools p (t ∷ ts) (inl a) = ground arith
open-blocked_tools p (t ∷ ts) (inr s) = ground (arith, open-blocked_tools p ts s)

-- When a path may proceed: no list is set, or some tool that reaches it is allowed.
abbrev pub MayProceed : ToolPolicy → Text → Type 0
MayProceed p path =
    (restricted p ≡ false)
    ⊎ ((tools : List Text) × (tools_of endpoint_tools path ≡ some tools) × SomeAllowed p tools)

open_tools :
    (p : ToolPolicy) (o : Option (List Text))
    → refusal_of p o ≡ none
    → (ts : List Text) × (o ≡ some ts) × SomeAllowed p ts
unfolding refusal_of
open_tools p none h = cc
open_tools p (some ts) h = (ts, refl, blocked_tools-open p ts (ground arith))

tools_open : (p : ToolPolicy) (ts : List Text) → SomeAllowed p ts → refusal_of p (some ts) ≡ none
unfolding refusal_of
tools_open p ts s = rw (open-blocked_tools p ts s, refusal_of)

-- A call of an endpoint passes the policy exactly where no list is set or some tool that reaches the
-- endpoint is allowed; an endpoint that no tool reaches stays shut as soon as a list is set.
pub refusal-MayProceed :
    (p : ToolPolicy) (path : Text) → (refusal p path ≡ none) ↔ MayProceed p path
unfolding refusal
refusal-MayProceed p path = (
  λ h. elim (Bool-cases (restricted p)) [
    | inr r ↦ inl r
    | inl r ↦ inr (open_tools p (tools_of endpoint_tools path) (ground arith))
  ],
  λ m. elim m [
    | inl r ↦ ground arith
    | inr (ts, e, s) ↦ elim (Bool-cases (restricted p)) [
      | inr r ↦ ground arith
      | inl r ↦ ground (arith, tools_open p ts s, ap (refusal_of p) e)
    ]
  ],
)

-- Every name of the list is known.
abbrev pub AllKnown : List Text → List Text → Type 0
AllKnown known [] = Unit
AllKnown known (n ∷ names) = (has known n ≡ true) × AllKnown known names

known-unknown_names :
    (known names : List Text) → AllKnown known names → unknown_names known names ≡ []
unfolding unknown_names
known-unknown_names known [] h = refl
known-unknown_names known (n ∷ names) (k, ks) = ground (arith, known-unknown_names known names ks)

unknown_names-known :
    (known names : List Text) → unknown_names known names ≡ [] → AllKnown known names
unfolding unknown_names
unknown_names-known known [] h = tt
unknown_names-known known (n ∷ names) h = elim (Bool-cases (has known n)) [
  | inl k ↦ (k, unknown_names-known known names (ground arith))
  | inr k ↦ ground arith
]

judge-accepted :
    (p q : ToolPolicy) (xs ys : List Text)
    → judge p xs ys ≡ accepted q
    → (p ≡ q) × (xs ≡ []) × (ys ≡ [])
unfolding judge
judge-accepted p q [] [] h = (ground arith, refl, refl)
judge-accepted p q [] (y ∷ ys) h = cc
judge-accepted p q (x ∷ xs) ys h = cc

judge-known :
    (p q : ToolPolicy)
    → p ≡ q
    → AllKnown known_tools p.allow
    → AllKnown known_tools p.deny
    → judge p (unknown_names known_tools p.allow) (unknown_names known_tools p.deny) ≡ accepted q
unfolding judge
judge-known p q e a d =
    rw (known-unknown_names known_tools p.allow a, known-unknown_names known_tools p.deny d, e)

-- A policy is accepted exactly where both of its lists name known tools only; it is kept as it is.
check_tool_policy-AllKnown :
    (p q : ToolPolicy)
    → (check_tool_policy p ≡ accepted q)
      ↔ ((p ≡ q) × AllKnown known_tools p.allow × AllKnown known_tools p.deny)
unfolding check_tool_policy
check_tool_policy-AllKnown p q = (
  λ h.
      let (e, a, d) =
        judge-accepted p q (unknown_names known_tools p.allow) (unknown_names known_tools p.deny)
          h in
      (e, unknown_names-known known_tools p.allow a, unknown_names-known known_tools p.deny d),
  λ (e, a, d). judge-known p q e a d,
)

-- A second deny list on top of a policy.
abbrev pub denying : List Text → ToolPolicy → ToolPolicy
denying names p = record p { deny = names ++ p.deny }

allows_tool-denying :
    (names : List Text) (p : ToolPolicy) (t : Text)
    → allows_tool (denying names p) t ≡ true
    → (allows_tool p t ≡ true) × (has names t ≡ false)
unfolding allows_tool
allows_tool-denying names p t h =
    (ground (arith, has-append names p.deny t), ground (arith, has-append names p.deny t))

SomeAllowed-denying :
    (names : List Text) (p : ToolPolicy) (ts : List Text)
    → SomeAllowed (denying names p) ts
    → SomeAllowed p ts
SomeAllowed-denying names p [] h = h
SomeAllowed-denying names p (t ∷ ts) (inl a) = inl ((allows_tool-denying names p t a).0)
SomeAllowed-denying names p (t ∷ ts) (inr s) = inr (SomeAllowed-denying names p ts s)

restricted-denying :
    (names : List Text) (p : ToolPolicy)
    → restricted (denying names p) ≡ false
    → restricted p ≡ false
unfolding restricted
restricted-denying [] p h = h
restricted-denying (n ∷ names) p h = ground arith

-- A longer deny list opens no endpoint: what it lets pass, the shorter one lets pass.
refusal-denying :
    (names : List Text) (p : ToolPolicy) (path : Text)
    → refusal (denying names p) path ≡ none
    → refusal p path ≡ none
refusal-denying names p path h = elim ((refusal-MayProceed (denying names p) path).0 h) [
  | inl r ↦ (refusal-MayProceed p path).1 (inl (restricted-denying names p r))
  | inr (ts, e, s) ↦ (refusal-MayProceed p path).1 (inr (ts, e, SomeAllowed-denying names p ts s))
]
