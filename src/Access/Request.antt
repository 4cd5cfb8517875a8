-- ===== src/Access/Request.antt =====
-- The chain of guards of whatsapp-bridge/rest.go (`mutate` in `newRESTMux`): `withAuth` of auth.go,
-- the read-only switch of read_only.go, the two runtime guards of runtime_settings.go, the tool
-- policy, and `requireMethod` of rest_middleware.go. A reply stands for the status and the code;
-- `handled` also holds the snapshot that the handler was given.
pub mod Gate
use whatsapp_mcp.Prelude.{ℕ, Bool, true, false, not, Option, none, some, if◌then◌else◌}
use whatsapp_mcp.Prelude.Text.{Text, text_eq}
use whatsapp_mcp.Access.Tools.{ToolPolicy, Refusal, refusal}
use whatsapp_mcp.Access.Hosts.{HostAllowList, allows_host, check_bearer_token}
use whatsapp_mcp.ChatPolicy.{ChatPolicy}

-- What the guards and the handlers read of `runtimeSettingsSnapshot`.
pub record Snapshot : Type 0 where
  pub version : ℕ
  pub tools : ToolPolicy
  pub chats : ChatPolicy

-- `pinned` is the snapshot in the request's context.
pub record Request : Type 0 where
  pub host : Text
  pub authorization : Text
  pub path : Text
  pub method : Text
  pub pinned : Option Snapshot

pub data Reply : Type 0 where
  host_forbidden unauthorized read_only settings_unavailable operator_idle method_not_allowed :
      Reply
  tools_forbidden : Refusal → Reply
  handled : Option Snapshot → Reply

abbrev pub Handler : Type 0
Handler = Request → Reply

-- The bridge as the guards see it. `policy_read` and `tool_read` are what `liveSettings` answers when
-- the policy guard, and later the tool guard, asks it: the settings may have changed in between, and
-- `none` is an error.
pub record Server : Type 0 where
  pub allowed_hosts : HostAllowList
  pub token : Text
  pub is_read_only : Bool
  pub has_runtime : Bool
  pub policy_read : Option Snapshot
  pub tool_read : Option Snapshot
  pub operator_logout : Bool
  pub tools : ToolPolicy

module _ (split_host_port : Text → Option Text) where
  unfoldable pub with_auth : Server → Handler → Handler
  with_auth s h r =
      if not (allows_host split_host_port s.allowed_hosts r.host)
      then host_forbidden
      else if not (check_bearer_token r.authorization s.token)
      then unauthorized
      else h r

unfoldable pub read_only_guard : Server → Handler → Handler
read_only_guard s h r = if s.is_read_only then read_only else h r

-- `settingsSnapshot`: a pinned snapshot comes before the table.
unfoldable pub settings_snapshot : (live : Option Snapshot) → Request → Option Snapshot
settings_snapshot live r = elim r.pinned [ none ↦ live | some p ↦ some p ]

-- The snapshot goes into the context of the request; a failed read answers 503.
unfoldable pub pin : Handler → Request → Option Snapshot → Reply
pin h r none = settings_unavailable
pin h r (some p) = h (record r { pinned = some p })

unfoldable pub runtime_policy_guard : Server → Handler → Handler
unfolding pin
runtime_policy_guard s h r =
    if not s.has_runtime then h r else pin h r (settings_snapshot s.policy_read r)

unfoldable pub answer : Handler → Request → Option Refusal → Reply
answer h r none = h r
answer h r (some why) = tools_forbidden why

unfoldable pub tool_guard : ToolPolicy → Handler → Handler
tool_guard p h r = answer h r (refusal p r.path)

unfoldable pub runtime_tool_guard : Server → Handler → Handler
runtime_tool_guard s h r =
    if not s.has_runtime
    then tool_guard s.tools h r
    else if s.operator_logout
    then operator_idle
    else elim (settings_snapshot s.tool_read r) [
      | none ↦ settings_unavailable
      | some p ↦ tool_guard p.tools h r
    ]

unfoldable pub require_method : Text → Handler → Handler
require_method m h r = if text_eq r.method m then h r else method_not_allowed

module _ (split_host_port : Text → Option Text) where
  unfoldable pub mutate : Server → Handler → Handler
  mutate s h =
      with_auth split_host_port s
        (read_only_guard s (runtime_policy_guard s (runtime_tool_guard s h)))
