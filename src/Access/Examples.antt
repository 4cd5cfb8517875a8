-- ===== src/Access/Examples.antt =====
-- Runs of the access rules, and the theorems applied to them.
use whatsapp_mcp.Prelude.{true, false, ◌≡◌, inr, refl, Option, none, some, [], ◌∷◌, if◌then◌else◌}
use whatsapp_mcp.Prelude.Text.{
  Text, codes, text_eq, has, trim_space, trim_left, trim_right, is_space, split, to_lower, lower,
}
use whatsapp_mcp.Access.Tools.{
  ToolPolicy, rejected, refusal, refusal_of, tools_of, endpoint_tools, restricted, allows_tool,
  blocked_tools, known_tools, mapped_tools, unenforced_tools, unknown_names, check_tool_policy,
  judge, new_tool_policy, parse_tool_list, named_items, keep_named,
}
use whatsapp_mcp.Access.Tools.Laws.{MayProceed, refusal-MayProceed, AllKnown}
use whatsapp_mcp.Access.Hosts.{allows_host, check_bearer_token}
use whatsapp_mcp.Access.Hosts.Laws.{check_bearer_token-exact}
use whatsapp_mcp.Access.Request.{Snapshot, Request, handled, Server, settings_snapshot, mutate}
use whatsapp_mcp.Access.Request.Gate.{reached, mutate-reached}

-- The lists `send_message, react` and none: `react` is no tool.
misspelt :
    new_tool_policy (codes "send_message, react") (codes "") ≡ rejected (codes "react" ∷ []) []
unfolding new_tool_policy check_tool_policy judge parse_tool_list named_items keep_named
    unknown_names known_tools mapped_tools unenforced_tools endpoint_tools split trim_space
    trim_left trim_right is_space has text_eq
misspelt = refl

abbrev no_texting : ToolPolicy
no_texting = record { allow = []; deny = codes "send_message" ∷ [] }

abbrev send_path : Text
send_path = codes "/api/send"

-- The endpoint stays open for `send_file`.
still_open : refusal no_texting send_path ≡ none
unfolding refusal refusal_of tools_of endpoint_tools restricted allows_tool blocked_tools has
    text_eq
still_open = refl

refusal-MayProceed_example : MayProceed no_texting send_path
refusal-MayProceed_example = (refusal-MayProceed no_texting send_path).0 still_open

all_known : AllKnown known_tools (codes "send_message" ∷ [])
unfolding known_tools mapped_tools unenforced_tools endpoint_tools has text_eq
all_known = (refl, tt)

-- A splitter that knows one name with a port.
abbrev port_split : Text → Option Text
port_split h = if text_eq h (codes "localhost:8080") then some (codes "localhost") else none

abbrev call : Request
call = record {
  host = codes "localhost:8080";
  authorization = codes "Bearer k3y";
  path = send_path;
  method = codes "POST";
  pinned = none;
}

abbrev admitted_under : Snapshot
admitted_under = record {
  version = 7;
  tools = no_texting;
  chats = record { restricted = false; exact = []; servers = [] };
}

-- A change of the settings between the guards that denies every tool of the endpoint.
abbrev changed : Snapshot
changed = record admitted_under {
  version = 8;
  tools = record { allow = codes "list_chats" ∷ []; deny = [] };
}

abbrev bridge : Server
bridge = record {
  allowed_hosts = record { any = false; exact = codes "localhost:8080" ∷ []; hosts = [] };
  token = codes "k3y";
  is_read_only = false;
  has_runtime = true;
  policy_read = some admitted_under;
  tool_read = some changed;
  operator_logout = false;
  tools = record { allow = []; deny = [] };
}

host_ok : allows_host port_split bridge.allowed_hosts call.host ≡ true
unfolding allows_host trim_space trim_left trim_right is_space to_lower lower has text_eq
host_ok = refl

token_ok : check_bearer_token call.authorization bridge.token ≡ true
unfolding trim_space trim_left trim_right is_space
token_ok = (check_bearer_token-exact call.authorization bridge.token).1 (codes "k3y", refl, refl)

mutate-reached_example : mutate port_split bridge reached call ≡ handled (some admitted_under)
unfolding settings_snapshot
mutate-reached_example = (mutate-reached port_split bridge call (some admitted_under)).1 (
  host_ok,
  token_ok,
  refl,
  inr (refl, refl, (admitted_under, refl, refl, refusal-MayProceed_example)),
)
