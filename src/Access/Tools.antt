-- ===== src/Access/Tools.antt =====
-- whatsapp-bridge/tool_policy.go: the allow and deny lists of tool names. Go's sets are lists of
-- their members. A refusal is its parts; the English around them is not modelled.
pub mod Laws
use whatsapp_mcp.Prelude.{
  ℕ, Bool, true, false, not, ◌&&◌, ◌||◌, ◌≡◌, Option, none, some, List, [], ◌∷◌, ◌++◌,
  if◌then◌else◌,
}
use whatsapp_mcp.Prelude.Text.{Text, codes, text_eq, has, trim_space, split}

unfoldable pub endpoint_tools : List (Text × List Text)
endpoint_tools =
    (codes "/api/send", codes "send_message" ∷ codes "send_file" ∷ codes "send_audio_message" ∷ [])
    ∷ (codes "/api/react", codes "send_reaction" ∷ [])
    ∷ (codes "/api/typing", codes "send_typing" ∷ [])
    ∷ (codes "/api/mark-read", codes "mark_messages_read" ∷ [])
    ∷ (codes "/api/chat/label", codes "label_chat" ∷ [])
    ∷ (codes "/api/chat/archive", codes "archive_chat" ∷ [])
    ∷ (codes "/api/delete", codes "delete_message" ∷ [])
    ∷ (codes "/api/edit", codes "edit_message" ∷ [])
    ∷ (codes "/api/forward", codes "forward_message" ∷ [])
    ∷ (codes "/api/group/participants", codes "manage_group_participants" ∷ [])
    ∷ (codes "/api/group/subject", codes "update_group" ∷ [])
    ∷ (codes "/api/group/invite", codes "get_group_invite_link" ∷ [])
    ∷ (codes "/api/group/leave", codes "leave_group" ∷ [])
    ∷ (codes "/api/media/purge", codes "purge_media" ∷ [])
    ∷ (codes "/api/history", codes "request_history" ∷ [])
    ∷ []

unfoldable pub unenforced_tools : List Text
unenforced_tools =
    codes "annotate"
    ∷ codes "annotate_media"
    ∷ codes "bridge_status"
    ∷ codes "clear_media_refusal"
    ∷ codes "compact"
    ∷ codes "coverage"
    ∷ codes "download_media"
    ∷ codes "export_messages"
    ∷ codes "get_chat"
    ∷ codes "get_contact"
    ∷ codes "get_contact_chats"
    ∷ codes "get_direct_chat_by_contact"
    ∷ codes "get_last_interaction"
    ∷ codes "get_media_notes"
    ∷ codes "get_media_stats"
    ∷ codes "get_message_context"
    ∷ codes "get_notes"
    ∷ codes "get_poll_results"
    ∷ codes "list_labels"
    ∷ codes "list_chats"
    ∷ codes "list_group_members"
    ∷ codes "list_media"
    ∷ codes "list_messages"
    ∷ codes "list_unanswered"
    ∷ codes "list_unread"
    ∷ codes "mark_handled"
    ∷ codes "message_stats"
    ∷ codes "read_media"
    ∷ codes "search_contacts"
    ∷ codes "search_media_notes"
    ∷ codes "search_notes"
    ∷ codes "snooze"
    ∷ codes "transcribe_audio"
    ∷ []

unfoldable pub tools_of : List (Text × List Text) → Text → Option (List Text)
tools_of [] path = none
tools_of ((p, tools) ∷ table) path = if text_eq p path then some tools else tools_of table path

unfoldable pub mapped_tools : List (Text × List Text) → List Text
mapped_tools [] = []
mapped_tools ((p, tools) ∷ table) = tools ++ mapped_tools table

unfoldable pub known_tools : List Text
unfolding mapped_tools
known_tools = unenforced_tools ++ mapped_tools endpoint_tools

pub record ToolPolicy : Type 0 where
  pub allow : List Text
  pub deny : List Text

unfoldable pub keep_named : Text → List Text → List Text
keep_named [] rest = rest
keep_named (c ∷ s) rest = (c ∷ s) ∷ rest

unfoldable pub named_items : List Text → List Text
named_items [] = []
named_items (item ∷ items) = keep_named (trim_space item) (named_items items)

unfoldable pub parse_tool_list : Text → List Text
unfolding named_items
parse_tool_list raw = named_items (split b',' raw)

unfoldable pub unknown_names : List Text → List Text → List Text
unknown_names known [] = []
unknown_names known (n ∷ names) =
    let rest = unknown_names known names in if has known n then rest else n ∷ rest

-- The names that are no tools, of each list; `accepted` where there are none.
pub data Parsed : Type 0 where
  rejected : List Text → List Text → Parsed
  accepted : ToolPolicy → Parsed

unfoldable pub judge : ToolPolicy → List Text → List Text → Parsed
judge p [] [] = accepted p
judge p (x ∷ xs) ys = rejected (x ∷ xs) ys
judge p [] (y ∷ ys) = rejected [] (y ∷ ys)

unfoldable pub check_tool_policy : ToolPolicy → Parsed
check_tool_policy p = judge p (unknown_names known_tools p.allow) (unknown_names known_tools p.deny)

unfoldable pub new_tool_policy : Text → Text → Parsed
new_tool_policy allow_raw deny_raw =
    check_tool_policy
      (record { allow = parse_tool_list allow_raw; deny = parse_tool_list deny_raw })

abbrev pub is_set : List Text → Bool
is_set [] = false
is_set (x ∷ xs) = true

unfoldable pub restricted : ToolPolicy → Bool
restricted p = is_set p.allow || is_set p.deny

unfoldable pub allows_tool : ToolPolicy → Text → Bool
allows_tool p name = if has p.deny name then false else not (is_set p.allow) || has p.allow name

-- Why a tool is blocked: the list that says so.
pub data Blocker : Type 0 where
  not_allowed denied : Blocker

pub data Refusal : Type 0 where
  unmapped : Refusal
  all_blocked : List (Text × Blocker) → Refusal

abbrev blocker : ToolPolicy → Text → Blocker
blocker p name = if has p.deny name then denied else not_allowed

-- The loop over the tools of an endpoint: the first allowed one opens it.
unfoldable pub blocked_tools : ToolPolicy → List Text → Option (List (Text × Blocker))
blocked_tools p [] = some []
blocked_tools p (name ∷ names) = elim (allows_tool p name) [
  | true ↦ none
  | false ↦ elim (blocked_tools p names) [
    | none ↦ none
    | some rest ↦ some ((name, blocker p name) ∷ rest)
  ]
]

unfoldable pub refusal_of : ToolPolicy → Option (List Text) → Option Refusal
refusal_of p none = some unmapped
refusal_of p (some tools) = elim (blocked_tools p tools) [
  | none ↦ none
  | some reasons ↦ some (all_blocked reasons)
]

unfoldable pub refusal : ToolPolicy → Text → Option Refusal
refusal p path = if not (restricted p) then none else refusal_of p (tools_of endpoint_tools path)
