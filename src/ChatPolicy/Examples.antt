-- ===== src/ChatPolicy/Examples.antt =====
-- Runs of the allow list, and the theorems applied to them.
use whatsapp_mcp.Prelude.{true, false, ◌≡◌, refl, [], ◌∷◌, ◌&&◌, ltb}
use whatsapp_mcp.Prelude.Text.{
  codes, text_eq, has, trim_space, trim_left, trim_right, is_space, is_empty, to_lower, lower,
}
use whatsapp_mcp.ChatPolicy.{
  count_of, cut_next, cut_last, before_first, join_parts, normalize_trimmed, normalize_chat_entry,
  ChatPolicy, server_of, lists_entry, allows_chat, intersect_chat_policies, allowed_entries, common,
}
use whatsapp_mcp.ChatPolicy.Mobile.{
  br_mobile_alternate, has_no_twin, is_phone_digits, all_digits, other_subscriber, add_nine,
  with_codes,
}
use whatsapp_mcp.ChatPolicy.Within.{allows_chat-intersect}

normal_phone : normalize_chat_entry (codes " 5511:3@S.whatsapp.net ") ≡ codes "5511@s.whatsapp.net"
unfolding normalize_chat_entry normalize_trimmed count_of cut_last cut_next join_parts before_first
    trim_space trim_left trim_right is_space to_lower lower
normal_phone = refl

-- A bare number keeps what follows a colon.
bare_number : normalize_chat_entry (codes "5511:3") ≡ codes "5511:3@s.whatsapp.net"
unfolding normalize_chat_entry normalize_trimmed count_of cut_last cut_next join_parts before_first
    trim_space trim_left trim_right is_space to_lower lower
bare_number = refl

abbrev groups : ChatPolicy
groups = record { restricted = true; exact = []; servers = codes "g.us" ∷ [] }

abbrev one_group : ChatPolicy
one_group = record { restricted = true; exact = codes "7@g.us" ∷ codes "8@lid" ∷ []; servers = [] }

one_at : ltb 0 (count_of b'@' (codes "7@g.us")) ≡ true
unfolding count_of
one_at = refl

allows_chat-intersect_example :
    allows_chat (intersect_chat_policies one_group groups) (codes "7@g.us")
    ≡ (allows_chat one_group (codes "7@g.us") && allows_chat groups (codes "7@g.us"))
allows_chat-intersect_example = allows_chat-intersect one_group groups (codes "7@g.us") refl one_at

-- The group passes both lists, the other entry only one of them.
within_both :
    allows_chat (intersect_chat_policies one_group groups) (codes "7@g.us")
      ∷ allows_chat (intersect_chat_policies one_group groups) (codes "8@lid")
      ∷ []
    ≡ true ∷ false ∷ []
unfolding intersect_chat_policies allows_chat lists_entry allowed_entries common server_of
    normalize_chat_entry normalize_trimmed count_of cut_last cut_next join_parts before_first
    trim_space trim_left trim_right is_space to_lower lower has text_eq
within_both = refl

short_has_twin : is_empty (br_mobile_alternate (codes "551187654321")) ≡ false
unfolding br_mobile_alternate has_no_twin is_phone_digits all_digits other_subscriber add_nine
    with_codes
short_has_twin = refl
