-- ===== src/ChatPolicy.antt =====
-- whatsapp-bridge/chat_policy.go: the allow list of conversations. Go's sets are lists of their
-- members; an `@` is searched with `LastIndex`, so a text is cut at its last one. A normal form
-- that is not empty always has one.
pub mod Normal
pub mod Within
pub mod Parse
pub mod Mobile
mod Examples
use whatsapp_mcp.Prelude.{
  ℕ, ◌+◌, Bool, true, false, not, ◌&&◌, ◌||◌, Option, none, some, List, [], ◌∷◌, ◌++◌, ltb, ◌==◌,
  if◌then◌else◌,
}
use whatsapp_mcp.Prelude.Text.{Text, codes, text_eq, has, trim_space, split, to_lower}

-- `strings.Count` of one character.
unfoldable pub count_of : ℕ → Text → ℕ
count_of c [] = 0
count_of c (x ∷ s) = let rest = count_of c s in if x == c then rest + 1 else rest

unfoldable pub cut_next : ℕ → ℕ → Text → Option (Text × Text) → Option (Text × Text)
cut_next c x s none = if x == c then some ([], s) else none
cut_next c x s (some (before, after)) = some (x ∷ before, after)

-- What stands before and after the last `c`.
unfoldable pub cut_last : ℕ → Text → Option (Text × Text)
unfolding cut_next
cut_last c [] = none
cut_last c (x ∷ s) = cut_next c x s (cut_last c s)

-- What stands before the first `c`, or the whole text.
unfoldable pub before_first : ℕ → Text → Text
before_first c [] = []
before_first c (x ∷ s) = let rest = before_first c s in if x == c then [] else x ∷ rest

abbrev pub default_server : Text
default_server = codes "s.whatsapp.net"

unfoldable pub join_parts : Text → Option (Text × Text) → Text
join_parts raw none = raw ++ b'@' ∷ default_server
join_parts raw (some (user, server)) = before_first b':' user ++ b'@' ∷ to_lower server

unfoldable pub normalize_trimmed : Text → Text
normalize_trimmed [] = []
normalize_trimmed (c ∷ s) =
    if ltb 1 (count_of b'@' (c ∷ s)) then c ∷ s else join_parts (c ∷ s) (cut_last b'@' (c ∷ s))

-- `normalizeChatEntry`
unfoldable pub normalize_chat_entry : Text → Text
normalize_chat_entry raw = normalize_trimmed (trim_space raw)

-- `invalid_positions` only serves the log.
pub record ChatPolicy : Type 0 where
  pub restricted : Bool
  pub exact : List Text
  pub servers : List Text

abbrev pub after_cut : Text → Option (Text × Text) → Text
after_cut s none = s
after_cut s (some (before, after)) = after

unfoldable pub server_of : Text → Text
server_of s = after_cut s (cut_last b'@' s)

unfoldable pub add_cut : Text → Option (Text × Text) → ChatPolicy → ChatPolicy
add_cut n none p = record p { exact = n ∷ p.exact }
add_cut n (some (user, server)) p =
    if text_eq user (codes "*")
    then record p { servers = server ∷ p.servers }
    else record p { exact = n ∷ p.exact }

unfoldable pub add_entry : Text → ChatPolicy → ChatPolicy
add_entry [] p = p
add_entry (c ∷ s) p = add_cut (c ∷ s) (cut_last b'@' (c ∷ s)) p

unfoldable pub add_entries : List Text → ChatPolicy
add_entries [] = record { restricted = false; exact = []; servers = [] }
add_entries (item ∷ items) = add_entry (normalize_chat_entry item) (add_entries items)

abbrev pub is_any : List Text → Bool
is_any [] = false
is_any (x ∷ xs) = true

-- `parseChatPolicy`
unfoldable pub parse_chat_policy : Text → ChatPolicy
parse_chat_policy raw =
    let p = add_entries (split b',' raw) in
    record p { restricted = is_any p.exact || is_any p.servers }

unfoldable pub lists_entry : ChatPolicy → Text → Bool
lists_entry p [] = false
lists_entry p (c ∷ s) = has p.exact (c ∷ s) || has p.servers (server_of (c ∷ s))

-- `Allows`
unfoldable pub allows_chat : ChatPolicy → Text → Bool
allows_chat p target =
    if ltb 1 (count_of b'@' target)
    then false
    else if not p.restricted
    then true
    else lists_entry p (normalize_chat_entry target)

unfoldable pub allowed_entries : ChatPolicy → List Text → List Text
allowed_entries p [] = []
allowed_entries p (e ∷ es) =
    let rest = allowed_entries p es in if allows_chat p e then e ∷ rest else rest

unfoldable pub common : List Text → List Text → List Text
common ys [] = []
common ys (x ∷ xs) = let rest = common ys xs in if has ys x then x ∷ rest else rest

-- `intersectChatPolicies`
unfoldable pub intersect_chat_policies : ChatPolicy → ChatPolicy → ChatPolicy
intersect_chat_policies runtime deploy = if not deploy.restricted then runtime else record {
  restricted = true;
  exact = allowed_entries deploy runtime.exact ++ allowed_entries runtime deploy.exact;
  servers = common deploy.servers runtime.servers;
}
