-- ===== src/Access/Hosts.antt =====
-- `hostAllowList` of whatsapp-bridge/rest_bind.go and `checkBearerToken` of whatsapp-bridge/auth.go.
-- `net.SplitHostPort` is Go's library: `split_host_port` gives the host, `none` on an error.
pub mod Laws
use whatsapp_mcp.Prelude.{
  ℕ, Bool, true, false, not, ◌&&◌, ◌||◌, Option, none, some, List, [], ◌∷◌, ◌++◌, ◌==◌,
  if◌then◌else◌, length,
}
use whatsapp_mcp.Prelude.Text.{Text, codes, text_eq, has, trim_space, split, to_lower, cut_prefix}

pub record HostAllowList : Type 0 where
  pub any : Bool
  pub exact : List Text
  pub hosts : List Text

-- The three loopback spellings; `port` is the number in decimal.
unfoldable pub build_allowed_hosts : Text → List Text
build_allowed_hosts port =
    (codes "127.0.0.1:" ++ port) ∷ (codes "localhost:" ++ port) ∷ (codes "[::1]:" ++ port) ∷ []

abbrev keep_entry : Text → List Text → List Text
keep_entry [] rest = rest
keep_entry (c ∷ s) rest = (c ∷ s) ∷ rest

unfoldable pub host_entries : List Text → List Text
host_entries [] = []
host_entries (raw ∷ raws) = keep_entry (to_lower (trim_space raw)) (host_entries raws)

abbrev drop_last : ℕ → Text → Text
drop_last c [] = []
drop_last c (x ∷ []) = if x == c then [] else x ∷ []
drop_last c (x ∷ y ∷ s) = x ∷ drop_last c (y ∷ s)

abbrev drop_first : ℕ → Text → Text
drop_first c [] = []
drop_first c (x ∷ s) = if x == c then s else x ∷ s

-- An IPv6 literal may stand in brackets.
unfoldable pub unbracket : Text → Text
unbracket s = drop_last b']' (drop_first b'[' s)

module _ (split_host_port : Text → Option Text) where
  unfoldable pub add_entry : HostAllowList → Text → HostAllowList
  add_entry l e = elim (split_host_port e) [
    | some host ↦ record l { exact = e ∷ l.exact }
    | none ↦ record l { hosts = unbracket e ∷ l.hosts }
  ]

  -- The loop stops at `*`.
  unfoldable pub add_entries : HostAllowList → List Text → HostAllowList
  add_entries l [] = l
  add_entries l (e ∷ es) =
      let rest = add_entries (add_entry l e) es in
      if text_eq e (codes "*") then record l { any = true } else rest

  unfoldable pub build_host_allow_list : Text → Text → HostAllowList
  build_host_allow_list port allowed =
      add_entries (record { any = false; exact = build_allowed_hosts port; hosts = [] })
        (host_entries (split b',' allowed))

  abbrev pub host_name : Text → Text
  host_name h = unbracket (elim (split_host_port h) [ some host ↦ host | none ↦ h ])

  abbrev pub is_listed : HostAllowList → Text → Bool
  is_listed l [] = false
  is_listed l (c ∷ s) = has l.exact (c ∷ s) || has l.hosts (host_name (c ∷ s))

  unfoldable pub allows_host : HostAllowList → Text → Bool
  allows_host l host = l.any || is_listed l (to_lower (trim_space host))

-- Equal lengths and `ConstantTimeCompare`.
unfoldable pub same_token : Text → Option Text → Bool
same_token expected none = false
same_token expected (some got) =
    length (trim_space got) == length expected && text_eq (trim_space got) expected

unfoldable pub check_bearer_token : Text → Text → Bool
check_bearer_token header expected = same_token expected (cut_prefix (codes "Bearer ") header)
