-- ===== src/Access/Hosts/Laws.antt =====
-- Which host headers and tokens are accepted.
use whatsapp_mcp.Prelude.{
  inl, inr, Bool, true, false, ◌||◌, ◌≡◌, ◌↔◌, refl, sym, subst, Option, none, some, List, [], ◌∷◌,
  ◌++◌, arith, Bool-cases, Option-cases,
}
use whatsapp_mcp.Prelude.Text.{
  Text, codes, text_eq, text_eq_to, text_eq_refl, has, trim_space, split, to_lower, cut_prefix,
  cut_prefix-some, cut_prefix-append,
}
use whatsapp_mcp.Access.Hosts.{
  HostAllowList, build_allowed_hosts, host_entries, unbracket, host_name, is_listed, add_entry,
  add_entries, build_host_allow_list, allows_host, same_token, check_bearer_token,
}

same_token-eq :
    (rest expected : Text) → same_token expected (some rest) ≡ true → trim_space rest ≡ expected
unfolding same_token
same_token-eq rest expected h = text_eq_to (trim_space rest) expected (ground arith)

same_token_refl : (rest : Text) → same_token (trim_space rest) (some rest) ≡ true
unfolding same_token
same_token_refl rest = ground (arith, text_eq_refl (trim_space rest))

-- A request carries the right token exactly where its header is `Bearer ` and the token, with any
-- white space around the token.
pub check_bearer_token-exact :
    (header expected : Text)
    → (check_bearer_token header expected ≡ true)
      ↔ ((rest : Text) × (header ≡ codes "Bearer " ++ rest) × (trim_space rest ≡ expected))
unfolding check_bearer_token same_token
check_bearer_token-exact header expected = (
  λ h. elim (Option-cases (cut_prefix (codes "Bearer ") header)) [
    | inl e ↦ absurd (refused (subst (λ o. same_token expected o ≡ true) e h))
    | inr (rest, e) ↦ (
      rest,
      cut_prefix-some (codes "Bearer ") header rest e,
      same_token-eq rest expected (subst (λ o. same_token expected o ≡ true) e h),
    )
  ],
  λ (rest, e, t).
      subst (λ o. check_bearer_token o expected ≡ true) (sym e)
        (subst (λ o. same_token expected o ≡ true) (sym (cut_prefix-append (codes "Bearer ") rest))
          (subst (λ x. same_token x (some rest) ≡ true) t (same_token_refl rest))),
)
  where
    refused : same_token expected none ≡ true → ⊥
    refused h = ground arith

module _ (split_host_port : Text → Option Text) where
  -- An entry with a port is compared with the header, any other with the name in the header.
  abbrev pub matches : Option Text → Text → Text → Text → Bool
  matches (some host) entry header name = text_eq entry header
  matches none entry header name = text_eq (unbracket entry) name

  abbrev pub some_matches : List Text → Text → Text → Bool
  some_matches [] header name = false
  some_matches (e ∷ es) header name =
      matches (split_host_port e) e header name || some_matches es header name

  add_entries-any :
      (l : HostAllowList) (es : List Text)
      → (add_entries split_host_port l es).any ≡ (l.any || has es (codes "*"))
  unfolding add_entries add_entry has
  add_entries-any l [] = ground arith
  add_entries-any l (e ∷ es) = elim (Option-cases (split_host_port e)) [
    | inl o ↦ ground (arith, add_entries-any (add_entry split_host_port l e) es)
    | inr (host, o) ↦ ground (arith, add_entries-any (add_entry split_host_port l e) es)
  ]

  unfoldable lists : HostAllowList → Text → Text → Bool
  lists l header name = has l.exact header || has l.hosts name

  lists-add_entry :
      (l : HostAllowList) (e header name : Text)
      → lists (add_entry split_host_port l e) header name
        ≡ (matches (split_host_port e) e header name || lists l header name)
  unfolding lists add_entry has
  lists-add_entry l e header name = elim (Option-cases (split_host_port e)) [
    | inl o ↦ ground arith
    | inr (host, o) ↦ ground arith
  ]

  lists-add_entries :
      (l : HostAllowList) (es : List Text) (header name : Text)
      → has es (codes "*") ≡ false
      → lists (add_entries split_host_port l es) header name
        ≡ (lists l header name || some_matches es header name)
  unfolding add_entries has
  lists-add_entries l [] header name h = ground arith
  lists-add_entries l (e ∷ es) header name h = ground (
    arith,
    lists-add_entries (add_entry split_host_port l e) es header name,
    lists-add_entry l e header name,
  )

  -- What the allow list means: the loopback names and the entries, compared one by one.
  abbrev pub reference : Text → List Text → Text → Bool
  reference port es [] = false
  reference port es (c ∷ s) =
      has (build_allowed_hosts port) (c ∷ s)
      || some_matches es (c ∷ s) (host_name split_host_port (c ∷ s))

  is_listed-entries :
      (port : Text) (es : List Text) (h : Text) (l : HostAllowList)
      → l ≡ record { any = false; exact = build_allowed_hosts port; hosts = [] }
      → has es (codes "*") ≡ false
      → is_listed split_host_port (add_entries split_host_port l es) h ≡ reference port es h
  unfolding lists has
  is_listed-entries port es [] l h none_all = ground arith
  is_listed-entries port es (c ∷ s) l h none_all =
      ground (arith, lists-add_entries l es (c ∷ s) (host_name split_host_port (c ∷ s)) none_all)

  -- A host header is accepted exactly where the configured list has `*` or where the header, trimmed
  -- and in lower case, is not empty and is one of the three loopback names with the bridge's port,
  -- is an entry that names a port, or has the name of an entry without one.
  allows_host-reference :
      (port allowed header : Text)
      → allows_host split_host_port (build_host_allow_list split_host_port port allowed) header ≡ (
          has (host_entries (split b',' allowed)) (codes "*")
          || reference port (host_entries (split b',' allowed)) (to_lower (trim_space header)))
  unfolding allows_host build_host_allow_list
  allows_host-reference port allowed header =
      let es = host_entries (split b',' allowed) in
      let l : HostAllowList = record {
        any = false;
        exact = build_allowed_hosts port;
        hosts = [];
      } in
      elim (Bool-cases (has es (codes "*"))) [
        | inl y ↦ ground (arith, add_entries-any l es)
        | inr n ↦ ground (
          arith,
          add_entries-any l es,
          is_listed-entries port es (to_lower (trim_space header)) l refl n,
        )
      ]
