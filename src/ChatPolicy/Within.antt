-- ===== src/ChatPolicy/Within.antt =====
-- The runtime list within the deployment's list.
use whatsapp_mcp.Prelude.{
  true, ◌&&◌, ◌≡◌, refl, sym, ap, ◌∙◌, List, [], ◌∷◌, arith, inl, inr, Bool-cases, ltb,
}
use whatsapp_mcp.Prelude.Text.{Text, text_eq_to, has, has-append}
use whatsapp_mcp.ChatPolicy.{
  count_of, normalize_chat_entry, ChatPolicy, server_of, lists_entry, allows_chat, allowed_entries,
  common, intersect_chat_policies,
}
use whatsapp_mcp.ChatPolicy.Normal.{
  IsNormal, normalize_chat_entry-IsNormal, IsNormal-one, IsNormal-normalize_chat_entry,
}

has-allowed_entries :
    (p : ChatPolicy) (es : List Text) (n : Text)
    → has (allowed_entries p es) n ≡ (has es n && allows_chat p n)
unfolding has allowed_entries
has-allowed_entries p [] n = refl
has-allowed_entries p (e ∷ es) n = ground (arith, has-allowed_entries p es n, text_eq_to e n)

has-common : (ys xs : List Text) (n : Text) → has (common ys xs) n ≡ (has xs n && has ys n)
unfolding has common
has-common ys [] n = refl
has-common ys (x ∷ xs) n = ground (arith, has-common ys xs n, text_eq_to x n)

-- Whether both restricted lists name `n`, by the lists that the intersection puts together.
lists_entry-intersect :
    (r d : ChatPolicy) (n : Text)
    → d.restricted ≡ true
    → allows_chat r n ≡ lists_entry r n
    → allows_chat d n ≡ lists_entry d n
    → lists_entry (intersect_chat_policies r d) n ≡ (lists_entry r n && lists_entry d n)
unfolding lists_entry intersect_chat_policies
lists_entry-intersect r d [] on a b = ground arith
lists_entry-intersect r d (c ∷ s) on a b = ground (
  arith,
  has-append (allowed_entries d r.exact) (allowed_entries r d.exact) (c ∷ s),
  has-allowed_entries d r.exact (c ∷ s),
  has-allowed_entries r d.exact (c ∷ s),
  has-common d.servers r.servers (server_of (c ∷ s)),
)

allows_chat-IsNormal :
    (p : ChatPolicy) (n : Text)
    → IsNormal n
    → p.restricted ≡ true
    → allows_chat p n ≡ lists_entry p n
unfolding allows_chat
allows_chat-IsNormal p n k on =
    ground (arith, IsNormal-one n k, ap (lists_entry p) (IsNormal-normalize_chat_entry n k))

allows_chat-one :
    (p : ChatPolicy) (t : Text)
    → count_of b'@' t ≡ 1
    → p.restricted ≡ true
    → allows_chat p t ≡ lists_entry p (normalize_chat_entry t)
unfolding allows_chat
allows_chat-one p t one on = ground arith

restricted-intersect :
    (r d : ChatPolicy) → d.restricted ≡ true → (intersect_chat_policies r d).restricted ≡ true
unfolding intersect_chat_policies
restricted-intersect r d on = ground arith

allows_chat-intersect_restricted :
    (r d : ChatPolicy) (t : Text)
    → count_of b'@' t ≡ 1
    → r.restricted ≡ true
    → d.restricted ≡ true
    → allows_chat (intersect_chat_policies r d) t ≡ (allows_chat r t && allows_chat d t)
allows_chat-intersect_restricted r d t one r_on d_on =
    let n = normalize_chat_entry t in
    let k = normalize_chat_entry-IsNormal t one in
    allows_chat-one (intersect_chat_policies r d) t one (restricted-intersect r d d_on)
    ∙ (lists_entry-intersect r d n d_on (allows_chat-IsNormal r n k r_on)
          (allows_chat-IsNormal d n k d_on)
        ∙ sym (rw (allows_chat-one r t one r_on, allows_chat-one d t one d_on)))

-- A target with an `@` is allowed by the list of the settings within the deployment's list exactly
-- where each of the two allows it, where the list of the settings is a restricted one.
pub allows_chat-intersect :
    (r d : ChatPolicy) (t : Text)
    → r.restricted ≡ true
    → ltb 0 (count_of b'@' t) ≡ true
    → allows_chat (intersect_chat_policies r d) t ≡ (allows_chat r t && allows_chat d t)
unfolding allows_chat intersect_chat_policies
allows_chat-intersect r d t on at = elim (Bool-cases (ltb 1 (count_of b'@' t))) [
  | inl many ↦ ground arith
  | inr one ↦ elim (Bool-cases d.restricted) [
    | inl d_on ↦ allows_chat-intersect_restricted r d t (ground arith) on d_on
    | inr d_off ↦ ground arith
  ]
]
