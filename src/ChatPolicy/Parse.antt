-- ===== src/ChatPolicy/Parse.antt =====
-- What the text of an allow list means.
use whatsapp_mcp.Prelude.{
  Bool, true, false, not, ◌&&◌, ◌||◌, ◌≡◌, refl, ap, ◌∙◌, Option, none, some, List, [], ◌∷◌, arith,
  ltb, if◌then◌else◌,
}
use whatsapp_mcp.Prelude.Text.{Text, codes, text_eq, has, split, is_empty}
use whatsapp_mcp.ChatPolicy.{
  count_of, cut_last, normalize_chat_entry, ChatPolicy, server_of, lists_entry, allows_chat,
  add_cut, add_entry, add_entries, is_any, parse_chat_policy,
}

-- An entry names a target by its server, as a wildcard, or by the whole of it.
unfoldable pub cut_names : Option (Text × Text) → Text → Text → Bool
cut_names none e n = text_eq e n
cut_names (some (user, server)) e n =
    if text_eq user (codes "*") then text_eq server (server_of n) else text_eq e n

unfoldable pub names_chat : Text → Text → Bool
names_chat [] n = false
names_chat (c ∷ s) n = cut_names (cut_last b'@' (c ∷ s)) (c ∷ s) n

unfoldable pub some_name : List Text → Text → Bool
some_name [] n = false
some_name (item ∷ items) n = names_chat (normalize_chat_entry item) n || some_name items n

-- Whether an item is not blank.
unfoldable pub some_item : List Text → Bool
some_item [] = false
some_item (item ∷ items) = not (is_empty (normalize_chat_entry item)) || some_item items

abbrev listed : ChatPolicy → Text → Bool
listed p n = has p.exact n || has p.servers (server_of n)

listed-add_cut :
    (e : Text) (o : Option (Text × Text)) (p : ChatPolicy) (n : Text)
    → listed (add_cut e o p) n ≡ (cut_names o e n || listed p n)
unfolding add_cut cut_names has
listed-add_cut e none p n = ground arith
listed-add_cut e (some (user, server)) p n = ground arith

listed-add_entry :
    (e : Text) (p : ChatPolicy) (n : Text)
    → listed (add_entry e p) n ≡ (names_chat e n || listed p n)
unfolding add_entry names_chat
listed-add_entry [] p n = ground arith
listed-add_entry (c ∷ s) p n = listed-add_cut (c ∷ s) (cut_last b'@' (c ∷ s)) p n

listed-add_entries :
    (items : List Text) (n : Text) → listed (add_entries items) n ≡ some_name items n
unfolding add_entries some_name has
listed-add_entries [] n = refl
listed-add_entries (item ∷ items) n =
    listed-add_entry (normalize_chat_entry item) (add_entries items) n
    ∙ ap (λ b. names_chat (normalize_chat_entry item) n || b) (listed-add_entries items n)

abbrev some_set : ChatPolicy → Bool
some_set p = is_any p.exact || is_any p.servers

some_set-add_cut :
    (e : Text) (o : Option (Text × Text)) (p : ChatPolicy) → some_set (add_cut e o p) ≡ true
unfolding add_cut
some_set-add_cut e none p = refl
some_set-add_cut e (some (user, server)) p = ground arith

some_set-add_entry :
    (e : Text) (p : ChatPolicy) → some_set (add_entry e p) ≡ (not (is_empty e) || some_set p)
unfolding add_entry
some_set-add_entry [] p = refl
some_set-add_entry (c ∷ s) p = some_set-add_cut (c ∷ s) (cut_last b'@' (c ∷ s)) p

some_set-add_entries : (items : List Text) → some_set (add_entries items) ≡ some_item items
unfolding add_entries some_item
some_set-add_entries [] = refl
some_set-add_entries (item ∷ items) =
    some_set-add_entry (normalize_chat_entry item) (add_entries items)
    ∙ ap (λ b. not (is_empty (normalize_chat_entry item)) || b) (some_set-add_entries items)

lists_entry-add_entries :
    (items : List Text) (b : Bool) (n : Text)
    → lists_entry (record (add_entries items) { restricted = b }) n
      ≡ (not (is_empty n) && some_name items n)
unfolding lists_entry
lists_entry-add_entries items b [] = refl
lists_entry-add_entries items b (c ∷ s) = listed-add_entries items (c ∷ s)

-- A list with no entry allows every target with at most one `@`; any other list allows such a
-- target exactly where its normal form is not empty and is named by an entry: by a wildcard of its
-- server or by an entry with the same normal form.
allows_chat-parse :
    (raw t : Text)
    → allows_chat (parse_chat_policy raw) t ≡ (
        not (ltb 1 (count_of b'@' t))
        && (not (some_item (split b',' raw))
            || (not (is_empty (normalize_chat_entry t))
                && some_name (split b',' raw) (normalize_chat_entry t))))
unfolding allows_chat parse_chat_policy
allows_chat-parse raw t =
    let items = split b',' raw in
    ground (
      arith,
      some_set-add_entries items,
      lists_entry-add_entries items (some_set (add_entries items)) (normalize_chat_entry t),
    )
