-- ===== src/PendingEdits/Caps.antt =====
-- The table of pending edits stays within its caps.
use whatsapp_mcp.Prelude.{
  ℕ, ◌+◌, ◌-◌, ◌≤◌, ◌≡◌, refl, ap, subst, ◌∙◌, String, str_eq, eq_iff, Bool, true, false, not, ◌&&◌,
  ◌||◌, Option, none, some, List, [], ◌∷◌, length, arith, ltb, leb, ◌==◌, if_both, inl, inr,
  Bool-cases,
}
use whatsapp_mcp.PendingEdits.{
  Author, Edit, global_cap, chat_cap, sender_cap, same_flag, same_author, same_row, prune,
  newer_edit, has_row, update_row, place, upsert, in_chat, by_author, any_edit, count, cap_authors,
  keep_first, cap_edits, Incoming, stamp_of, max_bytes, defer_for, apply_or_defer, is_consumed,
  remove_consumed, consume, Change, edit_arrived, message_stored, change, change_all,
}

pub record IsCapped (es : List Edit) : Type 0 where
  pub in_all : length es ≤ global_cap
  pub per_chat : (c : String) → count (in_chat c) es ≤ chat_cap
  pub per_author : (c : String) (a : Author) → count (by_author c a) es ≤ sender_cap

-- Some of the rows, in their order.
data Sub : List Edit → List Edit → Type 0 where
  done : Sub [] []
  keep : {e : Edit} {xs ys : List Edit} → Sub xs ys → Sub (e ∷ xs) (e ∷ ys)
  drop : {e : Edit} {xs ys : List Edit} → Sub xs ys → Sub xs (e ∷ ys)

count-Sub : (p : Edit → Bool) {xs ys : List Edit} → Sub xs ys → count p xs ≤ count p ys
unfolding count
count-Sub p done = omega arith
count-Sub p (keep s) = ground (arith, count-Sub p s)
count-Sub p (drop s) = ground (arith, count-Sub p s)

length-Sub : {xs ys : List Edit} → Sub xs ys → length xs ≤ length ys
length-Sub done = omega arith
length-Sub (keep s) = omega (arith, length-Sub s)
length-Sub (drop s) = omega (arith, length-Sub s)

IsCapped-Sub : {xs ys : List Edit} → Sub xs ys → IsCapped ys → IsCapped xs
IsCapped-Sub s w = record {
  in_all = omega (arith, length-Sub s, w.in_all);
  per_chat = λ c. omega (arith, count-Sub (in_chat c) s, w.per_chat c);
  per_author = λ c a. omega (arith, count-Sub (by_author c a) s, w.per_author c a);
}

Sub-prune : (now : ℕ) (es : List Edit) → Sub (prune now es) es
unfolding prune
Sub-prune now [] = done
Sub-prune now (e ∷ es) =
    if_both (λ xs. Sub xs (e ∷ es)) (leb e.expires now) _ _ (λ _. drop (Sub-prune now es))
      (λ _. keep (Sub-prune now es))

Sub-remove_consumed :
    (t c : String) (a : Option String) (es : List Edit) → Sub (remove_consumed t c a es) es
unfolding remove_consumed
Sub-remove_consumed t c a [] = done
Sub-remove_consumed t c a (e ∷ es) =
    if_both (λ xs. Sub xs (e ∷ es)) (is_consumed t c a e) _ _
      (λ _. drop (Sub-remove_consumed t c a es)) (λ _. keep (Sub-remove_consumed t c a es))

Sub-keep_first : (p : Edit → Bool) (n : ℕ) (es : List Edit) → Sub (keep_first p n es) es
unfolding keep_first
Sub-keep_first p n [] = done
Sub-keep_first p n (e ∷ es) =
    if_both (λ xs. Sub xs (e ∷ es)) (not (p e)) _ _ (λ _. keep (Sub-keep_first p n es))
      (λ _.
        if_both (λ xs. Sub xs (e ∷ es)) (n == 0) _ _ (λ _. drop (Sub-keep_first p n es))
          (λ _. keep (Sub-keep_first p (n - 1) es)))

Sub-cap_authors : (c : String) (b es : List Edit) → Sub (cap_authors c b es) es
unfolding cap_authors
Sub-cap_authors c b [] = done
Sub-cap_authors c b (e ∷ es) =
    if_both (λ xs. Sub xs (e ∷ es)) (in_chat c e && leb sender_cap (count (by_author c e.author) b))
      _ _ (λ _. drop (Sub-cap_authors c (e ∷ b) es)) (λ _. keep (Sub-cap_authors c (e ∷ b) es))

count-keep_first : (p : Edit → Bool) (n : ℕ) (es : List Edit) → count p (keep_first p n es) ≤ n
unfolding count keep_first
count-keep_first p n [] = omega arith
count-keep_first p n (e ∷ es) =
    ground (arith, count-keep_first p n es, count-keep_first p (n - 1) es)

length-count : (es : List Edit) → length es ≡ count any_edit es
unfolding count
length-count [] = refl
length-count (e ∷ es) = ground (arith, length-count es)

same_flag_to : (a b : Bool) → same_flag a b ≡ true → a ≡ b
same_flag_to true true h = refl
same_flag_to true false h = cc
same_flag_to false true h = cc
same_flag_to false false h = refl

same_author_to : (a b : Author) → same_author a b ≡ true → a ≡ b
unfolding same_author
same_author_to a b h =
    let u : a.user ≡ b.user = (eq_iff a.user b.user).0 (ground arith) in
    let v : a.server ≡ b.server = (eq_iff a.server b.server).0 (ground arith) in
    let o : a.own ≡ b.own = same_flag_to a.own b.own (ground arith) in cc

count-cap_authors :
    (c : String) (a : Author) (b es : List Edit)
    → count (by_author c a) (cap_authors c b es) ≤ sender_cap - count (by_author c a) b
unfolding count cap_authors
count-cap_authors c a b [] = omega arith
count-cap_authors c a b (e ∷ es) = elim (Bool-cases (by_author c a e)) [
  | inl mine ↦
      let who : e.author ≡ a = same_author_to e.author a (ground arith) in
      let seen : count (by_author c e.author) b ≡ count (by_author c a) b =
        ap (λ x. count (by_author c x) b) who in
      ground (arith, seen, count-cap_authors c a (e ∷ b) es)
  | inr other ↦ ground (arith, count-cap_authors c a (e ∷ b) es)
]

count-place :
    (p : Edit → Bool) (new : Edit) (es : List Edit)
    → count p (place new es) ≡ count p es + count p (new ∷ [])
unfolding count place
count-place p new [] = ground arith
count-place p new (e ∷ es) = ground (arith, count-place p new es)

-- A test that a row of the same key passes alike.
count-update_row :
    (p : Edit → Bool) (new : Edit) (es : List Edit)
    → ((e : Edit) → p (newer_edit new e) ≡ p e)
    → count p (update_row new es) ≡ count p es
unfolding count update_row
count-update_row p new [] h = refl
count-update_row p new (e ∷ es) h = elim (Bool-cases (same_row e new)) [
  | inl hit ↦ ground (arith, h e)
  | inr miss ↦ ground (arith, count-update_row p new es h)
]

newer_edit_key :
    (new e : Edit) → ((newer_edit new e).chat ≡ e.chat) × ((newer_edit new e).author ≡ e.author)
unfolding newer_edit
newer_edit_key new e =
    if_both (λ (x : Edit). (x.chat ≡ e.chat) × (x.author ≡ e.author)) (ltb e.stamp new.stamp) _ _
      (λ _. (refl, refl)) (λ _. (refl, refl))

in_chat-newer_edit : (c : String) (new e : Edit) → in_chat c (newer_edit new e) ≡ in_chat c e
in_chat-newer_edit c new e = ap (λ x. str_eq x c) (newer_edit_key new e).0

by_author-newer_edit :
    (c : String) (a : Author) (new e : Edit) → by_author c a (newer_edit new e) ≡ by_author c a e
by_author-newer_edit c a new e = rw ((newer_edit_key new e).0, (newer_edit_key new e).1)

count-upsert :
    (p : Edit → Bool) (new : Edit) (es : List Edit)
    → ((e : Edit) → p (newer_edit new e) ≡ p e)
    → count p (upsert new es) ≤ count p es + count p (new ∷ [])
unfolding upsert
count-upsert p new es h =
    if_both (λ xs. count p xs ≤ count p es + count p (new ∷ [])) (has_row new es) _ _
      (λ _. omega (arith, count-update_row p new es h)) (λ _. omega (arith, count-place p new es))

-- A row of another chat leaves the counts of a chat as they are.
count-other :
    (p : Edit → Bool) (new : Edit) (es : List Edit)
    → ((e : Edit) → p (newer_edit new e) ≡ p e)
    → p new ≡ false
    → count p (upsert new es) ≤ count p es
unfolding count
count-other p new es h miss = ground (arith, count-upsert p new es h)

Sub-trans : {xs ys zs : List Edit} → Sub xs ys → Sub ys zs → Sub xs zs
Sub-trans done t = t
Sub-trans s (drop t) = drop (Sub-trans s t)
Sub-trans (keep s) (keep t) = keep (Sub-trans s t)
Sub-trans (drop s) (keep t) = drop (Sub-trans s t)

Sub-capped : (c : String) (us : List Edit) → Sub (cap_edits c us) (cap_authors c [] us)
unfolding cap_edits
Sub-capped c us =
    Sub-trans
      (Sub-keep_first any_edit global_cap (keep_first (in_chat c) chat_cap (cap_authors c [] us)))
      (Sub-keep_first (in_chat c) chat_cap (cap_authors c [] us))

Sub-cap_edits : (c : String) (us : List Edit) → Sub (cap_edits c us) us
Sub-cap_edits c us = Sub-trans (Sub-capped c us) (Sub-cap_authors c [] us)

length-cap : (c : String) (us : List Edit) → length (cap_edits c us) ≤ global_cap
unfolding cap_edits
length-cap c us =
    let ks = keep_first (in_chat c) chat_cap (cap_authors c [] us) in
    omega (
      arith,
      length-count (keep_first any_edit global_cap ks),
      count-keep_first any_edit global_cap ks,
    )

elsewhere : (d : String) (a : Author) (e : Edit) → str_eq e.chat d ≡ false → by_author d a e ≡ false
elsewhere d a e h = ground arith

per_chat-cap :
    (c d : String) (new : Edit) (es : List Edit)
    → new.chat ≡ c
    → IsCapped es
    → count (in_chat d) (cap_edits c (upsert new es)) ≤ chat_cap
unfolding cap_edits
per_chat-cap c d new es own w =
    let us = upsert new es in
    let ks = keep_first (in_chat c) chat_cap (cap_authors c [] us) in
    elim (Bool-cases (str_eq c d)) [
      | inl here ↦
          subst (λ x. count (in_chat x) (keep_first any_edit global_cap ks) ≤ chat_cap)
            ((eq_iff c d).0 here)
            (omega (
              arith,
              count-Sub (in_chat c) (Sub-keep_first any_edit global_cap ks),
              count-keep_first (in_chat c) chat_cap (cap_authors c [] us),
            ))
      | inr away ↦ omega (
        arith,
        count-Sub (in_chat d) (Sub-cap_edits c us),
        w.per_chat d,
        count-other (in_chat d) new es (in_chat-newer_edit d new) (ap (λ x. str_eq x d) own ∙ away),
      )
    ]

no_rows :
    (c : String) (a : Author) (us : List Edit)
    → count (by_author c a) (cap_authors c [] us) ≤ sender_cap
unfolding count
no_rows c a us = count-cap_authors c a [] us

per_author-cap :
    (c d : String) (a : Author) (new : Edit) (es : List Edit)
    → new.chat ≡ c
    → IsCapped es
    → count (by_author d a) (cap_edits c (upsert new es)) ≤ sender_cap
per_author-cap c d a new es own w =
    let us = upsert new es in
    elim (Bool-cases (str_eq c d)) [
      | inl here ↦
          subst (λ x. count (by_author x a) (cap_edits c us) ≤ sender_cap) ((eq_iff c d).0 here)
            (omega (arith, count-Sub (by_author c a) (Sub-capped c us), no_rows c a us))
      | inr away ↦ omega (
        arith,
        count-Sub (by_author d a) (Sub-cap_edits c us),
        w.per_author d a,
        count-other (by_author d a) new es (by_author-newer_edit d a new)
            (elsewhere d a new (ap (λ x. str_eq x d) own ∙ away)),
      )
    ]

cap_edits-IsCapped :
    (c : String) (new : Edit) (es : List Edit)
    → new.chat ≡ c
    → IsCapped es
    → IsCapped (cap_edits c (upsert new es))
cap_edits-IsCapped c new es own w = record {
  in_all = length-cap c (upsert new es);
  per_chat = λ d. per_chat-cap c d new es own w;
  per_author = λ d a. per_author-cap c d a new es own w;
}

defer_for-IsCapped :
    (now : ℕ) (i : Incoming) (o : Option Author) (es : List Edit)
    → IsCapped es
    → IsCapped (defer_for now i o es)
unfolding defer_for
defer_for-IsCapped now i none es w = w
defer_for-IsCapped now i (some a) es w =
    if_both IsCapped (stamp_of i == 0 || ltb max_bytes i.bytes) _ _ (λ _. w)
      (λ _. cap_edits-IsCapped i.chat _ es refl w)

change-IsCapped : (c : Change) (es : List Edit) → IsCapped es → IsCapped (change c es)
unfolding change apply_or_defer consume
change-IsCapped (edit_arrived now i) es w =
    let v = IsCapped-Sub (Sub-prune now es) w in
    if_both IsCapped (not i.complete) _ _ (λ _. w)
      (λ _.
        if_both IsCapped i.stored _ _ (λ _. v)
          (λ _. defer_for-IsCapped now i i.author (prune now es) v))
change-IsCapped (message_stored now t c a) es w =
    IsCapped-Sub (Sub-remove_consumed t c a (prune now es)) (IsCapped-Sub (Sub-prune now es) w)

changes-IsCapped : (cs : List Change) (es : List Edit) → IsCapped es → IsCapped (change_all cs es)
unfolding change_all
changes-IsCapped [] es w = w
changes-IsCapped (c ∷ cs) es w = changes-IsCapped cs (change c es) (change-IsCapped c es w)

-- After every run of arrivals and of stored messages on an empty table, it holds at most 1024 edits,
-- at most 128 of each chat, and in each chat at most 32 of each author.
pub IsCapped-change_all : (cs : List Change) → IsCapped (change_all cs [])
unfolding count
IsCapped-change_all cs =
    changes-IsCapped cs [] (record {
      in_all = omega arith;
      per_chat = λ c. omega arith;
      per_author = λ c a. omega arith;
    })
