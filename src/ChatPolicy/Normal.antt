-- ===== src/ChatPolicy/Normal.antt =====
-- The normal form of a chat entry.
use whatsapp_mcp.Prelude.{
  ℕ, ◌+◌, true, false, not, ◌&&◌, ◌≡◌, refl, sym, ap, subst, ◌∙◌, none, some, [], ◌∷◌, ◌++◌, arith,
  inl, inr, Bool-cases, ◌==◌, if◌then◌else◌,
}
use whatsapp_mcp.Prelude.Text.{
  Text, is_space, trim_left, trim_right, trim_space, lower, to_lower, is_empty,
}
use whatsapp_mcp.Prelude.Trim.{
  starts_well, ends_well, starts_well-trim_space, ends_well-trim_space, trim_space_lem,
  to_lower-to_lower, ends_well-to_lower, ends_well-append,
}
use whatsapp_mcp.ChatPolicy.{
  count_of, cut_next, cut_last, before_first, join_parts, normalize_trimmed, normalize_chat_entry,
}

count_of-append : (c : ℕ) (s t : Text) → count_of c (s ++ t) ≡ count_of c s + count_of c t
unfolding count_of
count_of-append c [] t = ground arith
count_of-append c (x ∷ s) t = ground (arith, count_of-append c s t)

count_of-lower : (x : ℕ) → (lower x == b'@') ≡ (x == b'@')
unfolding lower
count_of-lower x = ground arith

count_of-to_lower : (s : Text) → count_of b'@' (to_lower s) ≡ count_of b'@' s
unfolding count_of to_lower
count_of-to_lower [] = refl
count_of-to_lower (x ∷ s) = ground (arith, count_of-lower x, count_of-to_lower s)

count_of-before_first : (s : Text) → count_of b'@' s ≡ 0 → count_of b'@' (before_first b':' s) ≡ 0
unfolding count_of before_first
count_of-before_first [] h = refl
count_of-before_first (x ∷ s) h = ground (arith, count_of-before_first s)

space_at : is_space b'@' ≡ false
unfolding is_space
space_at = refl

space_not_at : (x : ℕ) → is_space x ≡ true → (x == b'@') ≡ false
unfolding is_space
space_not_at x h = ground arith

count_of-trim_left : (s : Text) → count_of b'@' (trim_left s) ≡ count_of b'@' s
unfolding count_of trim_left
count_of-trim_left [] = refl
count_of-trim_left (x ∷ s) = ground (arith, count_of-trim_left s, space_not_at x)

count_of-kept :
    (x : ℕ) (rest : Text)
    → count_of b'@' (if is_empty rest && is_space x then [] else x ∷ rest)
      ≡ (if x == b'@' then count_of b'@' rest + 1 else count_of b'@' rest)
unfolding count_of
count_of-kept x [] = ground (arith, space_not_at x)
count_of-kept x (d ∷ s) = refl

count_of-trim_right : (s : Text) → count_of b'@' (trim_right s) ≡ count_of b'@' s
unfolding count_of trim_right
count_of-trim_right [] = refl
count_of-trim_right (x ∷ s) = count_of-kept x (trim_right s) ∙ ground (arith, count_of-trim_right s)

pub count_of-trim_space : (s : Text) → count_of b'@' (trim_space s) ≡ count_of b'@' s
unfolding trim_space
count_of-trim_space s = count_of-trim_right (trim_left s) ∙ count_of-trim_left s

cut_last-none : (c : ℕ) (s : Text) → count_of c s ≡ 0 → cut_last c s ≡ none
unfolding count_of cut_last cut_next
cut_last-none c [] h = refl
cut_last-none c (x ∷ s) h = ground (arith, cut_last-none c s)

-- With one `c`, the cut is the only one there is.
cut_last-append : (c : ℕ) (u s : Text) → count_of c s ≡ 0 → cut_last c (u ++ c ∷ s) ≡ some (u, s)
unfolding cut_last cut_next
cut_last-append c [] s h = ground (arith, cut_last-none c s h)
cut_last-append c (x ∷ u) s h = ap (cut_next c x (u ++ c ∷ s)) (cut_last-append c u s h)

before_first-before_first :
    (c : ℕ) (s : Text) → before_first c (before_first c s) ≡ before_first c s
unfolding before_first
before_first-before_first c [] = refl
before_first-before_first c (x ∷ s) = ground (arith, before_first-before_first c s)

-- A text with one `@`, in its two parts.
abbrev pub Parts : Text → Type 0
Parts t =
    (u : Text) × (s : Text) × (t ≡ u ++ b'@' ∷ s) × (count_of b'@' u ≡ 0) × (count_of b'@' s ≡ 0)

parts : (t : Text) → count_of b'@' t ≡ 1 → Parts t
unfolding count_of
parts [] h = ground arith
parts (x ∷ t) h = elim (Bool-cases (x == b'@')) [
  | inl e ↦ ([], t, ap (λ y. y ∷ t) (ground arith), refl, ground arith)
  | inr n ↦
      let (u, s, e, a, b) = parts t (ground arith) in (x ∷ u, s, ap (λ y. x ∷ y) e, ground arith, b)
]

-- A full identifier that normalising leaves as it is.
pub record IsNormal (n : Text) : Type 0 where
  pub user : Text
  pub server : Text
  pub shape : n ≡ user ++ b'@' ∷ server
  pub bare : before_first b':' user ≡ user
  pub lowered : to_lower server ≡ server
  pub plain_user : count_of b'@' user ≡ 0
  pub plain_server : count_of b'@' server ≡ 0
  pub starts : starts_well n ≡ true
  pub ends : ends_well n ≡ true

starts_well-before_first :
    (u s s' : Text)
    → starts_well (u ++ b'@' ∷ s) ≡ true
    → starts_well (before_first b':' u ++ b'@' ∷ s') ≡ true
unfolding starts_well before_first
starts_well-before_first [] s s' h = h
starts_well-before_first (x ∷ u) s s' h = elim (Bool-cases (x == b':')) [
  | inl e ↦
      subst (λ b. starts_well ((if b then [] else x ∷ before_first b':' u) ++ b'@' ∷ s') ≡ true)
        (sym e) (ap not space_at)
  | inr n ↦
      subst (λ b. starts_well ((if b then [] else x ∷ before_first b':' u) ++ b'@' ∷ s') ≡ true)
        (sym n) h
]

normalize_trimmed-one :
    (t : Text) → count_of b'@' t ≡ 1 → normalize_trimmed t ≡ join_parts t (cut_last b'@' t)
unfolding normalize_trimmed count_of
normalize_trimmed-one [] h = ground arith
normalize_trimmed-one (x ∷ t) h = ground arith

IsNormal-join_parts :
    (u s : Text)
    → count_of b'@' u ≡ 0
    → count_of b'@' s ≡ 0
    → starts_well (u ++ b'@' ∷ s) ≡ true
    → ends_well (u ++ b'@' ∷ s) ≡ true
    → IsNormal (before_first b':' u ++ b'@' ∷ to_lower s)
IsNormal-join_parts u s a b st en = record {
  user = before_first b':' u;
  server = to_lower s;
  shape = refl;
  bare = before_first-before_first b':' u;
  lowered = to_lower-to_lower s;
  plain_user = count_of-before_first u a;
  plain_server = count_of-to_lower s ∙ b;
  starts = starts_well-before_first u s (to_lower s) st;
  ends =
      ends_well-append (before_first b':' u) b'@' (to_lower s)
      ∙ (ends_well-to_lower b'@' s ∙ (sym (ends_well-append u b'@' s) ∙ en));
}

join_parts-some :
    (t u s : Text) → join_parts t (some (u, s)) ≡ before_first b':' u ++ b'@' ∷ to_lower s
unfolding join_parts
join_parts-some t u s = refl

pub normalize_chat_entry-IsNormal :
    (r : Text) → count_of b'@' r ≡ 1 → IsNormal (normalize_chat_entry r)
unfolding normalize_chat_entry
normalize_chat_entry-IsNormal r h =
    let one = count_of-trim_space r ∙ h in
    let (u, s, e, a, b) = parts (trim_space r) one in
    subst IsNormal
      (sym (
        normalize_trimmed-one (trim_space r) one
        ∙ (ap (join_parts (trim_space r)) (ap (cut_last b'@') e ∙ cut_last-append b'@' u s b)
            ∙ join_parts-some (trim_space r) u s)))
      (IsNormal-join_parts u s a b (subst (λ t. starts_well t ≡ true) e (starts_well-trim_space r))
        (subst (λ t. ends_well t ≡ true) e (ends_well-trim_space r)))

pub IsNormal-one : (n : Text) → IsNormal n → count_of b'@' n ≡ 1
unfolding count_of
IsNormal-one n k =
    ap (count_of b'@') k.shape ∙ (count_of-append b'@' k.user (b'@' ∷ k.server) ∙ ground arith)

pub IsNormal-normalize_chat_entry : (n : Text) → IsNormal n → normalize_chat_entry n ≡ n
unfolding normalize_chat_entry
IsNormal-normalize_chat_entry n k =
    ap normalize_trimmed (trim_space_lem n k.starts k.ends)
    ∙ (normalize_trimmed-one n (IsNormal-one n k)
        ∙ (ap (join_parts n)
              (ap (cut_last b'@') k.shape ∙ cut_last-append b'@' k.user k.server k.plain_server)
            ∙ (join_parts-some n k.user k.server
                ∙ (ap (λ u. u ++ b'@' ∷ to_lower k.server) k.bare
                    ∙ (ap (λ s. k.user ++ b'@' ∷ s) k.lowered ∙ sym k.shape)))))
