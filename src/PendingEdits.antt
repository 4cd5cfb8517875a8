-- ===== src/PendingEdits.antt =====
-- The table `pending_edits` of whatsapp-bridge/pending_edits.go: edits that arrive before their
-- message. Its rows stand in the order `arrived_ms DESC, rowid DESC` in which the statements read
-- them; a new row has the greatest rowid. Times are milliseconds, with 0 for those that are not
-- positive. Statements that fail are outside the model.
pub mod Caps
mod Examples
use whatsapp_mcp.Prelude.{
  ℕ, ◌+◌, ◌-◌, String, str_eq, Bool, true, false, not, ◌&&◌, ◌||◌, Option, none, some, List, [],
  ◌∷◌, ltb, leb, ◌==◌, if◌then◌else◌,
}

pub record Author : Type 0 where
  pub user : String
  pub server : String
  pub own : Bool

pub record Edit : Type 0 where
  pub chat : String
  pub target : String
  pub author : Author
  pub stamp : ℕ
  pub content : String
  pub mentions : String
  pub arrived : ℕ
  pub expires : ℕ

abbrev pub ttl : ℕ
ttl = 86400000

abbrev pub global_cap : ℕ
global_cap = 1024

abbrev pub chat_cap : ℕ
chat_cap = 128

abbrev pub sender_cap : ℕ
sender_cap = 32

abbrev pub max_bytes : ℕ
max_bytes = 65536

abbrev pub same_flag : Bool → Bool → Bool
same_flag true b = b
same_flag false b = not b

unfoldable pub same_author : Author → Author → Bool
same_author a b = str_eq a.user b.user && (str_eq a.server b.server && same_flag a.own b.own)

unfoldable pub same_row : Edit → Edit → Bool
same_row a b = str_eq a.chat b.chat && (str_eq a.target b.target && same_author a.author b.author)

unfoldable pub prune : ℕ → List Edit → List Edit
prune now [] = []
prune now (e ∷ es) = let rest = prune now es in if leb e.expires now then rest else e ∷ rest

-- The row after `DO UPDATE ... WHERE excluded.edit_timestamp > pending_edits.edit_timestamp`.
unfoldable pub newer_edit : Edit → Edit → Edit
newer_edit new old =
    if ltb old.stamp new.stamp
    then record old { stamp = new.stamp; content = new.content; mentions = new.mentions }
    else old

unfoldable pub has_row : Edit → List Edit → Bool
has_row new [] = false
has_row new (e ∷ es) = same_row e new || has_row new es

unfoldable pub update_row : Edit → List Edit → List Edit
update_row new [] = []
update_row new (e ∷ es) =
    let rest = update_row new es in if same_row e new then newer_edit new e ∷ es else e ∷ rest

unfoldable pub place : Edit → List Edit → List Edit
place new [] = new ∷ []
place new (e ∷ es) =
    let rest = place new es in if leb e.arrived new.arrived then new ∷ e ∷ es else e ∷ rest

unfoldable pub upsert : Edit → List Edit → List Edit
upsert new es = if has_row new es then update_row new es else place new es

abbrev pub in_chat : String → Edit → Bool
in_chat chat e = str_eq e.chat chat

abbrev pub by_author : String → Author → Edit → Bool
by_author chat a e = in_chat chat e && same_author e.author a

abbrev pub any_edit : Edit → Bool
any_edit e = true

unfoldable pub count : (Edit → Bool) → List Edit → ℕ
count test [] = 0
count test (e ∷ es) = let rest = count test es in if test e then rest + 1 else rest

-- The first statement of `capPendingEdits`; `before` are the rows of an earlier position.
unfoldable pub cap_authors : String → List Edit → List Edit → List Edit
unfolding count
cap_authors chat before [] = []
cap_authors chat before (e ∷ es) =
    let rest = cap_authors chat (e ∷ before) es in
    if in_chat chat e && leb sender_cap (count (by_author chat e.author) before)
    then rest
    else e ∷ rest

-- `LIMIT -1 OFFSET n` among the rows that pass a test.
unfoldable pub keep_first : (Edit → Bool) → ℕ → List Edit → List Edit
keep_first test n [] = []
keep_first test n (e ∷ es) =
    let fewer = keep_first test (n - 1) es in
    let same = keep_first test n es in
    if not (test e) then e ∷ same else if n == 0 then same else e ∷ fewer

-- `capPendingEdits`
unfoldable pub cap_edits : String → List Edit → List Edit
cap_edits chat es =
    keep_first any_edit global_cap (keep_first (in_chat chat) chat_cap (cap_authors chat [] es))

-- What `applyOrDeferMessageEdit` reads of an edit: whether its key, its chat and its message are
-- there; whether the target is stored; the author that `pendingEditUserJID` makes of the sender; the
-- protocol's time and the fallback; and the bytes of all its texts.
pub record Incoming : Type 0 where
  pub complete : Bool
  pub stored : Bool
  pub chat : String
  pub target : String
  pub author : Option Author
  pub stamp : ℕ
  pub fallback : ℕ
  pub content : String
  pub mentions : String
  pub bytes : ℕ

abbrev pub stamp_of : Incoming → ℕ
stamp_of i = if i.stamp == 0 then i.fallback else i.stamp

unfoldable pub defer_for : ℕ → Incoming → Option Author → List Edit → List Edit
defer_for now i none es = es
defer_for now i (some a) es =
    if stamp_of i == 0 || ltb max_bytes i.bytes
    then es
    else cap_edits i.chat (
        upsert
          (record {
            chat = i.chat;
            target = i.target;
            author = a;
            stamp = stamp_of i;
            content = i.content;
            mentions = i.mentions;
            arrived = now;
            expires = now + ttl;
          })
          es)

-- `applyOrDeferMessageEdit`: what it leaves in the table.
unfoldable pub apply_or_defer : ℕ → Incoming → List Edit → List Edit
apply_or_defer now i es =
    if not i.complete
    then es
    else if i.stored
    then prune now es
    else defer_for now i i.author (prune now es)

-- The last statement of `consumePendingEdits`; the alias is none where it is empty.
unfoldable pub is_consumed : String → String → Option String → Edit → Bool
is_consumed target chat alias e =
    str_eq e.target target
    && (in_chat chat e || elim alias [ none ↦ false | some other ↦ in_chat other e ])

unfoldable pub remove_consumed : String → String → Option String → List Edit → List Edit
remove_consumed target chat alias [] = []
remove_consumed target chat alias (e ∷ es) =
    let rest = remove_consumed target chat alias es in
    if is_consumed target chat alias e then rest else e ∷ rest

-- `consumePendingEdits`: what it leaves in the table.
unfoldable pub consume : ℕ → String → String → Option String → List Edit → List Edit
consume now target chat alias es = remove_consumed target chat alias (prune now es)

pub data Change : Type 0 where
  edit_arrived : ℕ → Incoming → Change
  message_stored : ℕ → String → String → Option String → Change

unfoldable pub change : Change → List Edit → List Edit
change (edit_arrived now i) es = apply_or_defer now i es
change (message_stored now target chat alias) es = consume now target chat alias es

unfoldable pub change_all : List Change → List Edit → List Edit
change_all [] es = es
change_all (c ∷ cs) es = change_all cs (change c es)
