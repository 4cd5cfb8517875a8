-- ===== src/MarkRead/Whole.antt =====
-- A page that nothing stops is read as a whole.
use whatsapp_mcp.Prelude.{
  ℕ, zero, suc, ◌-◌, ◌≤◌, ◌≡◌, refl, sym, ap, subst, ◌∙◌, String, str_eq, eq_refl, Bool, true,
  false, not, ◌&&◌, ◌||◌, none, List, [], ◌∷◌, length, contains, if_both, arith,
}
use whatsapp_mcp.MarkRead.{
  Unread, SenderBatch, Progress, take, drop, slices, send_slice, send_slices, send_group,
  send_groups, group_by_sender, acknowledge, covered_prefix, cut_back, mark_whole_chat,
}
use whatsapp_mcp.MarkRead.Prefix.{all_acked, leading-all}
use whatsapp_mcp.MarkRead.Senders.{sent_by, unaddressed, ids_of, group_by_sender-splits}
use whatsapp_mcp.MarkRead.Receipts.{contains-append}

unfoldable any_chunk : String → List (List String) → Bool
any_chunk id [] = false
any_chunk id (x ∷ xs) = contains x id || any_chunk id xs

unfoldable any_group : String → List SenderBatch → Bool
any_group id [] = false
any_group id (g ∷ gs) = contains g.ids id || any_group id gs

contains-take :
    (n : ℕ) (xs : List String) (id : String)
    → contains xs id ≡ (contains (take n xs) id || contains (drop n xs) id)
unfolding contains take drop
contains-take n [] id = refl
contains-take zero (x ∷ xs) id = refl
contains-take (suc n) (x ∷ xs) id = ground (arith, contains-take n xs id)

length-drop : (n : ℕ) (xs : List String) → length (drop n xs) ≤ length xs - n
unfolding drop
length-drop n [] = omega arith
length-drop zero (x ∷ xs) = omega arith
length-drop (suc n) (x ∷ xs) = omega (arith, length-drop n xs)

any_chunk-slices :
    (fuel : ℕ) (ids : List String) (id : String)
    → length ids ≤ fuel
    → any_chunk id (slices fuel ids) ≡ contains ids id
unfolding any_chunk slices contains
any_chunk-slices zero [] id h = refl
any_chunk-slices zero (x ∷ xs) id h = ground (arith, h)
any_chunk-slices (suc fuel) [] id h = refl
any_chunk-slices (suc fuel) (x ∷ xs) id h =
    let rest : any_chunk id (slices fuel (drop 100 (x ∷ xs))) ≡ contains (drop 100 (x ∷ xs)) id =
      any_chunk-slices fuel (drop 100 (x ∷ xs)) id (omega (arith, h, length-drop 100 (x ∷ xs))) in
    ap (λ b. contains (take 100 (x ∷ xs)) id || b) rest ∙ sym (contains-take 100 (x ∷ xs) id)

-- Nothing stopped the run, and whether the message is acknowledged.
record IsOpen (id : String) (b : Bool) (p : Progress) : Type 0 where
  open_budget : p.refused ≡ false
  open_line : p.fatal ≡ false
  told : contains p.acked id ≡ b

module _ (allows sends : ℕ → Bool) (resolves : String → Bool) (allowed : (k : ℕ) → allows k ≡ true)
    (sent : (k : ℕ) → sends k ≡ true) (resolved : (s : String) → resolves s ≡ true)
    (id : String) where
  send_slice-IsOpen :
      (sender : String) (ids : List String) (b : Bool) (p : Progress)
      → IsOpen id b p
      → IsOpen id (b || contains ids id) (send_slice allows sends resolves sender ids p)
  unfolding send_slice
  send_slice-IsOpen sender ids b p w = record {
    open_budget = ground (arith, w.open_budget, allowed p.asked, sent p.asked);
    open_line = ground (arith, w.open_line, allowed p.asked, sent p.asked);
    told = ground (arith, w.told, allowed p.asked, sent p.asked, contains-append p.acked ids id);
  }

  send_slices-IsOpen :
      (sender : String) (chunks : List (List String)) (b : Bool) (p : Progress)
      → IsOpen id b p
      → IsOpen id (b || any_chunk id chunks) (send_slices allows sends resolves sender chunks p)
  unfolding send_slices any_chunk
  send_slices-IsOpen sender [] b p w = record {
    open_budget = w.open_budget;
    open_line = w.open_line;
    told = ground (arith, w.told);
  }
  send_slices-IsOpen sender (ids ∷ rest) b p w =
      if_both (IsOpen id (b || any_chunk id (ids ∷ rest))) (p.refused || p.fatal) _ _
        (λ h. ground (arith, h, w.open_budget, w.open_line))
        (λ _.
          subst
            (λ x. IsOpen id x (
              send_slices allows sends resolves sender rest
                (send_slice allows sends resolves sender ids p)))
            (ground arith)
            (send_slices-IsOpen sender rest (b || contains ids id) _
              (send_slice-IsOpen sender ids b p w)))

  send_groups-IsOpen :
      (gs : List SenderBatch) (b : Bool) (p : Progress)
      → IsOpen id b p
      → IsOpen id (b || any_group id gs) (send_groups allows sends resolves gs p)
  unfolding send_groups send_group any_group
  send_groups-IsOpen [] b p w = record {
    open_budget = w.open_budget;
    open_line = w.open_line;
    told = ground (arith, w.told);
  }
  send_groups-IsOpen (g ∷ gs) b p w =
      if_both (IsOpen id (b || any_group id (g ∷ gs))) (p.refused || p.fatal) _ _
        (λ h. ground (arith, h, w.open_budget, w.open_line))
        (λ _.
          if_both
            (λ q. IsOpen id (b || any_group id (g ∷ gs)) (send_groups allows sends resolves gs q))
            (not (str_eq g.sender "") && not (resolves g.sender)) _ _
            (λ h. ground (arith, h, resolved g.sender))
            (λ _.
              let chunks = slices (length g.ids) g.ids in
              let q = send_slices allows sends resolves g.sender chunks p in
              let every : any_chunk id chunks ≡ contains g.ids id =
                any_chunk-slices (length g.ids) g.ids id (omega arith) in
              subst (λ x. IsOpen id x (send_groups allows sends resolves gs q))
                (ground (arith, every))
                (send_groups-IsOpen gs (b || any_chunk id chunks) q
                  (send_slices-IsOpen g.sender chunks b p w))))

any_group-ids_of :
    (sender id : String) (gs : List SenderBatch)
    → contains (ids_of sender gs) id ≡ true
    → any_group id gs ≡ true
unfolding any_group ids_of contains
any_group-ids_of sender id [] h = ground arith
any_group-ids_of sender id (g ∷ gs) h =
    ground (arith, contains-append g.ids (ids_of sender gs) id, any_group-ids_of sender id gs)

all_acked_lem :
    (chat_user : String) (acked : List String) (ms : List Unread)
    → ((id sender : String)
        → (contains (unaddressed chat_user ms) id || contains (sent_by chat_user sender ms) id)
          ≡ true
        → contains acked id ≡ true)
    → all_acked acked ms ≡ true
unfolding unaddressed sent_by contains
all_acked_lem chat_user acked [] h = refl
all_acked_lem chat_user acked (m ∷ ms) h =
    let this : contains acked m.id ≡ true =
      h m.id m.sender (ground (arith, eq_refl m.id, eq_refl m.sender)) in
    let others : all_acked acked ms ≡ true =
      all_acked_lem chat_user acked ms (λ id sender known. h id sender (ground (arith, known))) in
    ground (arith, this, others)

start-IsOpen :
    (lost : List String) (id : String)
    → IsOpen id (contains lost id) (record {
      acked = lost;
      receipts = [];
      asked = 0;
      refused = false;
      fatal = false;
      failure = false;
    })
start-IsOpen lost id = record { open_budget = refl; open_line = refl; told = refl }

-- For a chat of several users with a row on the page and none over the cap, where the send budget, the
-- connection and the resolving of senders refuse nothing: the marker covers the whole page.
pub mark_whole_chat-covers :
    (allows sends : ℕ → Bool) (resolves : String → Bool) (chat_user : String)
    (pending : List Unread)
    → ((k : ℕ) → allows k ≡ true)
    → ((k : ℕ) → sends k ≡ true)
    → ((s : String) → resolves s ≡ true)
    → mark_whole_chat allows sends resolves false chat_user pending none ≡ length pending
unfolding mark_whole_chat covered_prefix cut_back acknowledge
mark_whole_chat-covers allows sends resolves chat_user pending allowed sent resolved =
    let acked = (acknowledge allows sends resolves false chat_user pending).acked in
    let grouped = group_by_sender false chat_user pending in
    let known : (id sender : String)
        → (contains (unaddressed chat_user pending) id
            || contains (sent_by chat_user sender pending) id)
          ≡ true
        → contains acked id ≡ true =
      λ id sender h.
        let w =
          send_groups-IsOpen allows sends resolves allowed sent resolved id (grouped.0) _ _
            (start-IsOpen (grouped.1) id) in
        let split = group_by_sender-splits chat_user sender pending in
        let lost : contains (grouped.1) id ≡ contains (unaddressed chat_user pending) id =
          ap (λ l. contains l id) ((split.1).1) in
        let mine : contains (ids_of sender (grouped.0)) id
            ≡ contains (sent_by chat_user sender pending) id =
          ap (λ l. contains l id) ((split.1).0) in
        w.told ∙ ground (arith, h, lost, mine, any_group-ids_of sender id (grouped.0)) in
    let all : all_acked acked pending ≡ true = all_acked_lem chat_user acked pending known in
    ground (arith, leading-all acked pending all)
