-- ===== src/Transfers.antt =====
-- `mediaTransferGroup` of whatsapp-bridge/media_inflight.go: one transfer per destination, the
-- requests that own a private download, and the count that `Shutdown` waits for. One function per
-- section under `mu`, and one for a call of `wg.Done`, which comes after `mu` is released. The count of the callers parked on a transfer, which `waiting` reads, is left
-- out.
pub mod Single
mod Examples
use whatsapp_mcp.Prelude.{
  ℕ, ◌+◌, ◌-◌, String, str_eq, Bool, true, false, not, ◌&&◌, ◌||◌, Option, none, some, List, [],
  ◌∷◌, ltb, ◌==◌, if◌then◌else◌,
}

-- `failed` stands for every other error of a transfer; `starter_limit` is mediaTransferLimitError.
pub data TransferError : Type 0 where
  abandoned context_over auto_limit : TransferError
  starter_limit : ℕ → TransferError
  failed : String → TransferError

-- `mediaTransferCall`: `call` is its identity, and `limit` 0 where its starter has none.
pub record Transfer : Type 0 where
  pub key : String
  pub call : ℕ
  pub limit : ℕ

-- What a transfer published.
pub record Finished : Type 0 where
  pub call : ℕ
  pub limit : ℕ
  pub written : ℕ
  pub error : Option TransferError

-- `active` is the count of `wg`. `ending` has no field in the code: it counts the goroutines and the
-- requests that have left their last section under `mu` and have not called `wg.Done` yet. The code
-- has a finished transfer in the hands of its callers.
pub record Group : Type 0 where
  pub inflight : List Transfer
  pub finished : List Finished
  pub active : ℕ
  pub ending : ℕ
  pub stopped : Bool
  pub requests_stopped : Bool
  pub requests : List ℕ
  pub next : ℕ

abbrev pub new_group : Group
new_group = record {
  inflight = [];
  finished = [];
  active = 0;
  ending = 0;
  stopped = false;
  requests_stopped = false;
  requests = [];
  next = 0;
}

unfoldable pub running : String → List Transfer → Option Transfer
running key [] = none
running key (t ∷ ts) = let rest = running key ts in if str_eq t.key key then some t else rest

unfoldable pub delete_key : String → List Transfer → List Transfer
delete_key key [] = []
delete_key key (t ∷ ts) = let rest = delete_key key ts in if str_eq t.key key then ts else t ∷ rest

unfoldable pub join_or_start : String → ℕ → Option Transfer → Group → ℕ × Group
join_or_start key limit (some t) g = (t.call, g)
join_or_start key limit none g = (
  g.next,
  record g {
    inflight = record { key = key; call = g.next; limit = limit } ∷ g.inflight;
    next = g.next + 1;
    active = g.active + 1;
  },
)

-- `do`, under `mu`: the transfer whose result the caller waits for, or none when the group is stopped.
unfoldable pub enter_do : String → ℕ → Group → Option ℕ × Group
enter_do key limit g = if g.stopped then (none, g) else (
  some ((join_or_start key limit (running key g.inflight) g).0),
  (join_or_start key limit (running key g.inflight) g).1,
)

unfoldable pub publish : String → ℕ → Option TransferError → Option Transfer → Group → Group
publish key written error none g = g
publish key written error (some t) g = record g {
  inflight = delete_key key g.inflight;
  finished =
      record { call = t.call; limit = t.limit; written = written; error = error } ∷ g.finished;
  ending = g.ending + 1;
}

-- The section of a goroutine that ends, before its `wg.Done`. A panic publishes `abandoned`.
unfoldable pub finish : String → ℕ → Option TransferError → Group → Group
finish key written error g = publish key written error (running key g.inflight) g

abbrev pub is_auto_limit : Option TransferError → Bool
is_auto_limit (some auto_limit) = true
is_auto_limit (some (starter_limit n)) = true
is_auto_limit _ = false

abbrev pub is_none {ℓ} : {A : Type ℓ} → Option A → Bool
is_none none = true
is_none (some a) = false

-- `result`, for a caller with this limit.
unfoldable pub result : ℕ → Finished → ℕ × Option TransferError
result limit f =
    if is_none f.error && (ltb 0 f.written && (ltb 0 limit && ltb limit f.written))
    then (f.written, some auto_limit)
    else if ltb 0 f.limit && is_auto_limit f.error
    then (f.written, some (starter_limit f.limit))
    else (f.written, f.error)

unfoldable pub stop : Group → Group
stop g = record g { stopped = true }

-- `stopRequests`: the requests that it cancels.
unfoldable pub stop_requests : Group → List ℕ × Group
stop_requests g = (g.requests, record g { requests_stopped = true })

-- `trackRequest`: the handle of the request, or none.
unfoldable pub track_request : (context_over : Bool) → Group → Option ℕ × Group
track_request over g = if g.stopped || (g.requests_stopped || over) then (none, g) else (
  some g.next,
  record g { requests = g.next ∷ g.requests; next = g.next + 1; active = g.active + 1 },
)

unfoldable pub tracks : ℕ → List ℕ → Bool
tracks r [] = false
tracks r (x ∷ xs) = (x == r) || tracks r xs

unfoldable pub untrack : ℕ → List ℕ → List ℕ
untrack r [] = []
untrack r (x ∷ xs) = let rest = untrack r xs in if x == r then xs else x ∷ rest

-- The section of the function that `trackRequest` returns, before its `wg.Done`.
unfoldable pub release : ℕ → Group → Group
release r g = record g { requests = untrack r g.requests; ending = g.ending + 1 }

-- `wg.Done`, which both call after they released `mu`.
unfoldable pub wg_done : Group → Group
wg_done g = record g { active = g.active - 1; ending = g.ending - 1 }

pub data Use : Type 0 where
  asked : String → ℕ → Use
  ended : String → ℕ → Option TransferError → Use
  tracked : Bool → Use
  released : ℕ → Use
  counted_down group_stopped requests_halted : Use

-- Every caller of `trackRequest` releases its handle once, and every end calls `wg.Done` once: a
-- release of a handle that is not held, and a `wg.Done` that nothing owes, are no uses.
unfoldable pub use_group : Use → Group → Group
use_group (asked key limit) g = (enter_do key limit g).1
use_group (ended key written error) g = finish key written error g
use_group (tracked over) g = (track_request over g).1
use_group (released r) g = if tracks r g.requests then release r g else g
use_group counted_down g = if ltb 0 g.ending then wg_done g else g
use_group group_stopped g = stop g
use_group requests_halted g = (stop_requests g).1

unfoldable pub use_all : List Use → Group → Group
use_all [] g = g
use_all (u ∷ us) g = use_all us (use_group u g)
