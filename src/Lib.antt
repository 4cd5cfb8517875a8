-- ===== src/Lib.antt =====
-- The WhatsApp bridge (whatsapp-bridge/, Go): a daemon that holds one linked WhatsApp session through
-- the whatsmeow library and offers it to an MCP server over a local REST API. A request passes the
-- guards of the API, its chat is tested against the allow list, a send reserves its budget, and a
-- connection that the servers refuse stops the daemon from dialling again.
--
-- The modules and the code they are about:
--   Prelude     Shared names, Boolean tests, lists and signed integers over the native numbers, and
--               texts as lists of code points with the functions of Go's `strings` in use.
--   SendLimits  whatsapp-bridge/send_limits.go. State: the row of `send_usage` and the tables around it
--               (`readSendState`). Reserve: `reserveSend`, the loop over the targets, the limits in
--               their order, the two outcomes that are written. Release: `releaseSend`. Allow:
--               `allowSend`, `allowSendAction`, `sendUsageSnapshot`.
--   Access      Tools: whatsapp-bridge/tool_policy.go. Hosts: the Host allow list of rest_bind.go and the
--               bearer token of auth.go. Request: the chain of guards that `mutate` of rest.go composes,
--               with read_only.go, runtime_settings.go and rest_middleware.go, and the one snapshot
--               of the settings that they put into the request's context.
--   ChatPolicy  whatsapp-bridge/chat_policy.go: the normal form of an entry, `parseChatPolicy`, `Allows`
--               and `intersectChatPolicies`; Mobile: `brMobileAlternate`.
--   Connection  whatsapp-bridge/connection_problem.go. Problem: the classification of a refusal. State:
--               the stored problem and its file, as the `Bridge` keeps them, with one function per method
--               and one round of `waitConnectionAllowedContext`. Startup: what a restart reads back.
--   Pairing     whatsapp-bridge/operator_pairing.go: the state under `mu`. Observe: `observe`,
--               `connectionEvent`, `beginCompletion`. Actions: the requests of the operator. Rounds: the
--               sections of `run`, of `logout` (operator_logout.go), and `snapshot`. Sections: all of
--               them in any order; what lies between two sections of one request is left open.
--   MediaRetry  whatsapp-bridge/media_retry_cooldown.go: the memory of failed media retries.
--   Transfers   whatsapp-bridge/media_inflight.go: the transfers in flight, the tracked requests, and the
--               count that a shutdown waits for, with `wg.Done` as a step of its own after `mu`.
--   MediaQuota  whatsapp-bridge/media_quota.go: `acquireMediaQuota` over the local store, with its
--               reservations, its eviction and its low-water mark.
--   PendingEdits  whatsapp-bridge/pending_edits.go: what an edit that comes before its message, and the
--               message, leave in the table.
--   MarkRead    whatsapp-bridge/mark_read.go: `coveredPrefix`, `groupBySender` and the receipts that
--               `markWholeChatRead` sends, up to the place of the read marker.
--   GroupMembers  whatsapp-bridge/group_members_store.go: the table of members under its feeds; Lookup: what
--               a statement does to the row of one key.
--   Polls       whatsapp-bridge/polls.go: the table of votes, the tally of `PollResults`, the names behind
--               the hashes of options, and the votes of the history that wait for their secrets.
--   Keepalive   whatsapp-bridge/session_keepalive.go: `runSessionKeepalive`, one pass of the loop at a
--               time; the clock, the session and the outcome of each send are the pass's environment.
--               Mark: what the sends tell of the mark, where a failed `available` leaves it unclear.
--               Hours: `resolveHoursEnv` of hours_env.go.
--   History     whatsapp-bridge/history_limits.go: what a pairing asks for, the progress of the sync, and
--               the age guard over a chunk of history. Share: the queue of history_share_budget.go, as a
--               relation of the steps that its mutex, its worker and its context take.
--   Webhook     whatsapp-bridge/webhook_runtime.go. Outbox: the receiver, its queue and its counters; Worker:
--               what the delivery of an event does to them; Calls: one step per section under the mutex,
--               and a run of them in any order. Retry: the five tries of one event. Config: the checks of `configure` and `receiver`, with their errors.
--               Address: `publicWebhookIP`.
--
-- How the code is modelled. A method on shared state is a function from the state to the state and the
-- answer. Calls that a mutex keeps apart run one after the other, in any order: a theorem over a list of
-- calls holds for each of their interleavings. Where the code lets go of a mutex in between, what the
-- others do there is an argument. A SQL statement, a file operation or a library call that may fail does
-- so where the environment of the call says so; GroupMembers, Polls and PendingEdits have statements
-- that do not fail. Times are natural numbers, in nanoseconds or seconds as
-- each file says, and 0 is Go's zero time. A Go map is an association list or a list of its members. The
-- token bucket, a floating point number in Go, is an integer that counts a token as the nanoseconds of a
-- minute, and it is exact. The rounding of the float is not modelled: it may change the verdict per
-- minute where the tokens are within the last place of the batch, such as at the very end of a
-- `Retry-After`, so nothing is claimed of how long that wait is. Loops walk a list; the loop
-- over batches of rows (`scan_batches`) runs on fuel, the number of the rows, which is enough as each
-- batch takes at least one, and so does the loop over the slices of a sender's messages (`slices`).
--
-- Not modelled: the SQL text, log lines, HTTP rendering and JSON, the metrics page, whatsmeow, the
-- object store, the HTTP side of the operator socket and of the webhook, the MCP server in Python, and
-- lower case beyond ASCII.
pub mod Prelude
pub mod SendLimits
pub mod Connection
pub mod Access
pub mod ChatPolicy
pub mod MediaRetry
pub mod Keepalive
pub mod History
pub mod Webhook
pub mod Pairing
pub mod Transfers
pub mod PendingEdits
pub mod MarkRead
pub mod MediaQuota
pub mod GroupMembers
pub mod Polls
