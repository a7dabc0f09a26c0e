-- ===== src/Lib.antt =====
-- A verification library for the inference proxy: a FastAPI service that gives apps and agents one
-- endpoint for many upstream models. A request carries a proxy key (app/auth.py), names a model,
-- which app/deployments.py turns into an upstream URI and a secret (app/credentials.py), may be
-- translated between the Chat Completions, Responses and Messages shapes
-- (app/proxy/chat_to_anthropic.py), is posted with retries (app/azure.py), and the limits that the
-- reply reports are kept (app/provider_limits.py). A turn that does not fit the model's context is
-- reported in one form on every route (app/proxy/overflow.py).
--
-- Files, and the code they model:
--   Prelude (with Tests, Lists, Predicates, Int, Maps): shared names, integers, lists and dicts;
--   Text: the methods of str that the code calls; Json: Python's JSON values and dicts;
--   Auth (Keys): app/auth.py, and the rows Client and ApiKey of app/orm.py;
--   Credentials (World, Files, Resolve): app/credentials.py, app/timeutil.py and the row Credential;
--     Rules, Failures and Reuse hold proofs;
--   Deployments (Registry, Target, Wires, Resolve, Listing): app/deployments.py and the rows
--     Provider and Model; Hidden, Offered and Shapes hold proofs;
--   Overflow (Relay): app/proxy/overflow.py;
--   Anthropic.Request (Result, Content, Tools, Thinking, Messages, Body): the request half of
--     app/proxy/chat_to_anthropic.py, `transform_to_anthropic_messages`; Budget, Results and Turns
--     hold proofs;
--   Anthropic.Response (Sorted, Replay, Resent): `transform_anthropic_to_completions`;
--   Anthropic.Counts (Totals) and Anthropic.Stream (State, Events, Run): the usage figures and
--     `stream_anthropic_to_completions`; Terminator, Outcome, Numbering, HighWater and Unnamed hold
--     proofs;
--   Upstream (Limits, Retry, Strip): app/provider_limits.py and app/azure.py; Latest, Attempts,
--     Rewrites, Stripped, Cleaned and Sanitized hold proofs;
--   Messages (Bytes, Sniff, Alias, Headers, Body, Route, Entry): app/proxy/anthropic.py; Chunking,
--     Aliases, Betas, Identity and Metered hold proofs;
--   Responses (Tools, Content, Items, Body, Reply, Stream, Run): the translation between Chat
--     Completions and the Responses API of app/proxy/chat_completions.py; Declarations, Spelling,
--     HandedBack and the children of Run hold proofs;
--   Completions (Answers, Native, Handlers, Entry): the chat route of app/proxy/chat_completions.py;
--     Rows, Translated, Metered and Guards hold proofs;
--   ResponsesRoute (Lines, Handlers, Entry, Compact, SystemOne): app/proxy/responses.py,
--     app/proxy/compact.py and app/proxy/systemone.py; Retried and Summary hold proofs;
--   Relay (Lines, Attempts, Entry): app/proxy/websocket.py; Order, Single and Delivered hold
--     proofs;
--   Metering (Streamed): the token columns of app/usage.py and the row that a streamed Messages call
--     of app/proxy/chat_completions.py leaves.
-- Functions keep the names of the source. The modules named Tests hold concrete runs.
--
-- State: module globals and database rows are explicit values passed on. A resolution of a
-- credential runs on a `World` of rows, files, a clock and the refresh tokens posted; the stream is
-- a fold over its lines with the loop's variables as a record; the retry loop is a function of what
-- each attempt meets.
--
-- Parameters, for code outside the repository: `json.loads` and `json.dumps`, sha256, the decoded
-- claims of a token, the answers of a token endpoint, the writing of a time as text, float parsing
-- and rounding of limit headers, the host of a URL, and what an upstream does on each attempt.
--
-- Bounds: a JSON float is m / 2 ^ k; times are in microseconds; the case of letters is changed for
-- ASCII alone, and a text is a count where its digits are ASCII. Limit headers that read as an
-- infinity or as no number are left out. Loops run over lists, and the retry loop over the five turns of its range. The loop
-- that takes events off a buffer runs on one unit of fuel more than the buffer is long, which is
-- enough, since each turn shortens it.
--
-- Not modelled: the admin console, a database that fails to read a row, the inserts of the usage log, database and HTTP plumbing, a
-- WebSocket client that goes away in the middle of a send, log lines, and the identifiers, times and
-- JSON text of what is emitted.
pub mod Prelude
pub mod Text
pub mod Json
pub mod Credentials
pub mod Deployments
pub mod Overflow
pub mod Anthropic
pub mod Auth
pub mod Upstream
pub mod Metering
pub mod Messages
pub mod Responses
pub mod Completions
pub mod ResponsesRoute
pub mod Relay
