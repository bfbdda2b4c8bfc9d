-- ===== src/Lib.antt =====
-- A model of warmbly-go, the Go client of the Warmbly API, and theorems about it.
--
-- The program's core has five parts. internal/wsconn is a websocket client: frames, fragmented
-- messages and the close handshake over one connection. gateway is a realtime session on top of it:
-- it joins channels, dispatches events, and reconnects and resumes. The root package performs API
-- requests with retries, walks pages, keeps tokens fresh and reads event streams. webhooks.go signs
-- and verifies webhook deliveries. The resource services (campaigns.go, contacts.go, ...) make one
-- HTTP call in each method; some methods poll until a person has decided.
--
--   Common     numbers, lists, texts, int64 and durations that the models share.
--   Wsconn     internal/wsconn/wsconn.go. Wsconn/Frame: `readFrame` and the bytes of `writeFrame`.
--              Wsconn/Conn: `Conn` with `ReadMessage`, `WriteMessage` and `Close`; the network and the
--              random source are oracles of the state. Wsconn/Outcome: errors and panics as values.
--              Wsconn/Handshake: `Dial`, `buildHandshake` and `acceptKey`.
--   Gateway    gateway/gateway.go and gateway/handler.go. Gateway/JoinError: refusals and `classify`.
--              Gateway/JoinBook: `joinBook`, its pointers as addresses of a store. Gateway/Codec:
--              `encode` and `decodeFrame`. Gateway/Client: options, queue and resume position.
--              Gateway/Frames: what is sent and what is made of replies and frames.
--              Gateway/Session: `runOnce` as a step on each input, over the model of the connection.
--              Gateway/Manage: the reconnect loop. Gateway/Backoff: `backoff`. Gateway/Dispatch: `fire`.
--              Gateway/Heartbeat: `heartbeatLoop`. Gateway/Dialing: `socketURL` and the use of `Dial`.
--              Gateway/Lifecycle: `Open`, `Close`, `manage`, the heartbeats and `dispatchLoop` as actions
--              that interleave, over Gateway/Session. Gateway/Events: the names of gateway/event.go
--              and gateway/intents.go.
--   Api        Api/Client: `New` of client.go and options.go, and Api/Client/Authorization the header of a
--              credential in auth.go. Api/Responses: `newResponse` and `decodeBody`. Api/Requests:
--              `newRequest` and the options of a call in client.go. Api/Errors: errors.go,
--              `decodeError`, `parseRateLimit`.
--              Api/Retry: `do`, `waitRetry`, `backoff` of client.go. Api/Pages: pagination.go.
--              Api/Tokens: auth.go and the token sources of oauth_flow.go. Api/Oauth: the
--              authorization-code and client-credentials flows of oauth_flow.go. Api/Stream: the
--              event stream of client.go.
--   Webhooks   the signatures of webhooks.go.
--   Services   the methods of the resource services as the requests that they make, one definition for
--              each method, in a file for each service (advisor.go to websitetracking.go).
--              Services/Call: the request, the helpers of internal.go and `withQuery` of
--              pagination.go, and how a server reads a path. Services/Escape: `url.PathEscape`.
--              Services/Query: `url.Values` and its setters in internal.go. Services/Params: the
--              queries of the list methods. Services/Bodies: the JSON objects of the parameters types.
--              Services/Uploads: the methods that send a file. Services/Searches: the searches and the
--              methods of another shape, with the walk over the submissions of a form. Services/Table: all other
--              requests. Services/Status: what answers say of their own state, such as `APIKey.Can`.
--              Services/Polling: `WaitForCLIAuth` of auth_service.go, `WaitForApproval` of poollink.go
--              and `WaitForConnect` of cloudlink.go.
--
-- Numbers of the machine are native numbers or integers with the wrap-around written out (`wrap64`,
-- `shift_left`). Locks make an operation one step; goroutines interleave as sequences of inputs.
-- encoding/json, strconv, net/http, HMAC, bufio.Scanner and the clock are parameters, with what they
-- document as named hypotheses (`IsJson`, `IsLibrary`, `IsNumeral`, `IsScanner`).
--
-- Five loops run on fuel. `ReadMessage` has one unit for each byte of the input and one more, and each
-- round takes at least two bytes. `do` has one for each attempt that the options allow. `All` has
-- one for each page of the chain it walks. None of them runs out. The two polling loops have one for
-- each poll; their theorems ask for more fuel than there are undecided polls. The walk over the
-- submissions of a form, which a caller writes, has one for each page; one more than there are
-- submissions is enough.
--
-- Not modelled: deadlines and logging; in `Close` of the gateway client, the wait of up to five
-- seconds for its goroutines; the lateness of the heartbeat's timers; and what `newRequest` of
-- client.go does from `ResolveReference` on, which removes dot segments. Of the services: the types of
-- answers, and the encoding of nested values. The payload types of gateway/event.go are declarations.

pub mod Common
pub mod Wsconn
pub mod Gateway
pub mod Api
pub mod Webhooks
pub mod Services
