-- ===== src/Lib.antt =====
-- obs-osc: an OBS Studio plugin that is controlled by Open Sound Control (OSC) messages over UDP,
-- sends state changes back as feedback, and describes itself by OSCQuery over HTTP and websockets.
--
-- A datagram reaches the server (src/osc-server.cpp) on its receiving thread, is parsed
-- (src/osc-message.cpp) and its messages are run on the UI thread by the dispatcher
-- (src/osc-controls.cpp), which takes addresses apart with the helpers of src/osc-addresses.{h,cpp}
-- and matches names with the globs of src/osc-util.cpp. Replies of one poll are batched into a
-- bundle. A change in OBS is encoded once by src/osc-feedback.cpp, published to topic subscribers and
-- to websocket listeners (src/osc-subscribe.cpp, src/osc-ws.cpp), and queued for the sending thread.
-- src/plugin.cpp loads the configuration, starts the servers and applies new settings, which come
-- from the dialog of src/osc-settings.cpp. src/osc-query.cpp starts the HTTP server and its
-- advertisement and answers its requests, for which src/osc-query-schema.cpp walks OBS on the UI
-- thread; src/osc-ui-task.cpp queues what is to run there, and src/osc-net.cpp makes the sockets.
--
-- Which file models what:
--   Base       bytes and texts, lists over the native numbers, Boolean tests, int (Base/Int), and the
--              result of code that reads through pointers (Base/Run: a value, `return false`, a read
--              outside the buffer, or out of fuel), `std::to_string` (Base/Decimal)
--   Net        `osc_endpoint` of src/osc-net.h and its byte comparison; Sockets and Resolve are
--              src/osc-net.cpp, Sending the two loops `send_all` with their proofs
--   Message    src/osc-message.{h,cpp}: Types, Read (big-endian words, padded strings), Parse, Build,
--              Access (`arg_bool` and its siblings); Reads, Bundles, Safety, Typed, Typing, Padding,
--              Arguments, RoundTrip and Rewriting are proofs
--   Server     src/osc-server.{h,cpp}: State (`osc_server::impl` and its operations), Batch
--              (`reply_batch`); Bundle, Queue, Drain, Target and Steps are proofs, Steps with the
--              threads as an explicit sequence of steps
--   Util       src/osc-util.cpp: Glob (`osc_glob_match`, wildcards, selectors), Visit (the
--              enumerations of sources and scene items), Fields (the volume curve, the transform
--              fields); Matches is the meaning of a glob as a relation, Correct, Meaning, Visiting
--              and Lookup are proofs
--   Addresses  src/osc-addresses.{h,cpp}: Names (constants and tables), Routes (helpers and builders,
--              with `split_two_segments` of src/osc-controls.cpp); Laws are proofs
--   Subscribe  src/osc-subscribe.cpp: Registry (both registries), Fanout (`osc_publish` and the
--              commands); Invariant, Histories, Redirect and Delivery are proofs
--   Plugin     src/plugin.cpp: Config (`osc_config`, `load_config`), Lifecycle (start, stop and
--              restart, of which it sees whether a port is granted), Apply (`osc_apply_settings`);
--              Outcomes are proofs
--   Settings   src/osc-settings.cpp: Dialog (its values, `accept`); Accepting and Warning are proofs
--   Query      src/osc-query.cpp over the calls of the operating system: Bonjour
--              (src/osc-query-bonjour.cpp), Service (start, stop, restart, `handle_request`), Transport
--              (`osc_server::start` and `stop` with their calls), Running (a history of both servers);
--              Owing, ServerOwing, QueryHeld, QueryOwing and Ledger (what the calls owe), Refines (of
--              Plugin/Lifecycle), Ports and HostInfo are proofs
--   Tasks      src/osc-ui-task.cpp: Queue (what is queued and by whom); Schedule is proofs, with the
--              threads as one sequence of moments
--   Ws         src/osc-ws.cpp: Frame (the frame layer), Session (the loop of `serve`), Connection
--              (`send_frame`, `close_conn`), Peers (the map of connections, `shutdown_all`), Serving
--              (the handshake and the whole of `serve`); RoundTrip, Bounds, Leak, Shutdown,
--              Served and Racing are proofs, Racing with the threads as interleaved steps
--   Obs        what the program sees of libobs and the frontend: Actions (calls that change something),
--              Readings (`Reads`, `Env`, and `Ui`, the state of the UI thread), Keeps
--   Objects    src/osc-objects.cpp: Items, Filters, Params and Misc (tally, hotkeys); Reading, Passes
--              and Writing are proofs
--   Controls   src/osc-controls.cpp: Outputs, Sources, Branch (the chain of tests), Poll
--              (`poll_dispatch`), Dispatch (`osc_dispatch_command`, and `handle_datagram` of
--              src/plugin.cpp); Chains, Reading, Commands, Polls, Effects, Driving, Muting,
--              Recall and Arrivals are proofs
--   Feedback   src/osc-feedback.cpp: Send (`osc_feedback_send`), Throttle (`throttled`), Signals (the
--              callbacks of sources and scene items), Events (`frontend_event_cb`), Hooks (the
--              connections and their bookkeeping), Histories (sequences of signals); Silence, Spacing,
--              Agreement, Pairing and Balance are proofs
--   Http       src/osc-query-http.cpp: Request (`handle_client` and what it calls), Accept
--              (`accept_loop` beside the serving threads), Listening (start and stop), Response
--              (`respond`, with its proofs); Decoding, Routing and Admission are proofs
--   Schema     src/osc-query-schema.cpp: Data (libobs' data objects as a record of operations), Nodes,
--              Sections and Listings (the builders), Tree (`build_section`, `build_root`, the lookup);
--              Paths and Lookups are proofs
--   Samples    the theorems at concrete inputs, and runs of the definitions
--
-- Bounds and fuel. Bytes are natural numbers; the 32-bit words, sizes and paddings of the wire keep
-- their wrap-around written out (`% 2 ^ 32`), floats are their 32-bit patterns. The matcher has
-- (length of the text + 1) * (length of the pattern + 1) rounds, the parser as many levels and
-- rounds as the buffer has bytes, the websocket loop and `send_all` as many rounds as there are bytes:
-- each of them spends a byte, a character or a restart in every round. A decimal number is given one
-- round more than its value.
-- A critical section under one mutex is one function.
--
-- Parameters. What the operating system, libobs, Qt and the C library decide enters as an argument: a
-- socket, a bind, a resolved host, the bytes of a peer, how much a send takes, an mDNS registration,
-- whether there is a path for the configuration file and whether a save of it succeeds (a save that
-- fails leaves the file as it was), the value that a widget shows, the JSON reader, the handshake's digest, `atoi`, the float operations
-- and conversions. In Net/Sockets and Query the answers of the system depend on the calls before, and
-- the successful calls are kept in order. That libobs serves its queue for the UI thread in order is a
-- hypothesis of Tasks/Schedule. What libobs and the frontend answer to a reading call is a
-- function of the changes requested so far, so that a command sees the effects of those before it; a
-- change is a value that is appended to that list. References to sources are not counted, but for
-- those that the feedback holds on filters.
--
-- Not modelled: log lines; the texts, the layout and the modal loop of the dialog and the menu entry,
-- which only call Qt and the frontend; the reply of mDNS, which the program ignores; the timeout of a
-- blocked read but for the call that sets it.
pub mod Base
pub mod Message
pub mod Net
pub mod Server
pub mod Util
pub mod Addresses
pub mod Subscribe
pub mod Plugin
pub mod Ws
pub mod Feedback
pub mod Http
pub mod Obs
pub mod Objects
pub mod Controls
pub mod Schema
pub mod Query
pub mod Tasks
pub mod Settings
pub mod Samples
