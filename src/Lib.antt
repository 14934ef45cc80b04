-- ===== src/Lib.antt =====
-- A verification library for copilot-sdkapi, the gateway that serves the OpenAI and Claude APIs on
-- top of the official Copilot SDK.
--
-- The program's parts and how they interact. A request enters internal/httpapi, which authenticates
-- it (internal/auth), brings it into a common form (internal/compat), checks it against the
-- server's policy and the model's capabilities, and acquires a session under the request's scoped
-- key from internal/session. The session manager resumes or creates the session through
-- internal/runtime and keeps a record of it in a file store. While the session runs, requests for
-- permissions, user input and external tools that the Copilot SDK raises wait in the runtime's
-- interactive bridge until a client answers them through httpapi. An error on the way is classified
-- into a status and a type.
--
-- Which file models which part:
--   Base              numbers, lists and Go maps, shared by all
--   Strings           Go's strings package, as the code uses it (TrimSpace, ToLower, Cut, ...);
--                     Strings/Space, Strings/Case and Strings/Pieces have its lemmas
--   Errors            error values: the sentinels of every package, wrapping with %w, errors.Is and
--                     errors.As; `Result` is a Go result with an error
--   Json              values of encoding/json, as `any` holds them; Json/Raw has JSON text as a tree
--                     with its spaces and literals, for json.RawMessage, and how encoding/json
--                     reads and writes it
--   Runtime/Types     internal/runtime/runtime.go: the data of requests and answers
--   Runtime/Events    internal/runtime/runtime.go: events and results
--   Runtime/Sdk       internal/runtime/copilot.go: the fields of SDK events that the code reads, and
--                     their conversion into summaries and errors
--   Runtime/Send      internal/runtime/copilot.go: copilotSession.Send. The parent has its state and
--                     `dispatch`, Reacting and Passthrough the cases of the event handler, Session
--                     the two selects and the schedule; Keeps, Ended, Text, Told and Leaving the
--                     properties
--   Runtime/Bridge    internal/runtime/copilot.go: interactiveBridge, one function for each method;
--                     the channels of capacity one are boxes that a pending request names
--   Session/Spec      internal/session/manager.go: Spec and its comparisons
--   Session/Store     internal/session/store.go: StoredSession and the interface Store
--   Session/FileStore internal/session/store.go: FileStore over a file, a temporary file and the
--                     errors that the calls of package os and json.MarshalIndent end in
--   Session/Manager   internal/session/manager.go: Manager. The map holds numbers of entries and a
--                     heap the entries, since leases outlive the map's bindings. Capacity has the
--                     first critical section of Acquire (`enter`), Opening what follows a
--                     reservation (`open_session`), Acquire the loop and the waiting for a lock,
--                     Lease newLease, Release and Discard, Sweep CleanupExpired and closeContext,
--                     Activity Lookup and the activity hooks. Shrinks, Steps and Bounds have the
--                     invariant, History the sequences of steps, Quiet, Heap, Resuming, Opens,
--                     Persists, Disturbed, Locked, Holds, Leases and Sweeps the properties of
--                     the operations
--   Config            internal/config/config.go: comma-separated lists, API keys, the listen
--                     address
--   Auth              internal/auth/apikey.go: keys, tokens and session namespaces
--   Compat            internal/compat: Types and Prompt (conversations, prompts, placement of
--                     images), Images and Content (what a message's content holds), all of
--                     common.go; OpenAi (the parser of openai.go, by its steps) and Claude (that of
--                     claude.go); Responses has the builders of both
--   Http              internal/httpapi/server.go: Permissions (effectivePermissionMode, and
--                     parsePermissionMode of internal/config/config.go), Keys (session keys),
--                     Status (classifyError), Features (validateConversationFeatures) and Provider
--                     (toRuntimeProvider and the checks of its URL); Continuation has
--                     handleCopilotResponse of internal/httpapi/interactive.go; Conversation has
--                     prepareConversation up to Acquire, Preparing the rest, and Attachments the
--                     temporary directories and files of a request
--
-- How state and time are modelled. A method that changes state takes it and returns the new one.
-- Times are nanoseconds since the zero time. A clock reading, a call of the SDK and a call of the
-- os package are arguments or parts of the state: how Session.Close ends is a field of the manager,
-- how a factory ends is a `Creation`, and the errors of the file system are `Faults`. SHA-256,
-- url.Parse and net.ParseIP are parameters, of which nothing is assumed. A duration or a limit that
-- is not positive is 0, as the code treats all of those alike. A session that a factory returns
-- with a nil error is not nil. How the calls for temporary files, base64 and the fetch of a remote
-- attachment end is a parameter (`Calls`); a directory that is removed takes its files with it, so
-- only directories are counted. The decoding of base64, of images and of their formats is a
-- parameter (`Decoders`), and the body of a request is the outcome of decoding it into the
-- request's struct. A float64 is a number times a power of two.
--
-- Interleavings. One critical section is one step. What other goroutines do between two steps of a
-- call that waits is a part of the schedule that its model runs over: `Round` in the bridge's
-- polling loops, `Poll` and `Turn` in Acquire, `Move` in Send, where `Schedule` also says which
-- ready case each select takes. A schedule that ends while the call still waits gives `none`. A
-- round in which the context has ended or the time is over suffices for a polling loop to return.
-- The opening of a reserved entry runs without the manager's mutex; `Meanwhile` is what others do
-- then, at four points: before the store is read, before the session is resumed or created, before
-- its record is saved or the entry is given up, and before the lease is made. Resuming a session
-- that the runtime has lost, deleting its record and creating another are one step, as are a save
-- and what follows its error. Go goes through a map in any order, the model in the order of its
-- list.
--
-- Not modelled. internal/runtime/copilot.go beyond the bridge and Send: the start of the client,
-- ListModels and the options of NewSession and ResumeSession, which call the SDK. In
-- internal/httpapi the routes, the streams of events and the fetch of remote attachments,
-- internal/config but for the parts named above, and cmd/copilot-sdkapi: not yet. internal/usage
-- writes log lines and internal/embeddedcli is empty. The two fingerprints of toRuntimeProvider and
-- that of the tools, which are SHA-256 of JSON texts, are parameters.
mod Base
pub mod Strings
pub mod Errors
pub mod Json
pub mod Runtime
pub mod Session
pub mod Auth
pub mod Http
pub mod Compat
pub mod Config
