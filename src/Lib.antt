-- ===== src/Lib.antt =====
-- OpenPM's browser client (frontend/src): the logic behind its screens.
--
-- The client shows the documents of a project while the backend works on them, and a chat about the
-- project. Two streams of server-sent events feed it. The project's stream is read by a loop that
-- reconnects; each of its events becomes calls of the pipeline store, refetches of queries, toasts
-- and browser notifications. The answer to a chat message is a stream of its own, whose text is
-- queued and shown a slice at a time.
--
--   Lines      the framing that both streams share: chunks of the body, lines, payloads. From
--              frontend/src/hooks/useProjectSSE.ts (lines 100-121) and useChatStream.ts (185-197).
--   Pipeline   frontend/src/store/pipelineStore.ts: Types has the data, Store one function for each
--              action (setPipelineStatus is set_pipeline_status, and so on), Hydrate
--              hydrateProjectFromDocuments, Summary getProjectPipelineSummary; Actions makes the
--              actions data, so that a history of the store is a list of them. Phases is
--              frontend/src/lib/pipeline-phases.ts.
--   Chat       frontend/src/lib/chatBlocks.ts (Blocks) and frontend/src/hooks/useChatStream.ts:
--              Stream has the hook's state and its helpers, Session its events and calls, as the
--              steps of a state machine.
--              Slash has the commands of frontend/src/lib/slash-commands.ts and their parser,
--              Input the input field of frontend/src/components/chat/ChatInput.tsx.
--   State      the data of frontend/src/types/state.ts; Deadlines is frontend/src/lib/deadlines.ts,
--              TaskUpdate useOptimisticTask.ts of frontend/src/hooks, and Timeline the reading of
--              changes in frontend/src/components/state/StateTimeline.tsx.
--   Cockpit    frontend/src/components/cockpit/CockpitLayout.tsx: Commands has the pages that the
--              slash commands print, Commands/Run their executor handleSlashCommand, View the
--              state of the cockpit with the handlers that change it, Drag the counter of the
--              drag over the page.
--   Documents  frontend/src/components/cockpit/DocumentsPanel.tsx: Panel has the order and the groups
--              of the list, Deletion the deletion that can be undone.
--   Events     frontend/src/hooks/useProjectSSE.ts: Handle and Dispatch have a function for each
--              case of the switch in handleEvent, Switch the switch itself and its effect on the
--              store, Connect the retry loop, Effect the life of the hook's effect.
--   Auth       the session: Store is frontend/src/store/authStore.ts, Refresh the refresh of the
--              tokens in frontend/src/lib/authClient.ts as a state machine of calls, answers and the
--              messages of the channel of the tabs, which a tab also gets from itself, Pending its
--              buffer of unsent messages, Request the function request of frontend/src/lib/api.ts.
--   Upload     frontend/src/lib/upload.ts (Response: what uploadFile makes of the server's answer)
--              and frontend/src/lib/uploadFlow.ts (Flow: startUploadWithFlow), and DropZone the list of
--              uploads of frontend/src/components/upload/DropZone.tsx.
--   Settings   the form for a provider of models in frontend/src/app/settings/page.tsx, with the types
--              of frontend/src/lib/providers.ts.
--   Shortcuts  frontend/src/lib/keybindings.ts and useGlobalKeybindings.ts of frontend/src/hooks
--              (Keys), and frontend/src/store/uiStore.ts (Ui).
--   Conflicts  frontend/src/lib/conflicts.ts.
--   Common     lists, maps, comparisons and JSON values that the parts share.
--
-- How the code is modelled. A zustand store is a record, an action a function of it. A JavaScript
-- object used as a map is an association list in which a new key goes to the end and a rewritten
-- one keeps its place; keys that the prototype of Object has ("constructor") are not considered,
-- nor is the order that JavaScript gives to keys that are numerals. A text that the code
-- cuts or counts is a list of UTF-16 code units, any other one a String. The readings of the clock
-- are arguments, Date.parse is a parameter of the summary, and a time is an integer.
--
-- The hook of the chat is a machine of steps: a call of the hook, an event of the stream of a
-- numbered message, an animation frame, or a microtask. The environment chooses the steps, so every
-- interleaving is covered. The loop of the event stream takes what its requests meet, one round for
-- each pass, as a list; it needs no other fuel.
--
-- localeCompare, toLowerCase, the reading and printing of dates and of a score, and the answers of
-- the query cache and the server are parameters of the definitions that use them; a sort is the
-- stable one. The cockpit runs its effect after every step, the refetches of an answer end in a
-- step of their own, and the timers of deletions go off whenever the environment chooses.
--
-- A request and an upload take the answers of the server, the user's decision and, for the texts
-- of toasts, the printing of a JSON value as parameters, and give the list of their effects and
-- how they end. The callbacks that a caller passes are assumed not to throw.
--
-- Not modelled: rendering, fetch and its headers, JSON.parse and TextDecoder, the timer that aborts
-- a stalled request and the listener for visibility, which only abort the request under way, the
-- other components and pages and the rest of those named above, the helpers of frontend/src/lib and
-- frontend/src/hooks that are not named above, and the Python backend.

pub mod Common
pub mod Lines
pub mod Pipeline
pub mod Chat
pub mod Events
pub mod Auth
pub mod Upload
pub mod Shortcuts
pub mod Conflicts
pub mod State
pub mod Cockpit
pub mod Documents
pub mod Settings
