-- ===== src/Lib.antt =====
-- The web application of ninfer-studio (apps/web): the parts of it that decide something, apart
-- from the screens that show them.
--
-- Parts, and the files that model them:
--   Message, FileKind   apps/web/src/lib/types.ts (ChatMessage) and lib/fileKind.ts.
--   Chat                apps/web/src/lib/chatHelpers.ts: Sanitize is sanitizeMessagesForApi, Prune is
--                       pruneContextForCloud, History is modelHistory and withMessages with
--                       frameCompactedSummary of lib/api/chat.ts, Provider is
--                       resolveProviderConfig.
--   Agent               apps/web/src/lib/agentLoop.ts: Compact is compactedContext, Dispatch is
--                       executeToolCalls, Turn is streamTurn, Humanize is humanizePassText, Loop is
--                       runToolLoop.
--   Coder               apps/web/src/lib/coderTools.ts and coderStore.ts: Commands is
--                       isReadOnlyCommand, Approved is isApprovedCommand, Tools is mcpToolTier and
--                       checkComputerUsePerm (chatHelpers.ts), Store is what coderStore.ts does to
--                       the stored conversations, and its Checkpoints what
--                       apps/web/src/hooks/useCoderCheckpoints.ts does to them.
--   Observations        apps/web/src/lib/observationPack.ts: excerpts of large results, their paging,
--                       and packForRequest.
--   Tabs                apps/web/src/components/editor/tabModel.ts, the hook useFileTabs. State is
--                       its state, Disk is readDisk, Git is refreshGitStatus, Save is saveTab and
--                       runLint, Actions are the other handlers, Workspace is the effect on
--                       activeWsDir, Step is one event after another.
--   Api                 apps/web/src/lib/api/chat.ts, api/responses.ts and agentRuns.ts. Splitter, Drain
--                       and ReadLoop are the loop around a reader that all three have; ChatStream is
--                       streamChat (Think is pushContent, Calls the pieces of tool calls, Stream the
--                       lines and the end), Responses is applyResponsesEvent (Reducer) and
--                       streamResponses (Stream), Runs is parseFrame with consume (Frames) and the
--                       loop of RunStream (Attach), Request is buildChatRequest (Messages, Body) and
--                       buildResponsesBody (Items, Body), Receipt is validateOutputReceipt and
--                       renderOutputReceipt. Values is the JSON that they read, Transport the
--                       callbacks that they make.
--   GitStatus           apps/web/src/lib/gitStatus.ts.
--   CoderUndo           apps/web/src/hooks/useCoderUndo.ts, whose commands quote as GitStatus does.
--   Base                what they share; Tests are runs on concrete inputs.
--
-- How the parts interact: the agent loop takes the transcript that the chat built (History), ends a
-- turn with the messages of Dispatch, and hands on a transcript that Sanitize and Prune prepare for
-- an endpoint; Agent.Loop.Answered speaks of the same predicate as Chat.Sanitize.Answered. The tabs
-- are read again after a tool or an undo has changed files. Api.Request sends what Sanitize made of
-- a history, and Api.Request.Answered carries Chat.Sanitize.Answered over to the items of a Responses
-- request. A client of the read loop takes the separator as a record of an operation and its laws
-- (Api.Splitter); lines and frames are its two instances.
--
-- How the code is modelled:
--   A handler of the tabs hook is a function from the state to the new state and the requests that
--   it sends. The answer to a request is an event of its own, with what the closure remembered
--   (generation, sequence number, path), so that answers may be late, doubled or out of order. React
--   shows a handler the state of the last render; here it is the state of the last event, which is
--   the same where the screen renders between two events. A patch that gives null in the code gives
--   the tab itself.
--   The agent loop is a recursion on the turns that are left. What it calls is a record of functions
--   over a world of any type: the transport (a list of callbacks), the registry of tools,
--   JSON.parse, the hook, the clock, the abort signal and parseMarkupToolCalls.
--   A stream is the list of its chunks, already decoded, and how the reader ends; what is thrown is a
--   value. The handlers of the source are the callbacks that a run makes, in order. An attachment to
--   a run is a list of rounds, each with what the server answers and whether close was called by
--   each place that asks. JSON.parse is a parameter, and its result a data type; a number that is
--   not a natural one keeps only its text.
--   A JavaScript string is a list of UTF-16 code units where its content matters (Text), and a
--   native string where it is only compared. An absent list or text is an empty one where the code
--   only asks whether it is empty.
--
-- Bounds and fuel: all recursion is structural, on lists, on the turns that are left, or on a count
-- of digits that is at most the number; the pages of a stored observation are read with one
-- more than it has bytes as fuel, which is enough since each has at least one but the last; a buffer is drained with as
-- much fuel as it has characters, which is enough since a separator is not empty.
--
-- Not modelled: the screens and components, which only draw; the calls of the control plane and
-- fetch itself, whose answers are inputs here; the rates per second in the metrics, which the clock
-- decides; the request headers; the probe of the Responses API and its cache; the follow-up
-- suggestions and verdicts, which are parsed by regular expressions; the diagnostics parser, whose
-- result is an input of the lint answer; parseMarkupToolCalls and the gate of notai.ts, which are
-- parameters; the control plane and the desktop shell (desktop/), which are other programs.
mod Base
pub mod Message
pub mod FileKind
pub mod Chat
pub mod Tabs
pub mod Agent
pub mod Coder
pub mod Observations
pub mod Api
pub mod GitStatus
pub mod CoderUndo
pub mod Tests
