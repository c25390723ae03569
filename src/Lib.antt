-- ===== src/Lib.antt =====
-- mautrix-teams, a Matrix bridge for Microsoft Teams: the parts that decide when Teams is polled, what
-- is sent again, what is recorded as read or handled, what the Matrix side asks of Teams, and what HTML
-- reaches Matrix.
--
-- The program polls each Teams chat (pkg/connector). A pass of the poll loop looks for new chats,
-- asks which conversations changed, sweeps caches, and polls the threads that are due; each poll's
-- outcome sets the thread's backoff, and a rate limit pauses the loop. A poll makes sure of the
-- Skype token, fetches a page of messages after the thread's cursor, and turns each message into
-- events for bridgev2: typing, new messages, edits, deletes, reactions and notices. Messages that
-- the cursor has passed are looked at again for reactions, and for edits and deletes made in place.
-- The cursor moves in memory at once and is saved once all of the page has been handled. What the
-- Matrix side sends goes to the Teams API; it is recorded, so that its echo in a poll is not taken
-- for a message of another client. Requests go through an executor that retries, and their results
-- feed a reachability tracker.
--
-- Files and the code they are about:
--   Base           shared types and lemmas: lists, int64 arithmetic, strings, maps, decimal numbers
--   Errors         Go's error values as far as errors.Is and errors.As look at them
--   Reach          pkg/connector/reachability.go: teamsReach's note and markDown; Reach/Trip proves
--   Model          internal/teams/model: CompareSequenceID of message.go (Model/Sequence), reactions,
--                  edit and delete times of message.go and attachment.go (Model/Properties), trees,
--                  attributes and code languages (Model/Html), renderPlainNode, renderFormattedNode
--                  and normalizeHTMLFragment of message_html.go (Model/Html/Render; Model/Html/Safe proves),
--                  and conversation.go (Model/Conversation and the files below)
--   Cursor         pkg/connector/cursor_commit.go: threadCursors and saveCursor (Cursor; Cursor/Saved
--                  and Cursor/Queued prove), cursorCommit and queueForCursor (Cursor/Commit and the files below)
--   Executor       internal/teams/client/executor.go: Do, as the function perform
--   Client         the fields of TeamsClient that the operations here read and write
--   Poll           pkg/connector: poll_backoff.go (Poll/Backoff), poll_limits.go (Poll/Limits),
--                  poll_wake.go (Poll/Wake, Poll/Activity), cache_sweep.go (Poll/Sweep), and pollPass,
--                  runActivityCheck and a round of pollDueThreads of message_poller.go (Poll/Pass)
--   Graph          internal/teams/graph/chunked_upload.go: UploadFileInChunks
--   Receipts       pkg/connector/receipt_sync.go with its queries and parsers
--   Ingest         pkg/connector/message_poller.go from pollThread on: pollThread, fetchThreadPage and
--                  advancePageCursor (Ingest/Page), queueUserMessage, queueNonUserMessage and
--                  resolveSenderName (Ingest/Users), handleTypingControl and shouldEmitTyping
--                  (Ingest/Typing); reaction_sync.go (Ingest/Reactions), edit_sync.go
--                  (Ingest/Edits), and the own sends of client.go (Ingest/SelfMessages)
--   Matrix         pkg/connector/handlematrix.go: messages (Matrix/Messages; the files below prove),
--                  reactions (Matrix/Reactions), read receipts, with the own horizons of receipt_sync.go
--                  (Matrix/Reads), and a room's name, topic, members and avatar (Matrix/Rooms)
--   Messages       internal/teams/client/messages.go: ListMessages, GetMessage, ListMessagesPaginated; what
--                  is sent (Messages/Send; the files below prove), and EditMessage, DeleteMessage and
--                  ForwardMessages (Messages/Send/Change)
--   Threads        internal/teams/client/conversations.go: the list of conversations and what is asked
--                  about a thread
--   System         pkg/connector/system_messages.go: parseSystemMessage (System) and
--                  systemMessageText (System/Line); what an activity names (System/Named)
--   Naming         pkg/connector/thread_discovery.go: chooseStoredName, structuredRoomName and what
--                  they call
--   Tokens         pkg/connector/sync_loop.go: refreshFailure (record, blocked, reset) and
--                  ensureValidSkypeToken (Tokens/Ensure), with the reports of client_lifecycle.go and
--                  the endpoints of storage_extractor.go (Tokens/Session)
--   LongPoll       pkg/connector/sync_loop.go: a round of longPollLoop
--   Tests          the theorems at concrete inputs
--
-- A Go method that changes its receiver is a function from the record to the record. Shared state
-- stands in the record Client, and the world outside it (homeserver, databases, Teams) in its field
-- outside, which the calls of bridgev2, SQL and HTTP change as functions that are parameters. A
-- mutex's critical section is one step; the hooks of a cursor commit, which run on other goroutines,
-- are steps of a relation, in any order. Durations and int64 values are integers whose operations
-- wrap; times are nanoseconds since the zero time. A string is its list of code points. What a poll
-- calls outside of its own files (the homeserver's queue, databases, Teams, encoding/json and
-- encoding/xml, the emoji tables) are fields of Ingest's World; the clock is a field too, since it
-- shows the time of the state outside. In the same way Matrix has its MatrixWorld, whose calls of the
-- Teams API are values of one type, Messages its MessagesWorld, Messages/Send its SendWorld, and
-- Threads its ThreadsWorld.
--
-- Loops: Do runs on MaxRetries + 1 rounds of fuel, which is always enough. The upload runs on fuel
-- that the caller gives; for a session that takes the bytes in order, one round for each byte is
-- enough. The server may also never let an upload advance, so there is no such bound in general.
-- ListMessages catches up for at most ten pages, by its own bound; ListMessagesPaginated runs on fuel,
-- and as many rounds as messages are wanted are enough. StripSystemMemberPrefix takes as many rounds as
-- the identifier has characters. All other loops are recursions on lists or trees. pollDueThreads and
-- longPollLoop, which run until they are stopped or fail, are modelled as one round of their loops.
--
-- Not modelled: JSON, XML, SQL and HTTP themselves, logging, and the parser golang.org/x/net/html,
-- whose trees are the input of the renderers. net/url's parser and sort.Slice are parameters, and so
-- are strings.ToLower and strings.EqualFold where more than ASCII text tells in the result. In the
-- upload the building of a request and the reading of a body are part of the executor's parameter. Of
-- discovery only the names are modelled, not the resync that it queues for a changed chat; of the
-- tokens not those of Graph and of other resources. The Matrix handlers take the Teams API, the
-- conversion of outbound text and the upload of media as parameters. Message conversion, commands and
-- login are not modelled. A pass of the poll loop takes the poll of a thread as a parameter: it is not
-- instantiated with Ingest's.
pub mod Base
pub mod Errors
pub mod Reach
pub mod Model
pub mod Cursor
pub mod Executor
pub mod Client
pub mod Poll
pub mod Graph
pub mod Receipts
pub mod System
pub mod Messages
pub mod Threads
pub mod Matrix
pub mod Ingest
pub mod Naming
pub mod Tokens
pub mod LongPoll
pub mod Tests
