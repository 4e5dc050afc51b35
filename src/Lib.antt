-- ===== src/Lib.antt =====
-- Vaultmarks keeps the bookmarks of several browsers in step: a browser extension mirrors the
-- browser's bookmark tree in a Loro document, encrypts the document's changes and exchanges them
-- through a server that cannot read them.
--
-- The parts of the program and the files that model them:
-- - Shared: tests on numbers, lists, Integers, and Dict, the JavaScript map as an association list
--   in insertion order.
-- - Crdt: the document of extension/src/crdt/loro-doc.ts. The Loro library is a parameter, the
--   record Loro of operations with the behaviour of a map.
-- - Bookmarks: extension/src/bookmarks/bridge.ts. Node is BookmarkNode, the browser's tree and
--   toNode; Roots is initBrowserRoots and the translation of parent ids; Mapping is the id
--   mapping with loadMapping and saveMapping; Walk is the breadth-first walk over the browser's
--   tree; Offline is mergeLocalChangesIntoDoc and computeOfflineChanges; Import is
--   bootstrapFromChrome, computeLocalImportDiff and mergeImportIntoDoc; Listeners is the
--   listeners for a removed, a changed and a moved bookmark, with the one for a new bookmark in
--   Create; Browser is chrome.bookmarks as a record of operations that may refuse, and Reconcile
--   is reconcile over it, with step 0b in Orphans and topoSort in TopoSort.
-- - Sync: extension/src/sync/client.ts and delta-queue.ts. Http has the classes of errors, Queue
--   is the object store of deltas (extension/src/storage/db.ts), with the lemmas on its front in
--   Front, Push is _pushPendingInner, Pull is pullSince, and Server is what they talk to, push and
--   pull of server/src/routes/sync.rs over server/src/db/queries.rs. Action is code that reads and
--   writes a state and may throw, with try and finally, and Requests is the requests apiLogin,
--   apiRegister and so on as actions. Events is the text of the event stream in openEventStream, in chunks.
-- - Auth: extension/src/auth/session.ts. Store has the session and the browser's two stores as
--   records, Session one function for each operation.
-- - Background: extension/src/background/index.ts. World is the state of the worker with the
--   databases and the browser, and Env the code around it; Steps lifts the operations of the
--   other parts to actions on it; Syncing is syncFrom, the event stream and startSync, SignOut is
--   handleLogout, Initialize is initializeDocs; Messages has the messages and responses of
--   extension/src/types.ts; Handlers has the handlers by what they are about (Session, Profiles,
--   Account, ImportConflict); Dispatch is handleMessage, the alarms, the events of the stream and
--   the work that was started without being awaited. Keeping has the rules for what an action
--   keeps and Ending those for how it ends, Sound and Locked are theorems over them. Exclusive is
--   the guards of syncFrom alone, as transitions of the module's flags with syncs that overlap;
--   CatchUp joins them to what the worker does at the end of a sync, runCatchUpSync included;
--   SyncFrom is _syncFromInner as the sequence of its writes, with a restart of the worker
--   between any two.
-- - Tests: concrete data, and each theorem applied to it.
--
-- The bridge's module variables are the record Bridge, passed from step to step; a session with
-- its stores is the record Auth. An operation that throws returns Option or an error as a value.
-- Names are the source's in snake case. A field that is missing, undefined or null is none.
-- A handler of the worker runs to its end, and what it starts without awaiting is put into a list
-- of tasks that are run later, one at a time; what reaches a switch of profiles while it goes on
-- is an argument, the list of requests that arrive in each round, and whether a request to sync
-- comes while a sync runs is told by the parameter overlaps of Env. An answer of the server is
-- computed from the request and the state of what is remote, which the request may change. A
-- write of a database that the worker makes may fail, as the parameter commits of Env says each
-- time; it then changes nothing and is thrown.
--
-- Parameters stand for code that is not in the repository: the Loro library (its map of
-- bookmarks, its snapshots and its import of updates), the browser's bookmarks (seven operations on
-- a state), the order in which an object lists its keys, random ids (a function from how many
-- were drawn), base64, encryption and key import, and, where a theorem does not speak of the
-- repository's server, the answers to requests and which writes of a database succeed.
--
-- Loops whose end is not structural run on fuel, and none says that it ran out: the walk has a
-- round for each node of the tree, topoSort and the removal of orphans a round for each entry,
-- each with one more, and pullSince a round for each row that is asked for, with one more. That
-- this is enough is part of the theorems about them. The walk of reconcile and its search for
-- descendants have as many rounds as there are nodes; the way up from a new bookmark has as many
-- as its depth; a text is split in as many rounds as it has characters; a pull of the worker has
-- a number of pages that Env gives.
--
-- Not modelled: the user interface, Web Crypto, the filter of the extension's own changes, the
-- decoding and opening of the event stream, and the restore of a session when the worker starts.
-- Two handlers of the worker whose awaits interleave are not modelled but for the cases above,
-- and neither is a merge that overlaps the browser's events: the nodes that a merge reads are one
-- list. A read of a database does not fail, and neither does the write of the mapping within a
-- reconcile or a listener. Before the first initDoc the document is an empty one, where the source
-- throws.
pub mod Shared
pub mod Bookmarks
pub mod Crdt
pub mod Sync
pub mod Auth
pub mod Background
mod Tests
