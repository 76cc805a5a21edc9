-- ===== src/Lib.antt =====
-- MCP Dev Runtime: a server that gives a client a shell, file patches and archived output.
--
-- The server runs commands in sessions whose output goes to a bounded log (src/runtime/output-log.ts),
-- which clients read by a cursor. A request that carries an id is answered once: its outcome is kept
-- in a retry cache (src/runtime/retry-cache.ts), whose entry a running session pins. File changes come
-- as a patch (src/runtime/patch-parser.ts), whose chunks are looked for in the file and put in. Each
-- execution has an archive in a bounded directory (src/runtime/history-store.ts).
--
-- What models which part:
--   Base                  names of the libraries, lists, texts, slices, and the JavaScript Map
--   Runtime/Errors        ToolError of src/runtime/errors.ts, and the result of what may throw
--   Runtime/Utf8          utf8Prefix of src/runtime/log-query.ts
--   Runtime/OutputLog     OutputLog: append, trimTo, byteAt and read, on its blocks; Refinement says
--                         which stream of bytes the blocks stand for
--   Runtime/RetryCache    RetryCache: run, pin, sweep and stats; Pins takes any sequence of calls
--   Runtime/PatchParser   Grammar is parsePatch, Seek is seekSequence, Lines is splitLines, Update is
--                         updateText; Syntax is the grammar of patches as data
--   Runtime/LogQuery      validateQuery and queryLog of src/runtime/log-query.ts: Validation is about
--                         the requests, Tail about tail_lines, Search about search
--   Runtime/ExecManager   ExecManager of src/runtime/exec-manager.ts: the parent has the sessions, what
--                         ends them and sweep, Starting has exec, Output the events of a process and
--                         the output budget, Input has write, read, list, terminate and close; Runs is
--                         the machine of all calls and events, Ending the life of one session
--   Runtime/PatchEngine   PatchEngine of src/runtime/patch-engine.ts: the parent prepares and verifies,
--                         Committing writes; Actions is the monad of calls that may throw
--   Runtime/HistoryStore  HistoryStore of src/runtime/history-store.ts: Filter is matchesFilter; the
--                         parent has remove and makeRoom, Saving has save and start, Appending append
--                         and its task, Finishing finish and clear, Opening what initialize makes of
--                         the archives that it finds; Histories takes any sequence of these; Listing
--                         has list, Archives has read
--   Launcher/RotatingLog  RotatingLog of src/launcher/rotating-log.ts: openFile, rotate and put on
--                         numbered files
--   ToolRegistry          src/mcp/tool-registry.ts: the tools, and the list of those allowed
--   Config                expandPath of src/config.ts
--   UserConfig            src/user-config.ts: the schema of unified documents and what is taken from them
--   Skills/Cache          BoundedCache of src/skills/cache.ts
--   Skills/Files          src/skills/io.ts on calls of the file system; Limits is limits.ts
--   Skills/Metadata       loadMetadata of src/skills/metadata.ts, on the values of a YAML document;
--                         Sidecar is its part about agents/openai.yaml
--   Skills/Scopes, Scan   resolveScope and scanRoot of src/skills/scan.ts
--   Skills/Service        SkillsService of src/skills/service.ts: the parent has the state, request,
--                         encode and decode, Catalogs has catalog, Reading read, Discovery discover
--
-- The history store puts its work in a queue, whose tasks run one after another: each is one step, and
-- what the disk does in it is an argument (Disk, Writing). That the output of an archive is written
-- before its end is recorded is a condition of the step, which the order of the queue gives as long as
-- nothing is appended behind the call of finish. An initialised store starts with the archives that the
-- directory has: their records are given as validated, with the sizes of their files. The object of an
-- entry, which tasks and map share, is the entry of the map.
--
-- In the exec manager a call that waits is two steps, before and after the wait, so that calls and the
-- events of processes may come in any order between them. A session is the entry of the map; what is
-- sent to its process and to the history store is recorded in lists. What kill throws is an argument.
-- Output of a session that has left the map changes nothing, while the code would still count it; the
-- backends give out all output before they say that a process is closed.
-- The numbers that randomInt draws are a list; when none of them is free, the model gives up where the
-- code goes on drawing.
--
-- The patch engine runs on a record of the calls of the file system, each of which takes the state of
-- the world to the next one, so that anything may change between two calls. Paths, hashes and encodings
-- are functions of a record Host. canonical and ensureParent go up as many parents as the path has code
-- units at most, and a path has no more.
--
-- The skills run on the same kind of actions, whose state is the service and what is outside of it, so
-- that other requests may change the service whenever one waits. A load that several requests wait for
-- is known by a number. The walk through a root has a round for each directory that the queue may hold,
-- and one more; the search for the end of a part has 15 rounds, of which each halves a window of fewer
-- than 2 ^ 15 bytes; a directory that is listed, a file that is filled and the ancestors have a round
-- for each item, byte and directory that the code takes at most. The ranking of src/skills/search.ts, in
-- floating-point numbers, and the length of a JSON text are functions that are given.
--
-- A text is the list of its UTF-16 code units, a buffer the list of its bytes, and what throws returns
-- a Result. A JavaScript number that the code tests is `whole` or `other` (negative, fractional, not a
-- number). A Map is a list of entries in insertion order. Time is a number that the caller gives.
-- Loops on fuel: the rounds of parsePatch's loops are one more than the lines, of which each round
-- takes one; those of splitLines, of append and of the rotating log's put are the length of the text,
-- of which each takes a part; those of the cache's set are its entries, of which each removes one.
--
-- Not modelled: messages and line numbers of errors, the digest of a request, decoding of bytes, and
-- the parts that only call the file system, processes or libraries.
mod Base
pub mod UserConfig
pub mod Config
pub mod ToolRegistry
pub mod Launcher
pub mod Runtime
pub mod Skills
