-- ===== src/Lib.antt =====
-- Verification of parts of GraphJin, which compiles GraphQL queries to SQL. Each part below is
-- translated from its Go source as pure functions, and the theorems are about these functions.
--
-- Parts and files
--
-- * core/util/graph.go and core/util/heap.go, the multigraph of the relationships between tables and
--   the search for the paths between two of them: Util/Graph.antt has the graph with `NewGraph`
--   (new_graph), `AddNode`, `AddEdge`, `UpdateEdge`, `GetEdges` and `Connections`; Util/Paths.antt
--   has `AllPaths` (all_paths), whose loop body is `round`. The schema builds the graph once and
--   asks it for paths while a query is compiled. A method with a pointer receiver takes the graph
--   and returns the new one; a panic is a result of its own (Base/Results.antt).
-- * `container/heap` of Go's standard library, which these files call: Heap.antt, translated from
--   its documented algorithm (sift up, sift down) over a slice and its `Less`.
-- * core/jsn/validate.go, the check of JSON that comes with a request: Jsn/Validate/Strings.antt has
--   `validateString`, `validateKey` and `parseRawString`, Jsn/Validate/Numbers.antt `validateNumber`,
--   and Jsn/Validate.antt the recursive descent and `Validate`. Jsn/Validate/Grammar.antt is an
--   independent grammar.
-- * core/graph/lex.go, the lexer of GraphQL texts, which the parser reads the items of:
--   Query/Cursor.antt has the state `lexer` and the methods that move over the input (next, backup,
--   accept, emit and the others), Query/Unescape.antt `unescapeStringValue`, and Query/Lex.antt the
--   state functions lexRoot, lexName, lexString and lexNumber, `run` and `lex`. `emitL` changes the
--   input in place, and so does its model. `unicode.IsLetter` and `unicode.IsDigit` beyond ASCII are
--   the parameter is_wide.
-- * core/graph/parse.go, the parser, on the items of the lexer: Query/Stack.antt is the stack of
--   core/graph/stack.go, Query/Ast.antt the data, Query/Parser.antt the parser's state and the methods
--   on the items, Query/Parser/Values.antt values, arguments and directives, Query/Parser/Fields.antt
--   the fields with the spreading of fragments, Query/Parser/Operations.antt fragments, variable
--   definitions and operations, and Query/Parser/Top.antt `Parse`. A field is named by its index, as in the source; Query/Forest
--   says what the list of fields is, and Query/Parser/Moves.antt what reading does to the state. A
--   result may be a panic: an index out of range, which the code meets in `tokErr` and in `... on`.
-- * core/graph/schema.go, the parser of schema texts, with the same methods: Query/Parser/Schemas.antt
--   has `ParseSchema` and `parseType`; `bufio.Reader.ReadLine` is written out with its buffer.
-- * core/dbjoin/dbjoin.go, queries for several databases: Dbjoin.antt has `BuildDatabaseQuery`, which
--   parses a query and writes one with some of its root fields, with `markDescendants`,
--   `writeFieldsRecursive` and `writeNode`. It relies on what Query/Forest says of the parsed fields.
--   Dbjoin/Merge.antt has `MergeRootResults`, with `json.Unmarshal` and `json.Marshal` as parameters.
-- * core/sdata/path.go, the paths of relationships between two tables, on the graph above:
--   Schema/Path/Resolve.antt has `resolvePath` and `resolvePathPair`, which take a direct edge
--   (Schema/Path/Direct.antt), or a path from the cache (Schema/Path/Cache.antt, with `hashEdgeIDs`),
--   or ask `shortestPathEdges` (Schema/Path.antt) behind the test of `canReach`.
--   Schema/Path/Ambiguity.antt is `detectDirectAmbiguityFromLines` (core/sdata/dwg.go), whose
--   candidates make the error for two foreign keys, and Schema/Path/Find.antt `FindPath` and
--   `FindPathByColumn` of the same file, which name the two tables. Schema/Path/Chain.antt says what
--   a path is, Schema/Path/Linked.antt what its steps are, and
--   Schema/Path/Plain.antt is `resolvePath` without a cache. Of `DBSchema` (core/sdata/schema.go),
--   `TEdge` (core/sdata/dwg.go) and `DBColumn` (core/sdata/tables.go) only what is read is there. The
--   cache is passed from call to call: its mutex makes a lookup and a store single steps.
--   `strings.EqualFold` and `strings.ToLower` are the parameters equal_fold and to_lower.
-- * core/sdata/graphmeta.go, which tables reach which, on the same graph: Schema/Reach.antt has
--   `buildReachability` and `canReach`. A word of 64 bits is the list of its bits.
-- * core/runtime/retry.go, the retries round a call of the database: Runtime/Retry.antt has the loop
--   over the delays, and Runtime/Retry/Attempts.antt says which calls and waits are allowed. The operation, the
--   context and the timer are the record `World`; a state stands for what they change.
--
-- State and numbers
--
-- An `int32` is its bit pattern, a number below 2 ^ 32, with its sign read off (Base/Int32.antt); a
-- byte is its number, and a string or a byte slice is a list of bytes. UTF-8 is decoded as Go's
-- unicode/utf8 does (Base/Utf8.antt). A Go map is an association list or a list of its keys.
-- An `error` is a constructor for its reason, without the text of the message.
--
-- Fuel
--
-- The loop of `AllPaths` counts its rounds and stops after 3001, which is the recursion of `rounds`.
-- The sifts of the heap move an index that only falls or only grows, with the length as their fuel.
-- `Validate` recurses on three times the length of the text and one, since each byte is read after at
-- most three calls; the loops over strings take a byte off in each round.
-- The lexer runs on twice the length of the text and two steps, since every second step takes a byte
-- off, and its loops on the number of bytes left.
-- The path search has the limit of the source: tables times edges times four and one more rounds.
-- The parser takes a unit of fuel for each call of parseValue and each round of a loop: three units
-- and two for each item are enough, except in parseOpParams, where no fuel is.
-- The recursions of core/dbjoin go from a field to its children and take a unit of fuel for each
-- step: one more than there are fields is enough, since the ids grow.
-- The search for reachable tables queues each table once at most, so a round for each and one more
-- are enough.
--
-- Not modelled
--
-- Messages of errors and their formatting; the compiler and the printing of SQL, which need the
-- whole schema; databases, HTTP and files; concurrency.
pub mod Base
pub mod Dbjoin
pub mod Heap
pub mod Util
pub mod Jsn
pub mod Query
pub mod Schema
pub mod Runtime
