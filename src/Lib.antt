-- ===== src/Lib.antt =====
-- Csql: a relational database server in C++ (src/core). A text comes in from the server, the
-- tokenizer and the parsers make statements of it, the statements call the database, and the
-- database keeps its tables in files of 4096-byte pages, each table a B+ tree of slotted pages
-- with its metadata in a block of its own. Expressions are evaluated on joined tuples for
-- conditions and results. A lock manager keeps the locks of transactions and a waits-for graph.
--
-- The files, and the code that each models (paths below src/core):
-- - Base: shared names, lists and integers over native numbers, text as bytes, results, maps.
--   `Result` is what a call comes to; `Failure` says how it can fail: a thrown error, an exception
--   of the standard library, an assertion, undefined behaviour, and fuel that ran out.
-- - Concurrency: controller/concurrency. Requests has the queues, WaitsFor the graph, Manager the
--   methods lockTable, lockRow, unlockTable, unlockRow and releaseAllLocks, Cycle has hasCycle and
--   RunCycleDetection; Locks, Release, Acyclic and Terminates prove.
-- - Types: util/types.h, util/b_plus_key.h and .cpp, and the sizes of util/helpers.cpp. Key has
--   the comparisons, Order their laws, Tuples the ordered map behind a tuple, Size the sizes.
-- - Io: storage/io_manager. Cursor has the block and its cursor, Bytes the little-endian numbers,
--   Values the typed reads and writes; Codec and RoundTrip prove.
-- - Entity: storage/attribute.* and storage/entity.*; Entity/Codec proves saving and loading.
-- - Page: storage/page. Nodes has the operations of leaf and internal nodes, Saving their save;
--   Search, Layout, Insert and Merge prove.
-- - Storage: storage/storage.cpp and storage.h on the pages of one entity. Storage has the reading
--   and writing of cached pages, the free pages, findLeaf, searchBtree and the iterator; Inserting
--   has setBTree, insertBtree and the splits, Removing has removeBtree with its two balancing
--   branches; Searching, FreePages and FirstTuple prove.
-- - PageCache: storage/lru_cache, the linked list with its pointers and the cache; Links, Chain
--   and Refines prove.
-- - Convert: the conversions of util/helpers.cpp between values, texts, types and key elements.
-- - Functions: storage/expression/function_expression.cpp; Functions/Strings proves.
-- - Tokenizer: controller/tokenizer/tokenizer.*, scanner.h, keywords.h in Tokenizer/Keywords, and
--   the cursor over the tokens (peek, get, check, consume) in Tokenizer/Cursor; Terminates, Rests
--   and Ends prove.
-- - Parsers: controller/tokenizer/expression_parser.* in ExpressionParser, where Rounds,
--   Precedence, Stacks, Steps and Terminates prove; controller/parsers and
--   controller/main_controller.cpp. Statements has what a parser makes and makeStatement,
--   TxnParser database_parser.* and txn_parser.*; sql_parser.* is in SqlParser (describe, drop,
--   insert), CreateTable, Targets (the columns of a SELECT) and Selecting (select, delete,
--   update); Dispatch has the order of the parsers. Their children named Ends, Selecting/Clauses
--   and Dispatch/Terminates prove that they end; Lists, Headers, Columns, Commands and Rejects
--   prove what they give.
-- - SqlQuery: storage/sql_query.*; SqlQuery/Headers proves.
-- - Operators and Expression: storage/expression with compareSqlType and likeMatch of
--   util/helpers.cpp; Expression/Aggregates has storage/expression/aggregate_expression. Typed has
--   the kinds of values and which expressions fit them; Compare, Like, Answers and Safety prove.
-- - Joins: JoinHandle of util/helpers.cpp and storage/expression/join_expression.*; Joins/Restores
--   proves.
-- - Select: storage/database/select.cpp, from the rows of the tables over the joins to the
--   condition of the query, and in Select/Results over GROUP BY, ORDER BY and LIMIT to what is
--   shown; Joining, Completed, Groups and Limit prove.
-- - Tests: runs on concrete inputs.
--
-- State is a record, a method is a function from the state to the state, and a method that changes
-- other objects gives them back too. A double is its 64-bit pattern, and what C++ computes with it
-- is the parameter `Floats`; the laws of IEEE 754 that a theorem needs are hypotheses
-- (`FloatOrder`). The order in which a hash map gives its entries, and `std::sort`, are the
-- parameter `Library`. Unsigned arithmetic of 32 bits wraps, and is written out (`u32`); signed
-- overflow is a failure. A method of the lock manager is one step: it runs under its latch, but
-- for lockTable, which takes the latch of the rows anew for each of its two tests, so that a
-- lockRow of another thread can come in between; what is shown of lockTable is of calls without
-- one. Row keys of the lock manager are any type with an equality that decides, as == of B+ tree
-- keys is on keys of one shape without NaN. writePage fails when save of the page does: for a
-- value that is not of the type of its attribute, or a tuple with a name that no attribute has.
-- What save wrote is not kept: the cache has the page itself.
--
-- Fuel: the search of lower_bound has one unit more than its slots, since the interval shrinks
-- each round; hasCycle has two more than the edges, since a round that goes on visits new
-- vertices; tokenize has two more than the bytes of its text; replace has one more than the bytes
-- of the string. findLeaf and beginLeaf take one unit for each level of the tree, and so do
-- insertBtree and removeBtree on their way back to the root; the parsers take one for each round
-- and each call, and three for each token, with two more, are enough.
--
-- The pages of Storage are those in the page cache as last saved, since a page that is read is
-- refreshed from what was saved and no method reads a page again that it has changed and not
-- saved. The cache holds 100000 pages, and no page leaves it here. The type byte of a new internal
-- node is indeterminate in the source, which calls loadType where it saves the type; the node is
-- taken to keep its type.
--
-- Not modelled: the decoding of pages from files, the files and names of entities, the undo log,
-- the other operations of the database, and the execution of statements; sockets, threads, files
-- and output, which are input and output only; the vendored JSON library.
pub mod Base
pub mod Concurrency
pub mod Types
pub mod Io
pub mod Entity
pub mod Page
pub mod Storage
pub mod PageCache
pub mod Convert
pub mod Functions
pub mod Tokenizer
pub mod Parsers
pub mod Operators
pub mod Expression
pub mod Joins
pub mod Select
pub mod SqlQuery
mod Tests
