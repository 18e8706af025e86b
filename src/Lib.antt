-- ===== src/Lib.antt =====
-- LoXiM is an object database server in C++. This development models parts of its core, from
-- src/Store, src/Util, src/Lock, src/QueryExecutor, src/TypeCheck and src/Indexes of the
-- repository, as functions on explicit states, and proves what they promise.
--
-- The store keeps objects on pages of 16384 bytes. Store.Page is a slotted page as
-- src/Store/Struct.h lays it out: a table of offsets that grows up, objects that grow down from
-- the end. Its operations are insertObject and initializePage of src/Store/PageManager.cpp and the
-- page part of deleteObject of src/Store/DBStoreManager.cpp; Store.Page.Contents reads a page as a
-- list of objects, and the theorems of Store.Page.Insert and Store.Page.Delete are about that
-- list. Store.FreeMap is the map of free space, getFreePage and updateFreeMap of
-- src/Store/PageManager.cpp, and the use that createObject and deleteObject make of both. The
-- buffer below, which hands out pages, is a function from page numbers to pages; the log is not
-- modelled. Store.Map is src/Store/Map.cpp, the table from logical identifiers to physical ones,
-- on the pages of its own file.
--
-- Util.Semaphore is RWUJSemaphore of src/Util/Concurrency.cpp, a readers-writer lock whose readers
-- may upgrade. A call is split where it waits on a condition variable. Util.Semaphore.Threads
-- interleaves the calls of any number of threads: events are the steps between taking and giving
-- back the mutex, and waking up. A wait on a condition variable may also return without a signal,
-- and a signal may wake more than one thread: these are events of their own, and the source, which
-- does not test the state again, relies on their absence, as the theorems say. pthread_cond_signal
-- does not fail.
--
-- Lock.SingleLock is src/Lock/SingleLock.cpp, the lock of one object over that semaphore, with
-- wait-die by the priorities of transactions. A request is one step up to the point where it
-- waits, while the source gives the mutex back before it reads tid and currentWrite and calls the
-- semaphore. Its functions take the transactions that hold the lock as lists.
--
-- Lock.Manager is LockManager of src/Lock/Lock.cpp: the tables of locks by physical identifier and
-- by transaction, and the calls that ask for one lock or for a set of them. lockAll runs on fuel,
-- one unit for each round of its loop. unlockAll gives the locks of a transaction back;
-- modifyLockLID is not modelled.
--
-- QueryExecutor is the part of src/QueryExecutor that computes with the results of queries.
-- QueryExecutor.Result is the data of QueryResult.h as one type of values, with addResult and the
-- functions that look through collections of one element; pointers shared between results are not
-- modelled. QueryExecutor.Compare is equal, less_than and what is built on them, in
-- QueryResult.cpp: both sort the collections that they compare and call themselves on the
-- elements, so they are built as tables of tests, level by level, up to a bound `n` on the
-- nesting; any bound above the nesting of the results gives the same answers. std::sort is
-- insertion sort. QueryExecutor.Arithmetic is plus, minus, times and divide_by of the numbers.
-- QueryExecutor.Algebraic is algOperate, QueryExecutor.Unary is unOperate, and
-- QueryExecutor.NonAlgebraic is combine and the loop over rows in executeRecQuery, with merge and
-- isIncluded of CommonOperations.cpp. Dereferencing a result and evaluating the right argument of
-- a row are functions that these take as arguments.
--
-- A double is a type with a record of operations, QueryExecutor.Doubles; where a theorem says that
-- doubles are ordered, the type holds no NaN, and ints keep their order as doubles. An int of a
-- query wraps around at 32 bits, where C++ leaves the overflow of a signed int open, and prints
-- with at most ten digits.
--
-- TypeCheck is the decision tables of src/TypeCheck, by which a query gets its type before it is
-- evaluated. TypeCheck.Signature is the signatures of src/QueryParser/Stack.h: a type with a
-- cardinality, a name and a kind of collection; NULL and the signatures behind `next` are lists.
-- TypeCheck.Rule is TCRule of Rule.cpp, TypeCheck.Generators the functions that rules name,
-- TypeCheck.Decision applyRuleset and getResult of DecisionTable.cpp, TypeCheck.Tables and
-- TypeCheck.Unary.Tables the rules that initAlgOpRules, initNonAlgOpRules and initUnOpRules add,
-- and TypeCheck.Unary the same machinery for one argument. A generator that changes its arguments
-- hands them back, since the rules that follow read them. The checks against the data scheme, for
-- insert, assign, create, delete and deref, are arguments. TypeCheck.Typing and TypeCheck.Cards
-- set the types and the cardinalities that the tables answer against the evaluation in
-- QueryExecutor. The table of casts, and the walk over trees of queries in TypeChecker.cpp, are
-- not modelled.
--
-- Indexes is the search in an index. Indexes.Traveller is src/Indexes/LeafTraveller.cpp, the walk
-- along the leaves of a B-tree, Indexes.Constraints is find and search of
-- src/Indexes/Constraints.cpp, and Indexes.Sieve is src/Indexes/EntrySieve.cpp, which the walk
-- adds entries to, with the decision of Indexes.Resolver (isVisible in
-- src/Indexes/VisibilityResolver.cpp). The leaves are lists of entries, keys are a type with a
-- comparison, and the position that BTree::find ends at is an argument of the search there.
-- Indexes.Comparator is the comparison of int keys, FixedLengthComparator<int> of Comparator.h; it
-- orders only keys whose differences an int can hold. Indexes.Tree is BTree::find of
-- src/Indexes/BTree.cpp on trees whose nodes are values and are read without errors, with the
-- leaves on the right as those that the pointers between leaves lead to; its keys are compared
-- without logical identifiers, as in every search. Indexes.Answers puts the three together.
-- Members that constructors do not set are arguments.
--
-- Numbers: counters of the semaphore are unsigned shorts and wrap around at 65536. The ints of
-- pages are natural numbers, since none is negative on a well-formed page. The search for a free
-- page runs on fuel, one unit for each header page that is read; it ends at the first header that
-- has room for another entry, so fuel beyond the index of such a header is enough. setPhysicalID
-- calls itself, only for an identifier that was just assigned, so a depth of two is enough; its
-- loop takes one unit of fuel for each identifier that it assigns, and one to end.
--
-- Not modelled: the page buffer, changes of the trees of indexes, the log, transactions, the
-- parsing of queries, the part of the executor that reads and changes the store, the protocol, and
-- all programs around the server.
mod Base
pub mod Store
pub mod Util
pub mod Indexes
pub mod Lock
pub mod QueryExecutor
pub mod TypeCheck
