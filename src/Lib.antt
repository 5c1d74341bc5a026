-- ===== src/Lib.antt =====
-- GORM, an object-relational mapper in Go.
--
-- The parts of the program that are modelled, and where:
--
-- - Callbacks: callbacks.go, the registration, ordering and removal of the callbacks of an operation. A
--   callback is a record that stands at an index, as in the slice of pointers that the Go code changes;
--   `sort_callback` is the local function of `sortCallbacks`, which calls itself and changes other
--   callbacks on its way. It runs on fuel: without enough of it the result is `diverged`, which is how
--   a recursion without end shows. `sort.SliceStable` is a parameter, and so are the handlers. Children: Index
--   (the search for a name), Keeps, Extends and Order (what each step of the sorting keeps), Names and
--   Handlers (the sorted names and the handlers found for them), Compile, Cycle (an order that does not
--   end), Plain (without constraints: one unit of fuel is enough), Tests.
-- - Clause: clause/*.go with `QuoteTo`, `AddVar`, `AddClause` and `Build` of statement.go. A statement is
--   the SQL text, the bound variables and the errors so far; a `Build` method is a function on it.
--   Writer has the quoting and binding, Conditions what clause/where.go does with expressions, Fragments
--   what clause/expression.go does with values, Build their composition by recursion on the tree,
--   Sections the data of the other clauses, Merge their `MergeClause` methods, Statement their `Build`
--   methods and the building of a whole statement. Marks and the files named MarksOf… are about
--   placeholders and variables, Added about runs of `AddClause`, Reorder about the exchange that
--   `Where.Build` makes, Agreement about expressions that say the same.
-- - Transactions: `Transaction`, `Begin`, `Commit`, `Rollback`, `SavePoint` and `RollbackTo` of
--   finisher_api.go, over a log of the calls on the connection. Outer and Nested are about how they end.
-- - Prepared: `prepare` of prepare_stmt.go with `New`, `Get`, `Set` and `Delete` of
--   internal/stmt_store/stmt_store.go. Any number of goroutines, each at a point of the function, take steps in
--   any order; `advance` is one step and `Reach` what steps lead to. Steps has what no step breaks, Changes
--   and Made show it of every kind of step, Returned is about what is returned, Waiting about who can go
--   on, Flight about how many prepare a query.
-- - Batches: `CreateInBatches` and `FindInBatches` of finisher_api.go. The loops have fuel, which is
--   at most the number of rows and one more. Create/Ends builds on Transactions.
-- - Schema: Tags has `ParseTagSetting` and `toColumns` of schema/utils.go, Naming the naming strategy of
--   schema/naming.go, Texts what they use of the package strings, Indexes the indexes of schema/index.go.
-- - Reorder: `ReorderModels` of migrator/migrator.go. Parsed has what parsing leaves, Ends that it ends,
--   Placed the insertion of a name, Whole all of it. A fuel above the number of the schemas is enough for the
--   parsing, one above the depth of their constraints for the insertion.
-- - Columns: `SelectAndOmitColumns` of statement.go, with `LookUpField` of schema/schema.go.
-- - Explain: `ExplainSQL` of logger/sql.go with question marks for placeholders.
-- - Operations: `Execute` of callbacks.go and the default transaction of callbacks/transaction.go. Balance counts
--   what is begun and ended, Ends is about whole operations.
-- - SoftDelete: the clauses of a `DeletedAt` field in soft_delete.go, with the test for missing conditions of
--   callbacks/helper.go. Meaning has what a WHERE clause means, Filter what the filter does to it, Deletion and
--   Missing are about a soft deletion.
-- - Sessions: `getInstance` and `Session` of gorm.go, `clone` of statement.go and the methods of
--   chainable_api.go (Chain), on a heap, since a DB and a session may share a statement. Shares has what a call
--   may write, Chains and Opened are about chains on a DB and on a session. Calls that append in place to an
--   array that statements share, those that add a RETURNING, are left out.
-- - Prelude: numbers, lists and byte strings, which all of these share.
--
-- The dialect is another repository's: it quotes a name and writes the place of a variable, both by
-- functions that the definitions take as arguments. So are the driver's answers to the calls on a
-- transaction, and what the block of a transaction does. Strings are lists of bytes; upper case is that
-- of ASCII letters, which decides the search for AND and OR.
--
-- Not modelled: subqueries and clauses as bound values, the parsing of models and all that is read from
-- values by reflection (the rest of schema/, scan.go, most of callbacks/), the rest of the migrator, the
-- output of the logger, the closing of prepared statements, associations and the typed API. internal/lru
-- is a copy of another project's cache.
pub mod Prelude
pub mod Callbacks
pub mod Clause
pub mod Transactions
pub mod Prepared
pub mod Batches
pub mod Schema
pub mod Explain
pub mod Columns
pub mod Reorder
pub mod SoftDelete
pub mod Sessions
pub mod Operations
