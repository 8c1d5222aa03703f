-- ===== src/Lib.antt =====
-- cqlx: a Go library that builds CQL statements, compiles named queries and binds Go values to
-- them, with schemagen, a generator of table models from the metadata of a keyspace.
--
-- The parts and the files that model them:
--
-- Qb, package qb. Each builder is a record with the fields of the Go struct, each call a function
-- on it, and `to_cql` is `ToCql`: it gives the builder as the call leaves it, because `writeCql` of
-- the USING clause changes it, and a statement with the names of its parameters. Qb/Emit is the
-- buffer that the writers share, as explicit state. Qb/Value models qb/value.go and qb/func.go,
-- Qb/Cmp qb/cmp.go, Qb/Limit qb/limit.go, Qb/Using qb/using.go and the durations of qb/utils.go,
-- Qb/Token qb/token.go; Qb/Select, Qb/Insert, Qb/Update, Qb/Delete and Qb/Batch the builders of the
-- files of those names. Qb/Template is the abstract side: a statement as texts and named holes.
-- Qb/Binding says when a statement with its names means a template: whatever the environment,
-- putting the value of each name at the `?` in turn gives the template with each hole filled with
-- the value of its own name. Each builder has a module Writes, with the template that `ToCql`
-- writes, and a module Built, on the builders that calls make.
--
-- NamedQuery, `CompileNamedQuery` of queryx.go, as a scan over the bytes of the query. Its module
-- Printing writes a template as a named query, Runs follows the scan over what it writes.
--
-- Queryx, the methods of queryx.go that bind and `Exec`, with `udtWrapSlice` of udt.go: a query is a
-- record with the error and the names, and each method a function on it. A value of type `any` is a
-- plain value of the program, a pointer or a wrapper. Queryx/Bound has the relation between names
-- and arguments, Queryx/Struct the documented behaviour of the mapper, Queryx/Exec `Exec`, and
-- Queryx/Fetch the methods that read rows, over the iterators of Iterx. Queryx/Cas is on what the
-- CAS methods return, Queryx/Unsent on what a failed binding keeps from being sent.
--
-- Session, session.go: the queries that a session makes, and `ExecStmt`. Session/Sends is on the way
-- from a builder of Qb through a query with its options to the driver. The options, queryx_wrap.go,
-- are in Queryx/Options; Qb/Queries and Table/Queries have the methods that make a query of a session.
--
-- Batchx, the methods of batchx.go that bind a query and add it to a batch of the driver.
-- Batchx/Handles is `Batch` with its setters and its execution: a handle is the place of a batch of
-- the driver in a store, with a context, so that the copies of `WithContext` share the batch.
-- Batchx/Sharing is on calls on several handles.
--
-- Iterx, iterx.go and cqlx.go: `structScan` with the paths and the values that the iterator keeps.
-- The values are targets: where `Scan` of the driver writes each column. Iterx/Scan has `Get` with
-- the tests on its destination and `Close`, Iterx/All `Select` with its loop. The driver's iterator
-- is a record of functions on a state that holds the rows left and the memory that they are written
-- to. Iterx/Rows says what the driver is documented to do with rows; Iterx/Selects, Iterx/Values,
-- Iterx/Gets and Iterx/Errors are on what `Select` and `Get` then do.
--
-- Udt, udt.go: the wrapper that gives the driver the fields of a struct by name.
--
-- Dbutil, dbutil/rewrite.go: `RewriteTable` over the query of Queryx, with the rows of the source
-- table as a list.
--
-- Table, table/table.go: `New` with its prepared statements, and the statements of each operation.
-- It uses the builders of Qb as the Go code does. Table/Sent follows its queries to the driver.
--
-- Schemagen, cmd/schemagen. Types holds the column types that the driver reports; Camelize models
-- camelize.go, MapTypes map_types.go, and References, Imports, Usage and Keyspace schemagen.go:
-- `rewriteUDTTypeInfo`, `collectImports`, `typeUsesName`, and `renderTemplate` up to the run of the
-- template. A map is the list of its entries. A panic is the result `none`.
--
-- Common: bytes, lists, the decimal text of a number, signed integers with Go's division, and the
-- functions of the Go package strings that the code calls, for texts that are ASCII.
--
-- Bounds and fuel. Numbers are natural numbers and integers without a bound: those of the code are
-- lengths, limits and times that the code compares, divides and prints. The loop that strips
-- `frozen<…>` runs on fuel, the length of the name, which each round makes shorter. The loop of
-- `Select` runs on fuel, since only the driver ends it: one round more than there are rows is enough.
-- All other loops are recursion on a list.
--
-- Parameters, for code that is not here: the text that `fmt.Sprintf("%s", t)` gives for a type of
-- the driver, the seconds of a duration, which Go computes as a float64, the driver's queries,
-- iterators and batches, its `Marshal` and `Unmarshal`, and reflection with the mapper of reflectx.
-- That `TraversalsByNameFunc` calls its function for each name in turn up to the first error, that
-- `Query` of a batch adds one entry, that `Scan` of an iterator reads one row to its targets and is
-- false at the end, and that the bytes of a value give the value back and nil bytes a null, are
-- hypotheses of the theorems that rest on them. A transformer of bound values and the reading of a
-- struct's field may panic, as `UnsetEmptyTransformer` of transformer.go does of nil and
-- `FieldByIndexesReadOnly` behind a nil pointer: what binds gives `none` then, and a theorem that a
-- binding returns has the hypothesis that they return for the values it binds.
--
-- Not modelled: the contexts of queries, what only hands calls on to the driver (`Scan` of iterx.go),
-- mapper.go and the functions of transformer.go, cqlxtest, and the flags, the template and the files
-- of schemagen. The sharing of backing arrays between slices is not modelled either: the builders are
-- values, and each call is on the one that the call before it gave.
pub mod Common
pub mod Qb
pub mod NamedQuery
pub mod Table
pub mod Udt
pub mod Schemagen
pub mod Session
pub mod Queryx
pub mod Batchx
pub mod Dbutil
pub mod Iterx
