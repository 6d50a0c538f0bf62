-- ===== src/Lib.antt =====
-- Baskety, a server for household inventories and grocery lists (Go, under baskety/).
--
-- Modelled are the services that keep stock, lists, receipts and purchases, with their HTTP handlers,
-- the SQL that they run, and the jobs in the background:
--
-- - Schema, Table, Sql: the tables of baskety/db/migrations as lists of rows, and what SELECT,
--   INSERT, UPDATE and DELETE do to them. Constraints are part of the statements: an INSERT or an
--   UPDATE that breaks a CHECK, a unique index or a foreign key answers an error and changes nothing.
-- - World: the monad in which handlers run. It carries the tables, a counter of the statements sent,
--   and an environment that decides which statements fail and supplies the time, the generated ids
--   and the texts of uuids. A failed statement has no effect, as in PostgreSQL; the model has no
--   transactions, since none of the modelled code opens one, and requests run one after another.
-- - Inventory (baskety/internal/inventory, baskety/gen/sqlc/inventor*.sql.go): Queries are the
--   statements, Repository repository_pg.go, Dto dto.go, Service service.go, with the names of the
--   Go methods in snake case; Request lists the methods that the API reaches. The other modules
--   are about the service: Scope its scope checks, Integrity and Isolation all methods together,
--   Stock, FirstBatch, Effective, Fefo, Decision, Deleted and Listed single ones, with Counted for
--   what is in stock.
-- - Grocery (baskety/internal/grocery, baskety/gen/sqlc/grocery_*.sql.go): the same files. Its
--   service calls the inventory service for the scope of an inventory and for what is in stock.
--   Generate is about AutoGenerate, Errors about the translation of errors (mapInventoryErr).
-- - Http, and Handler in each component: handler.go and routes.go, with the order of the checks and
--   the status of each error. Handler.Routes lists the routes, Handler.Served is about them; Api.Gate
--   puts the two middlewares in front of the inventory routes, as baskety/cmd/baskety/main.go does.
-- - Receipt (baskety/internal/receipt, baskety/cmd/baskety/inventory_lookup.go,
--   baskety/gen/sqlc/receipt_*.sql.go, purchase_transactions.sql.go): Queries, Repository, Dto,
--   Service, Lookup, Worker (worker.go) and Handler. Settled is about the job that reads a scan,
--   Upload about the upload together with its job, Commit about CommitScan; Request lists the methods. JobQueue is jobqueue.go:
--   the channel and its workers as a step relation, with Order, Drain and Accounts about it.
-- - Catalog (baskety/internal/catalog, baskety/gen/sqlc/stores.sql.go, catalog_entries.sql.go): the
--   same files, with the worker that turns a purchase into a store, a catalog entry and stock.
-- - Auth (baskety/internal/auth, baskety/gen/sqlc/users.sql.go, sessions.sql.go) and Household
--   (baskety/internal/household, baskety/gen/sqlc/households.sql.go): the same files, and Middleware
--   (middleware.go). Auth.Admission and Household.Scope are about whom the two middlewares let
--   through, Auth.Sessions about tokens, Household.Membership about members.
-- - Outside: what the code gets from the file store, the text recognition and the language model.
--   These calls are part of the environment of World, each may fail, and so may an Enqueue, whose
--   context may be cancelled. World keeps the jobs that were enqueued.
-- - Integrity: primary keys and foreign keys as an invariant of the tables.
-- - Fixture: a small database, on which the tests of each component run.
--
-- Bounds of the model: a uuid is a natural number, and a timestamp one of microseconds; a quantity
-- that the inventory API is sent, a float64, is the decimal that FormatFloat writes for it, and its
-- column rounds it to thousandths (Base.Decimal); the other quantities and the confidences, float64
-- in the code and numeric in the tables, are whole numbers of thousandths, so that round3 is the
-- identity and those of the grocery and receipt requests are taken to have three places at most;
-- prices are whole minor units; a Go int is unbounded, and its conversion to int32 wraps; a char(3)
-- is padded. Errors keep the innermost error of their chain, all that errors.Is can see, and lose
-- their texts. Loops over rows are structural recursion, so no fuel is needed. The column
-- grocery_list_item_id of the purchases is left out, since no statement writes it. The lookup of
-- inventory items, an optional part of the receipt worker, is taken to be wired, as in main.go.
--
-- Not modelled: settings; the share links of inventories, with their table, whose rows a deleted
-- inventory takes along; the HTTP calls of the adapters to OCR
-- and LLM and the files of the storage; start-up; statements and repository methods that nothing
-- calls (GetStore, the merge and the update of catalog entries, PinGroceryList); the texts of replies
-- and the decoding of JSON, whose outcome is an argument of the handlers. The lines of a list may link
-- to an item of another household (AddItem does not check it), and a link goes with its item; so what
-- an inventory reads of the tables, in Inventory.Isolation, leaves the lines of its lists out.
pub mod Api
pub mod Outside
pub mod Receipt
pub mod Catalog
pub mod Auth
pub mod Household
pub mod Http
pub mod Base
pub mod Schema
pub mod Table
pub mod World
pub mod Sql
pub mod Integrity
pub mod Inventory
pub mod Grocery
pub mod Fixture
