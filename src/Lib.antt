-- ===== src/Lib.antt =====
-- Verification of the Godel Design application, a web application on Next.js and Supabase that takes
-- the requests of customers and follows the orders made from them until they are delivered.
--
-- The parts and how they interact. A page or an action of src/app calls a service of src/lib. The
-- service reads its input with the validators, asks for the profile that is signed in and for its
-- permission, reads the rows it needs through the client of the database, and lets a function of the
-- database (supabase/migrations) make the change, which tests again what the service tested. The
-- messages that the database raises are classified by their texts. Paths below are from the root of
-- the repository.
--
-- Which file models what:
--   Prelude        the names of the libraries, and lemmas on lists and Boolean tests.
--   JsText         strings as lists of UTF-16 code units: trim, split, replace, includes.
--   JsSort         `sort` of arrays.
--   JsNumber       numbers of JavaScript: safe integers, and the rounding to doubles.
--   JsUnicode      what is asked of the tables of Unicode.
--   JsMap          `Map` with texts as keys.
--   Database       the enumerations of src/types/database.types.ts.
--   Backend        what a query answers, and a profile (src/lib/auth/current-user.ts).
--   Validators     src/lib/validators: Form is form.ts, Uuid uuid.ts, Date date.ts. Date.Calendar,
--                  Spelling and Order set the test of a date against a calendar.
--   Permissions    src/lib/permissions: permissions.ts, and routes.ts in Routes.
--   Pedidos        src/lib/pedidos, orders: Status is status.ts, TaskProgress task-progress.ts,
--                  UpdateStatus update-internal-pedido-status.ts and ensure-pedido-review-started.ts,
--                  Payments payment-validation.ts, payment-errors.ts and payment-mappers.ts,
--                  UpdatePayment update-pedido-payment.ts, OrderValidation order-validation.ts
--                  (Creation is the creation of an order). StatusRpc and PaymentRpc are the
--                  functions `actualizar_estado_pedido` and `actualizar_pago_pedido` of
--                  supabase/migrations/20260811131826_03_business_rpcs.sql.
--   Solicitudes    src/lib/solicitudes, requests: Status is status.ts, UpdateStatus
--                  update-internal-solicitud-status.ts, ReviewStart
--                  ensure-solicitud-review-started.ts, StatusRpc `actualizar_estado_solicitud`,
--                  PublicRequest public-request-validation.ts and the files beside it,
--                  PublicCreation public-reference.ts, create-public-solicitud-without-upload.ts
--                  and src/lib/service-types/get-public-service-type-by-id.ts.
--   Storage        src/lib/storage: FileName is file-name.ts, Descriptors
--                  upload-control/descriptors.ts with constants.ts.
--   Usuarios       src/lib/usuarios: PasswordReset is reset-internal-user-password.ts, with
--                  Validation (reset-internal-user-password-validation.ts), Audit (the calls of the
--                  database with their second tries) and Service (the whole). Database has the
--                  three functions of 20260811131828_05_auth_admin_user_lifecycle.sql, Remote the
--                  client over them, whose calls may be lost; Stages, Calls, Completion, Beginning,
--                  Recovery, Outcome and Flow follow an attempt through the code. InitialPassword is
--                  initial-password-validation.ts and complete-initial-password-change.ts of
--                  src/lib/auth, with `complete_initial_password_change` of the same migration.
--                  UserValidation is user-validation.ts with roles.ts.
--   Pagination     src/lib/pagination.ts.
--   Dashboard      src/lib/dashboard: Helpers is helpers.ts, WorkItems the rows of
--                  get-dashboard-work-items.ts with their order and items, Board the groups of
--                  orders, Pending the requests that wait and the whole of that file, WorkerSummary
--                  get-worker-dashboard.ts. Reads has the queries, with the progress of orders by
--                  src/lib/pedidos/list-internal-pedidos-progress.ts.
--   Tests          the theorems at concrete inputs, and runs of the definitions.
-- A definition has the name of the function it models, in snake case (`getPedidoStatusFlow` is
-- `get_pedido_status_flow`); a part of a function that is a definition of its own says so above it.
--
-- State and effects. A service takes the store of the database as a type of worlds, and its client
-- as a record of functions on worlds: a query gives its answer, an error or a throw, and the call
-- that changes something gives a world as well. The modules named EndToEnd put in the modelled
-- function of the database. `await` orders the steps as they are written, and each call of the
-- database is one step, which is what its row locks give. What is logged is left out.
--
-- Bounds and fuel. Lengths, sizes and amounts are native natural numbers; an amount is its number of
-- hundredths, which the doubles of the code determine up to their limit of 9999999999.99. Rounding a
-- whole number to a double drops one bit for each unit of fuel: 1024 are given, and a number below
-- 2 ^ 1024 drops 971. `Date.UTC` carries a day of 1 to 99 into the next months with a fuel of 4: a
-- month has at least 28 days, so that three steps are enough. The loop of the beginning of a
-- reset has the two rounds of the code, the creation of a request its five. The batches of orders
-- whose tasks are read are at most as many as the orders; an answer with tasks has at most 1000 rows
-- (supabase/config.toml), and of a longer one nothing is assumed. The other loops are recursions on
-- lists.
--
-- What is a parameter: the clients of Supabase; the clock; of Unicode, `toLowerCase` and
-- `normalize("NFD")`; `localeCompare`; random numbers; of floating point, the laws of IEEE 754 that
-- the bounds on percentages need.
--
-- What is not modelled: the interface (src/components, src/app), the construction of clients
-- (src/lib/supabase), scripts and deployment; and of src/lib the validation of customers, the
-- services that create and change users, the templates of tasks, the activity and the summary of
-- the dashboard, the tracking of a request by its reference, and the parsers and routes of uploads.
pub mod Prelude
pub mod JsSort
pub mod JsText
pub mod JsMap
pub mod JsNumber
pub mod JsUnicode
pub mod Validators
pub mod Database
pub mod Permissions
pub mod Backend
pub mod Pedidos
pub mod Storage
pub mod Solicitudes
pub mod Pagination
pub mod Usuarios
pub mod Dashboard
mod Tests
