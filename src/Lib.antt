-- ===== src/Lib.antt =====
-- Axonyx Runtime: a model of the reactive core, of what runs it, of the SQL that plans become, and of
-- the guards around requests, sessions and logins.
--
-- The compiler of .ax pages (crates/axonyx-core) turns an expression over reactive states into a
-- small bytecode program; the browser hands the program and the values of the states to a
-- WebAssembly module (crates/axonyx-state-wasm), which decodes the values, runs the program on a
-- stack machine and encodes the result. On the server (crates/axonyx-runtime), a throttle admits
-- login attempts, and a session manager issues signed cookies and CSRF proofs for the sessions in
-- a store. A request passes the middleware of its route and, if it changes something, the checks of
-- its origin and of its CSRF proof; what it asks of a database is compiled to SQL (crates/axonyx-core).
--
-- - Prelude: shared names, Boolean tests, the monad of Option, lists by native numbers
--   (Prelude/Tests, Prelude/Lists), signed 64-bit integers with checked operations (Prelude/Int),
--   bytes, little-endian words and UTF-8 (Prelude/Bytes).
-- - StateWasm: crates/axonyx-state-wasm/src/lib.rs. StateWasm/Value is ExprValue; StateWasm/Cursor
--   is take, read_u32 and push_u32; StateWasm/Frame is decode_expr_value, encode_expr_value and
--   validate_value_frame, with an independent description of the format in Frame/Layout;
--   StateWasm/Operators is evaluate_binary_opcode and what it calls; StateWasm/Machine is
--   evaluate_expression_program (one arm of its match is `execute`, one round of its loop is
--   `step`, the loop is `run`) and evaluate_expression_request. StateWasm/Each is
--   reconcile_key_request and render_each_request; StateWasm/Abi is the exported functions, of
--   which three answer in the shared buffer (`serve`).
-- - Reactive: crates/axonyx-core/src/ax_parser_auto.rs and ax_ast.rs. Reactive/Expr is AxExpr,
--   Reactive/Compiler is compile_reactive_expression_node with its helpers, Reactive/Meaning is an
--   evaluator without a machine, Reactive/References is expression_references_state. Reactive/Inline
--   is expand_pure_reactive_expression, which puts the bodies of functions (AxFunctionDef) in place of
--   their calls; Inline/Meaning evaluates an expression with its functions called by name. Reactive/Plan
--   is compile_reactive_expression, from the expansion to the plan that the page carries.
--   Reactive/Running, Collections, Dependencies, Literals and Operations carry the proofs about
--   the code that is emitted, Inline/Stacks, Enters, Clean, Calls and Parts those about the
--   expansion, and Plan/Listed those about the states of a plan.
-- - Throttle: crates/axonyx-runtime/src/login_throttle.rs. The record Throttle is AxLoginThrottle,
--   `acquire_at` its method, in the parts retain, find and decide.
-- - Session: crates/axonyx-runtime/src/session.rs and session/csrf.rs, with AxAuth, AxCookie and
--   the hexadecimal text of crates/axonyx-runtime/src/server.rs (Session/Tokens, Session/Cookie,
--   Session/Hex). Session/Store is AxSession and the trait AxSessionStore, as a record of
--   operations and a record of what they promise; Session/Memory is the store in memory;
--   Session/Manager is the policy and AxSessionManager over any store. The manager's operations
--   return an outcome and the state of the store.
-- - Sql: crates/axonyx-core/src/ax_sql.rs. Sql/Plan is the plans, dialects and errors, Sql/Lists is
--   filter_list_values, Sql/Clauses the clauses of a filter, Sql/Compile the four compile
--   functions. Sql/Trimming, Counting, Marks, Params and Bare carry lemmas on their texts.
-- - Http: one request of crates/axonyx-runtime/src/server.rs and its guards. Http/Text is what the
--   code uses of Rust's str, Http/Request is AxHttpRequest, Http/Url its form fields and url_encode of
--   lib.rs, Http/Response is AxHttpResponse and AxBody, Http/Events is AxSseEvent, Http/Middleware is
--   AxMiddlewareChain, the route table and AxEnv (backend.rs); Http/Origin is mutation_security.rs,
--   Http/Csrf is csrf_http.rs over Session/Tokens, Http/Routing is match_preview_route and
--   normalize_preview_request_path of lib.rs. Http/Splits and Http/Decimal carry lemmas on their texts,
--   Origin/Described says in other words what the check of an origin asks, and Events/Reader is a reader
--   of event streams.
-- - Validation: crates/axonyx-runtime/src/validation.rs, the functions email and escape.
--
-- The compiler's output is the machine's input, and the store's promises are what the manager's
-- theorems rest on; the CSRF proofs of Http/Csrf are those of Session/Tokens, and its check of a
-- token's source is Http/Origin's. The throttle stands alone in front of a login.
--
-- Representation. A `String` is the list of its UTF-8 bytes (in Sql: of its chars), a `BTreeMap` the
-- list of its entries in order, an `f64` its bit pattern, `usize` has the 32 bits of wasm32 (on the
-- server 64), a `&mut` argument is passed in and returned, a stack has its top at the
-- head, and an early `return None` or `?` is the monad of Option. The arithmetic of `f64`, its
-- conversion from `i64` and its decimal rendering are the fields of the record Floats, a
-- parameter: they belong to the hardware and to the standard library. Error texts of the compiler
-- are constructors of CompileError, and those of the expansion of ExpandError.
--
-- Times: an `Instant` is a number of nanoseconds; an `i64` of seconds is the number 2^63 above it
-- (Session/Time). SHA-256 and HMAC-SHA256, of other crates, are parameters; where a theorem needs
-- that a MAC has 32 bytes, it says so. Parameters too are the text of an IPv6 address, of the standard library,
-- the test for a UUID and the reading and writing of JSON, of other crates. The runtime that
-- Http/Csrf calls is a record of its environment and its session lookup; the time and a new UUID are
-- arguments, and `none` is an error of the clock or of the runtime.
--
-- Fuel. The decoder recurses on the levels that are left below the depth limit of 32, which the
-- code checks itself. The machine's loop takes as many rounds as the program has bytes; each round
-- moves the cursor, so the number does not matter from there on. The
-- expansion of calls recurses on fuel too: each function and each parameter is entered once at most
-- before the code refuses it, so one round more than their number is enough.
--
-- Not modelled: parsing of .ax text, lowering and code generation, HTML rendering, the sockets and
-- the adapters of the HTTP server, multipart bodies, the database backends and the editor services.
mod Prelude
pub mod StateWasm
pub mod Reactive
pub mod Throttle
pub mod Session
pub mod Validation
pub mod Sql
pub mod Http
