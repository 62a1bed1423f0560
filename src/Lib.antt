-- ===== src/Lib.antt =====
-- nats-kv is a key-value service on NATS JetStream. This library is about its two front ends, the
-- Spin applications ui/nats-kv-user/src/lib.rs and ui/nats-kv-admin/src/lib.rs. Each is one HTTP
-- handler behind an access gate: a request with the gate's token, in a cookie or in `?access=`, is
-- answered with a page or handed on to an upstream (the key-value adapter, the control plane, the
-- platform's own store, or a fixed address that measures latency), and the upstream's answer is
-- wrapped in JSON for the scripts in the pages.
--
-- The files and the code:
--
--   Prelude      names and lemmas that all parts share: lists, bits, Boolean tests
--   Text         Rust's `str` on lists of code points: split, trim, strip_prefix, replace, decimal
--   Spin         what the handlers read and build (Request, Response, OutRequest), and the host:
--                `Host` gives each answer of `spin_sdk::http::send`, of the clock, of the variables
--                and of the store as a function of all that was asked before; `Spin.Io` threads the
--                trace of those calls and stops at the first error that `?` passes on
--   Gate         `is_ui_authed` and `is_admin_authed`, which differ in cookie and token alone
--   Base64       `b64encode`, and RFC 4648's decoder as its specification
--   UserApp      ui/nats-kv-user/src/lib.rs: Config (constants, `is_public_path`, `html`,
--                `render_gate_page`, `redirect_with_cookie`), Envelope (the JSON texts), Proxy
--                (`call_nats`, `call_control`, `forward_invite_request`, `call_cosmos`, `json_err`
--                and the probes), Handler (`handle`); Json is a reader of JSON objects, the
--                specification that the answers are held against;
--                Outbound is the requests to the adapter and to the control plane
--                written out part by part, and the headers that the adapter answers with, which the
--                theorems compare the code with; Outbound.Built shows that the code builds and reads
--                them so
--   AdminApp     ui/nats-kv-admin/src/lib.rs: `is_admin_authed`, `handle`, `proxy`
--   Browser      what the scripts of the pages run in: `Browser` gives each answer of `fetch`, of the
--                user and of the platform as a function of all that was done before; a program threads
--                the trace of its effects and stops where the script throws. Values are JSON values as
--                a script reads them, Keeps the rules for a property that every step keeps, Runs what a
--                program that did not throw went through
--   AdminPage    the script of the admin's page: authFetch, the token and escapeHtml; Rows is the
--                markup of the tables, Buttons and Approval are the operations behind the buttons.
--                Calls, Arrivals, Html and Markup are about what is called, where it arrives, and what
--                a visitor's words do to the page
--   Pages        the scripts in the pages of ui/nats-kv-user/src/lib.rs:
--                Session    userKey, authedFetch, confirmLogout, the key form and CLAIM_HTML; Nav is
--                           renderNav, Logout the dialog of confirmLogout
--                Dashboard  DASH_HTML: Preview is refreshPlacementPreview, where the previews and their
--                           answers come in any order; Placement is renderPlacement; Buckets and
--                           BucketRows are createBucket, loadBuckets and loadMe; Start is the start of
--                           the page
--                Picker     the pickers of PLAY_HTML, LOADTEST_HTML and VERIFY_HTML, with what the
--                           pages know of each bucket
--                Play       what op and runBench of PLAY_HTML fetch; Answer is fetchOp with what it
--                           shows, and the demonstrations; Bench is stats, Columns are the two
--                           loops of runBench, whose answers come in any order, and Results what it
--                           shows
--                Topology   TOPOLOGY_HTML: REGIONS and proj, and which buckets loadAll shows; Peers,
--                           Drawing and Detail are what selectBucket draws and says, Page is loadAll
--                           and selectBucket, Refresh is autoRefresh
--                Percentile, LoadTest   `p`, `runLoad` and `stopLoad` of LOADTEST_HTML: a step is what
--                           happens between two awaits, and the workers, the ticker and a stop come in
--                           any order; Buttons is what the page shows, and the guard of `runLoad`
--                Verify     `call`, `TESTS` and `runVerify` of VERIFY_HTML, over any service; Through is
--                           the service that the application makes of the adapter, Table is `setRow`
--                           and the table
--                GatePage   `useToken` and `submitRequest` of GATE_HTML
--                Uri        `encodeURIComponent` of ECMA-262
--   Tests        a host, requests, runs on them, and the theorems applied to them
--
-- A handler is a function from the trace so far to a result and the trace afterwards, with the newest
-- effect first. `handle` is cut where one part falls through to the next: the gate, `served`,
-- `pages`, `probes`, `proxies`. The theorems hold for every host and for every text of the pages,
-- which are fields of `Assets`.
--
-- The scripts of the pages call the handlers: a call of the admin's page or of the playground is
-- followed to the upstream that it reaches, with the request that the browser makes of it described
-- by equations on its path and its headers, and a call of the verify page from the script to the
-- adapter and back. Where a script starts a load without waiting for it, the load is run on the spot,
-- and may throw without an effect on the rest.
--
-- Numbers are natural numbers; `b64encode` shifts on 32 bits with the wrap-around written out. Times
-- in the pages are microseconds of the browser's clock, a quantile is a number of hundredths, a
-- quotient is kept as a pair, and the rounding of what is shown is left out or, as `toFixed`, the
-- browser's. The one fuel is that of
-- `decimal`, which is given the number itself: the quotient by ten reaches 0 in fewer rounds. Every
-- loop over data is a recursion on its list; the loops of the load test and of the benchmark and the
-- previews of the dashboard are steps, for they end with the clock and with the answers of others.
--
-- Not modelled: the prose and the styles of the pages, which are constants, with the OpenAPI text; the
-- texts with which the verify page explains a result; and `drawWorld`, which has a library from
-- elsewhere draw the outlines of the continents. The Go services in cmd/ and internal/ are upstreams
-- for these applications, and the deployment files hold no program. Of the SDK and of the browser only what the code relies on
-- is stated, as fields of records and as hypotheses of the theorems that need them. A field of the load test
-- without a number is NaN for the page, which then makes no call. Header names
-- are compared in ASCII, as HTTP has them.
pub mod Prelude
pub mod Text
pub mod Base64
pub mod Spin
pub mod Gate
pub mod UserApp
pub mod AdminApp
pub mod Browser
pub mod AdminPage
pub mod Pages
pub mod Tests
