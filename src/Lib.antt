-- ===== src/Lib.antt =====
-- GeserDesk: one keyboard and one mouse for several machines. The server holds the devices; when the
-- pointer crosses an edge of the desk it grabs them and sends their input to the client on that side.
--
-- The parts, and where they are:
--   Prelude      lists, options and maps; Prelude/Int is the i32 and i64 arithmetic of the code
--   Geometry     crates/geserdesk-proto/src/geometry.rs: points, rectangles, ScreenInfo
--   Edge         the edges of a screen and their set, of the same file
--   Input, Keys  crates/geserdesk-proto/src/input.rs and keys.rs: events of the devices, key rules
--   Version      crates/geserdesk-proto/src/version.rs: negotiation of the protocol's version
--   Message      crates/geserdesk-proto/src/message.rs, and what the capture backend says and is told
--                (crates/geserdesk-platform/src/lib.rs)
--   Chunks       crates/geserdesk-proto/src/clipboard.rs: a transfer in chunks
--   Layout       crates/geserdesk-server/src/layout.rs: which screen is beyond which edge
--   Switch       the same file's SwitchPolicy and SwitchState: may the pointer cross now?
--   Floats       f64, a parameter: a record of the operations used, with what IEEE 754 says of them
--   Desk         crates/geserdesk-server/src/desk.rs: Frame, nearest_point, inset_clamp; Desk/Origins is
--                effective_origins, which places machines on the virtual desk
--   Router       crates/geserdesk-server/src/router.rs: Core and its handlers. Moves has enter, go_local and
--                forward, Pointer on_pointer, Motion on_motion, Hotkey on_hotkey and on_grab_failed,
--                KeyInput on_key, Handlers the rest and `handle`, which dispatches to all of them.
--                Session is an abstract view of the router: who has the input, and are the devices grabbed
--   Content      crates/geserdesk-proto/src/clipboard.rs: ClipboardContent
--   Inbound      crates/geserdesk-clipboard/src/inbound.rs: the receiving side of a clipboard push. The decoder of
--                its contents is a parameter
--   Hub          crates/geserdesk-server/src/hub.rs: the registry of clients. Hub/Calls makes a run of it a
--                sequence of calls, Hub/Told says what a listener learns from its events
--   Feed         run_shared of router.rs: what the router does with the events of the hub
--   Monitors     sanitize_monitors of crates/geserdesk-server/src/net.rs
--   Codec        crates/geserdesk-proto/src/codec.rs: messages in frames over a stream; Codec/Framing is both ends
--   Files        FileEntry and FileManifest of crates/geserdesk-proto/src/clipboard.rs. Of crates/geserdesk-clipboard/src,
--                Files/Owner is FileOwner of files.rs, Files/Stage stage.rs and Files/Pull pull.rs. Files/Relay is
--                FileRouter of crates/geserdesk-server/src/files.rs
--   Sync         crates/geserdesk-clipboard/src/sync.rs, and the limits of its lib.rs
--   Consumer     crates/geserdesk-proto/src/consumer.rs: the special keys and their names
--   Client       Client/Inject is crates/geserdesk-client/src/inject.rs, with its choice of keys in Client/Inject/Keys;
--                Client/Clip is ClientClipboard of crates/geserdesk-client/src/net.rs, and Client/Clip/Events makes
--                what happens on its connection a sequence. Client/Reconnect is the same file's connect_with_status
--   Examples     tests, and the theorems at concrete inputs
--
-- How they interact: a capture event goes to `handle` with the time. The router finds the machine at a
-- desk point with the frames of Desk, asks Switch whether to cross, and answers with a list of actions, messages to
-- clients and commands to the capture backend, in order. Sessions call the hub, with monitors from
-- sanitize_monitors; the hub tells the router, which Feed models, who is connected. A client gives key and mouse
-- messages to Client/Inject. A copy of files is announced by its owner (Client/Clip), asked for by Files/Pull, passed
-- on by Files/Relay over the hub, and served by Files/Owner.
--
-- Conventions. A method with `&mut self` takes the record and returns the changed one beside its result. A
-- panic (a clamp with crossed bounds, an index out of range, a missing key) is `none` of Option.
-- Arithmetic on i32 and i64 wraps around, as in the release profile, which has no overflow checks; a build
-- with those checks panics there instead. The cast f64 to i32 saturates and is a field of Floats, like the other
-- operations of f64. A BTreeMap or HashMap is a list of pairs with one per key; where the code's order of
-- iteration matters it sorts the keys, and so does the model. Strings are compared as the
-- library's strings.
--
-- Fuel: effective_origins takes as fuel the number of rounds of its breadth-first search. A machine is queued when
-- it gets its place, once, so the number of screens is enough, which is what the router gives. The loop over
-- a file of a pull takes its size as fuel, since every chunk it goes on with has a byte. `stream` cuts a list into at most as
-- many chunks as it has bytes.
--
-- Not modelled: the asynchronous loops around these parts (the delivery of actions in run_shared, the
-- sessions in net.rs of server and client, the relay loop of clipboard.rs), interleavings inside one operation of
-- the hub or of the relay of files, TLS, the walk that collects files, the formats of configuration and
-- trust stores, the backends of the operating systems, the applications. They are
-- I/O and calls of other libraries around the logic modelled here.
mod Prelude
pub mod Geometry
pub mod Edge
pub mod Layout
pub mod Switch
pub mod Floats
pub mod Desk
pub mod Input
pub mod Keys
pub mod Consumer
pub mod Client
pub mod Version
pub mod Chunks
pub mod Codec
pub mod Content
pub mod Inbound
pub mod Message
pub mod Files
pub mod Sync
pub mod Router
pub mod Hub
pub mod Monitors
pub mod Feed
mod Examples
