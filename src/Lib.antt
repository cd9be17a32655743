-- ===== src/Lib.antt =====
-- CoreRAD sends IPv6 router advertisements (RAs) from a TOML configuration, answers router
-- solicitations, and reports other routers whose RAs disagree with its own. This library models the
-- parts of the program that decide what is sent and when, and what is reported.
--
-- The parts and how they interact:
--
-- * Config (internal/config): `File.parse` is Parse from the decoded file on. It calls
--   `Interfaces.parse_interfaces` and `parse_interface` (parseInterfaces, parseInterface), which read
--   the fields by Fields (parseDuration, parseMinInterval, parseDefaultLifetime, parsePreference,
--   parseIPPrefix) and the plugins by `Plugins.parse_plugins` (parsePlugins). Options has parsePrefix,
--   parseRoute, parseRDNSS and parseDNSSL; Overlap has the two nested loops that compare all pairs.
--   Advertise is Interface.RouterAdvertisement, which applies the plugins of an interface.
-- * Plugin (internal/plugin/plugin.go): a plugin is a constructor of `Types.Plugin`; Prefixes, Routes
--   and Rdnss expand the wildcards ::/N, ::/0 and :: (the methods current); Lifetimes has the
--   lifetimes of deprecated prefixes and routes; Pref64 has NewPREF64; Apply has the methods Apply, and
--   Text the methods Name and String.
-- * System (internal/system/addresser.go): the addresses and routes that the plugins read. A `World`
--   is what the clock and the operating system answer at one moment. Netlink (addresser_linux.go) makes
--   one from the messages of rtnetlink: AddressesByIndex, LoopbackRoutes and routesByIndex. Portable is
--   netAddresser, for other systems.
-- * System.Dialer (internal/system/dialer.go) has Dialer.init, and its child Rounds the loop of Dial, over
--   any DialFunc and any function of the caller. Socket is the DialFunc of the program (dial, dialNDP,
--   setAutoconf and the function done), which uses Ready (conn.go: lookupInterface, checkInterface).
--   State (state.go) is the interface State with its implementations; State.Sysctl is the one for
--   Linux (interface_linux.go), over the reads and writes of files. State.Autoconf is setAutoconf and its
--   restore with the calls of the State, whose answers are arguments in Socket.
-- * Netstate (internal/netstate): Subscribe, notify and Watch (watcher.go), process, operStateChange and
--   osWatch (watcher_linux.go). Names is Change with its String (change.go).
-- * Server (internal/corerad/server.go, signals_unix.go): BuildTasks, linkStateWatcher, serve, the tasks
--   of the watcher and of the signals, and the terminator. Running has Serve: the tasks in an error
--   group (Errgroup, a package that is a parameter), and the notifications as a step relation. Http
--   has the task of the debug server. BuildTasks subscribes to Netstate; the
--   error of linkStateWatcher is one from which Dialer recovers, and the terminator decides what
--   the advertiser's shutdown sends.
-- * Verify (internal/corerad/verify.go): verifyRAs and its checks, in Problems and Checks, and the texts
--   of newProblem, sourceLLA and ipsStr, in Text.
-- * Advertiser (internal/corerad/advertise.go): Timing has multicastDelay and one turn of the loop of
--   schedule; Messages has handle, send, buildRA and shutdown. handle calls Verify, and buildRA calls
--   Config.Advertise. Goroutines has the goroutines that advertise starts: a move is one of their atomic
--   actions, `step` is what it does to the state they share, and `Reach` the states that interleaved
--   moves lead to, in any order; its child Stopping is a smaller step relation for the time after the
--   cancellation. Session is the function that Run passes to Dialer.Dial: the first
--   advertisement, those of the goroutines, and the shutdown. Running is Run: a session in every round of
--   Dialer.Dial.
-- * Listener (internal/corerad/listener.go): receiveRetry, which reads the messages that the
--   advertiser handles. Its loop has five turns, and recurs on the turns that are left. Listen has the
--   loop of Listen and its deferred calls.
-- * Monitor (internal/corerad/monitor.go): handle, as the calls of metrics that a message makes, and
--   what the gauges show after them; its child Running has monitor and Run. Metrics (metrics.go):
--   constScrape and collectMetrics, which build the advertisement that the advertiser sends; Shown has
--   the samples of one interface; Registered
--   has the metrics that NewMetrics registers and sets.
-- * Api (internal/crhttp/ra.go, handler.go): Pack has packRA and packOptions, Interfaces the route of the
--   interfaces, and Routes NewHandler and ServeHTTP.
-- * Command (cmd/corerad/main.go) is main, from the flags on, and Build (internal/build/build.go) the
--   metadata of a build.
-- * Netip and Ndp stand for the packages net/netip and github.com/mdlayher/ndp as far as the program
--   uses them: their data, and the documented address classes, order, masks and containment.
-- * Common has the shared names: results with do blocks, equality as an interface, lists, sorting,
--   duplicates, and integers over the native numbers. Tests has concrete runs.
--
-- How code becomes definitions. A function with an error result returns a Result: a value, an error
-- or a panic. The texts of errors are constructors that carry the values they report; the prefixes
-- that wrap an error within one function are left out. Go's `seen` sets are lists of what was seen.
-- Times and durations are unbounded integers of nanoseconds; a Time counts from the zero Time. The
-- products 0.33 * max and 0.75 * max of parseMinInterval are integer quotients, exact for the
-- intervals of at most 1800 seconds that reach them. int(d.Seconds()) is the quotient that
-- truncates, exact below 2^22 seconds. slices.SortStableFunc is a stable insertion sort. Where the
-- program compares pointers, an object has a number `ref` as its identity; objects that a call
-- allocates are numbered from `fresh`. The text parsers (durations, prefixes, addresses, TCP
-- addresses), the package ndp, the printers, the forwarding state and the writes are parameters,
-- and nothing is assumed of them but what a theorem's hypotheses state. Random draws are arguments.
-- What the system, the context and the caller's functions answer is given for each call, by its
-- number. The loops of init and serve recur on the iterations that are left, 50 and 40; the loop of
-- Dial has no bound in the program, and recurs on a number of rounds, of which each run of the loop
-- uses one, so that any number above those that run is enough. A wait counts for the time waited
-- only once it has ended. All other loops are over lists, so there is no other fuel. In Goroutines
-- the time passes by moves, a send to a full channel is not possible until it has room, and a move
-- that would panic has no next state; a failed send stops all goroutines at once. A listener whose function
-- fails handles no more messages, and stops no other goroutine, as Listen waits for its context
-- (Listener.Listen). Go maps are lists of their entries in the order in which a loop visits them.
--
-- Not modelled: the decoding of TOML and of the bytes of netlink messages, sockets, logs, the storage of
-- the metrics, HTTP and JSON, and the waits of the advertiser's workers on errC while it stops.
-- Subscribers of the link state watcher drain their channels only after the watch. In the runs of the
-- advertiser and the monitor, what the goroutines of one connection return is given for each round; for
-- the advertiser, what they write is given too, and Session relates it to their moves. The path
-- cleaning of ServeMux and of filepath.Join is left out, as is a test helper (internal/crtest).
pub mod Common
pub mod Netip
pub mod Ndp
pub mod System
pub mod Plugin
pub mod Config
pub mod Verify
pub mod Api
pub mod Advertiser
pub mod Listener
pub mod Errgroup
pub mod Build
pub mod Command
pub mod Monitor
pub mod Metrics
pub mod Netstate
pub mod Server
pub mod Tests
