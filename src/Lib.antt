-- ===== src/Lib.antt =====
-- WireRoute's Go services for Windows: a model of their own logic, and what it is proved to do.
--
-- The programs are a tunnel service, which brings up one WireGuard tunnel, a manager service, which
-- keeps the tunnels and answers the user interface, and the updater. A tunnel is described by a file
-- in wg-quick's format. The tunnel service reads it, sets up the adapter, and, where a peer takes all
-- traffic, has the firewall block what would leave outside the tunnel. This library is about the
-- firewall, the names and the configurations of tunnels, the updater's choice of a release, and the
-- lines of the ring log, which all the services write to; and about the manager's protocol, with the
-- methods behind it, the addresses and the MTU of a tunnel's adapter, and the highlighter of the
-- configuration editor.
--
-- Firewall (tunnel/firewall)
--   Types       the structures and constants of types_windows.go and types_windows_64.go
--   Engine      the calls of the Windows Filtering Platform, as a record of functions on a state of
--               their own, with the documented laws of sessions, transactions and objects
--   Rules       one function for each function of rules.go; helpers.go's display data and weights
--   Blocker     blocker.go: sessions, the transaction of helpers.go, EnableFirewall, DisableFirewall;
--               the package variable wfpSession is a field of the state World
--   Classifier  how the platform decides about a connection: sublayers, weights, conditions
--   Policy      an independent description of the traffic that is to pass, and how the rules decide
--               about a connection
--   Enforced    both together, for EnableFirewall
--   Samples     an engine in memory that has the laws
-- Conf (conf)
--   Name        name.go: validity, the natural order, the name of the service
--   Netip       what the code uses of net/netip, on addresses as numbers
--   Config      config.go: the types; in Operations, IntersectsWith, DeduplicateNetworkEntries (the
--               loop that moves entries within their slice), Redact and the clamping of NewPrivateKey
--   Parser      parser.go: Values has the parsers of values, Comments the comments of a section, and
--               Quick the loop of FromWgQuick, whose local variables are the record Parsing
--   Writer      writer.go: ToWgQuick
--   Driver      writer.go, parser.go: the driver's structures of a configuration, and in Back that
--               they are read back
--   RoundTrip   parser.go behind writer.go: each value, each line, each section, and the whole
--   Store       store.go: the files of the configurations and their names
-- Updater (updater)
--   Versions    versions.go: the comparison of versions and findCandidate
--   Signify     signify.go: readFileList
-- Ring          ringlogger.go: WriteWithTimestamp, each write as one step, and what readers show of a
--               line; the log is a list of 2048 lines and the 32-bit index of the next
-- Manager (manager)
--   Host        what the manager works on, as a record of functions on a state of their own: the stored
--               configurations and the services of Windows
--   Service     ipc_server.go: the methods of ManagerService; tunneltracker.go's global state
--   Frames      protocol_v1.go: frames, read and written
--   Available   protocol_v1.go: the name of a tunnel for a display name
--   Display     protocol_v1.go: display names and the comments that keep them
--   Profiles    protocol_v1.go: profiles.list, profiles.get and profiles.import
--   Protocol    protocol_v1.go: requests and dispatch
--   Server      protocol_v1.go: serve, on all that a client sends
--   Events      protocol_v1.go: notifications
-- Tunnel (tunnel)
--   Address     addressconfig.go: configureInterface and its attempts, and enableFirewall's choice
--   Mtu         mtumonitor.go: the default route and the MTU after it
--   Watcher     interfacewatcher.go: the events of the interface, each a step under the lock
--   RuntimeLog  runtime_log.go: the log of a run, and in Bound the size of its file
--   RuntimeMetrics
--               runtime_metrics.go: the sums over the peers, and their file
-- Highlighter (ui/syntax/highlighter.go)
--               Validators and Fields have the tests of a span, Values the spans of a value, Scan the
--               loop of highlightConfig, whose variables are the record Scanning
-- Base          lists, texts, results, numbers in text, comparisons, and a monad of state and error
--
-- How the code is written here. A Go function that returns an error is a function into Result; one
-- that also changes state is an Action. Strings are lists of code points, in the updater and the
-- ring log of bytes; a map is the list of its entries, and where the code ranges over one the
-- order of the list stands for the order that Go happens to choose. Integers are natural numbers;
-- where a value has a width, its range is checked as the code checks it, and strconv's range
-- errors are those of 64 bits, of 32 for a routing table and of 16 for a part of a version. Loops
-- are recursions on the list they range over, or on the number of rounds that is left. Where the
-- code has no such number, the rounds are as many as there are bytes to read or to write: each
-- frame that is read has five bytes or more, each write takes one or more, and so do the rounds of
-- isValidIPv6; itoa has more rounds than digits. A nil pointer that the code would follow is an
-- error of its own, nil_dereference.
--
-- What is outside. JSON, the host's files and services, the filtering platform, the settings and
-- callbacks of the network, the text of IP addresses, base64, lower case beyond ASCII and ed25519
-- are records of functions, which theorems take as arguments. The texts of errors are
-- constructors. Not modelled: the readers' loops of the ring log, the older messages of
-- ipc_client.go, and all that is input and output, user interface, binding or installer.
pub mod Base
pub mod Firewall
pub mod Conf
pub mod Updater
pub mod Ring
pub mod Manager
pub mod Highlighter
pub mod Tunnel
