-- ===== src/Lib.antt =====
-- A CONNECT-IP server: QUIC clients with a known key get tunnel addresses, and the server moves their
-- IP packets between a TUN device and their connections. The program's parts and the files on them:
--
--   * The parser of inner packets, internal/connectip/packet (Parse, parseIPv4, parseIPv6,
--     walkIPv6Extensions, valid, IsTCPOrUDPDestinationPort): Packet.antt. A packet is a list of bytes,
--     an index or a slice out of range is a panic, a value of its own (Base/Outcome.antt). The walk over
--     IPv6 extension headers has the eight rounds of maxIPv6ExtensionHeaders, by recursion on their
--     number. Packet/Bounds.antt, Packet/Chain.antt, Packet/RoundTrip.antt and Packet/Port.antt are
--     proofs.
--   * Sessions, internal/connectip/session/manager.go (Session, NewWithAddresses, OwnsAddress):
--     Session.antt. A session's connection, callback and registry are flags; what Close does to its
--     context, its connection and its callback is counted in the session.
--   * The registry of the same file (Manager, Replace, RemoveIfCurrent, Lookup, Snapshot, Len, Close):
--     Manager.antt and its children. A pointer to a session is a number, the heap maps these to
--     sessions, and the two maps are association lists (Dict.antt). Go's order of iteration over a
--     map is the order of insertion here. Manager/Reach.antt lets the calls of
--     several goroutines interleave, in steps between which another goroutine can come in, and
--     Manager/Shutdown.antt is the closing of all sessions at the server's end, of cmd/jiejie-masque/main.go.
--   * Keys of clients, internal/connectip/auth/auth.go: Auth.antt.
--   * The configuration, internal/connectip/config/config.go (Validate, Load, ResolvedClients,
--     ServerAddresses, optionalPrefix): Config.antt and Config/Load.antt, with proofs in the files
--     beside the latter; Config/Usable.antt and Config/Acceptance.antt describe what is accepted without
--     the program's own tests. An error is a constructor for its message.
--   * The datapath of cmd/jiejie-masque/main.go (sessionReaderWithAddresses, prepareSessionPacket,
--     tunDispatcher, dispatchTUNPacket): Datapath.antt. Each loop takes a list of turns, which hold what
--     its environment answers in one round, so that there is a round for every turn.
--   * The choice of a congestion controller, cmd/jiejie-masque/quic_cc.go: Congestion.antt.
--   * The handling of a request, cmd/jiejie-masque/main.go (handleRequest, requestTemplate, byKey and
--     VerifyConnection): Handler.antt, up to the point where it waits for the session to end.
--     Handler/Lifetime.antt has the worlds that requests and closings, one after another, lead to.
--   * The TUN device, internal/connectip/tunnel/tun_linux.go (openTun, Configure, ConfigureAddresses,
--     configureInterface): Tunnel.antt. Every call of the kernel, and the command that sets an IPv6
--     address, is an event of a history, and the kernel's answer to a call may depend on the whole
--     history. Tunnel/Setup.antt gives the requests their meaning for the interface, whose flags are a
--     word of 16 bits that the kernel tells and is given, and Tunnel/Setting.antt runs them; in
--     Tunnel/Descriptors.antt stands what is left open, and in Tunnel/Server.antt what the
--     addresses of a configuration lead to. Tunnel/Counters.antt has the counters of Read, Write and
--     Stats, of 64 bits each.
--   * The check of an interface, internal/connectip/tunnel/health_linux.go (CheckInterface,
--     normalizeInterfacePrefix): Health.antt, with proofs in the files beside it;
--     Health/Configured.antt joins it to the TUN device; package net gives IPv4 addresses there in their
--     form of 16 bytes.
--   * Keys, cmd/jiejie-masque/keygen.go and server_keygen.go (generateClientKey,
--     generateServerCertificate, writePEM): Keygen.antt. The disk is an association list from files to
--     their mode and bytes; two paths may name one file.
--   * The configuration of a client, cmd/jiejie-masque/mihomo_config.go: ClientConfig.antt. The map
--     that becomes YAML is a record, with options for the entries that may be missing.
--   * The server's run, cmd/jiejie-masque/main.go (serveConnectIPArgs) and check_config.go: Serve.antt, from
--     the plan that the configuration gives to the deferred closes. What is opened and closed stands in
--     the kernel's history and in a log, where the QUIC transport, a value on the packet connection, and
--     the listener made with it are events of their own.
--   * The commands, cmd/jiejie-masque/unified_main.go (main) and the start of serveConnectIPArgs:
--     Command.antt.
--   * What configuration, registry and datapath give together: System.antt.
--
-- The parts meet where the code's calls do: the datapath parses with the parser and looks sessions up
-- in the registry, and the registry's sessions carry the addresses and keys that the configuration
-- resolved. Net/Address.antt and Net/Network.antt define the addresses and prefixes of Go's net/netip,
-- as its documentation describes them. Base.antt passes on what every file uses.
--
-- Parameters of the model, as arguments: netip.ParsePrefix, the file system, YAML and PEM, the flags'
-- parser, base64, SHA-256, X.509 and elliptic-curve encodings, what connections, contexts, the kernel
-- and package net answer.
--
-- The generation of a session wraps around at 2 ^ 64. Lengths and offsets are natural numbers: the
-- largest that the parser computes is below 2 ^ 17.
--
-- Not modelled: the non-Linux stubs (internal/connectip/tunnel); the
-- settings of TLS and QUIC; what the commands print; logging; locks. The registry's lock is taken to
-- make its critical sections atomic.
pub mod Base
pub mod Packet
pub mod Net
pub mod Dict
pub mod Session
pub mod Manager
pub mod Auth
pub mod Config
pub mod Tunnel
pub mod Health
pub mod Keygen
pub mod ClientConfig
pub mod Serve
pub mod Command
pub mod Handler
pub mod System
pub mod Congestion
pub mod Datapath
