-- ===== src/Lib.antt =====
-- genomedb: a model of the secret store of this repository, in which a secret is split among
-- nodes, the nodes' keys and names rotate, and an orchestrator keeps the routing table.
--
-- Parts, and where they are modelled.
-- crypto/: gf256.go (init, gfMulSlow, gfMul, gfDiv) is Crypto/Gf256.antt; shamir.go (Split,
-- evalPoly, Combine) is Crypto/Shamir.antt; hashchain.go (BuildChain, VerifyStep) is
-- Crypto/HashChain.antt; aead.go (Encrypt, Decrypt) and wipe.go (Wipe) are Crypto/Aead.antt;
-- ratchet.go (DeriveFragmentRoot, Advance, hkdfExpand, NextPseudoID) is Crypto/Ratchet.antt;
-- seal.go (LoadOrCreateRoot, sealRoot, unsealRoot) is Crypto/Seal.antt.
-- Crypto/Field.antt is the algebra that the proof about Combine needs: fields, polynomials and
-- interpolation at zero.
-- protocol/messages.go is Protocol.antt: a record for each message. protocol/client.go is
-- Protocol/Client.antt, and its SubscribeEvents, the reader of the event stream, is
-- Protocol/Events.antt, beside the text that orchestrator/server.go writes on that stream; the
-- request that opens the stream is Protocol/Subscription.antt.
-- Transport.antt holds what the two HTTP clients ask of net/http and encoding/json.
-- orchestrator/: the state of orchestrator.go and its operations are Orchestrator.antt, its
-- channels Orchestrator/Buffered.antt. An operation is a function from the state to the new one,
-- and the modules below prove what it keeps. The handlers of server.go are
-- Orchestrator/Server.antt; Orchestrator/Safety.antt is the server as a system of steps: requests,
-- rounds of scheduled mutations and ends of streams.
-- store/store.go is Store.antt (its tables and values are Store/Tables.antt): each table is a list
-- of rows by primary key, and an upsert keeps the columns that the statement does not set.
-- peer/messages.go is Peer.antt, peer/client.go is Peer/Client.antt.
-- client/: node.go, util.go and heartbeat.go (Consume, applyMutation, ColdMutate,
-- registerNewFragment, notifySiblings, sendHeartbeats) are Client/Node.antt, the loop over the
-- events that a node receives is Client/Listen.antt, and NewNode, Start, AddMeshPeer and
-- ReadOwnDatabaseFile are Client/Startup.antt; watchdog.go (tick, react, SimulateAttack) is
-- Client/Watchdog.antt, and with the node, the network and the forced resharing that it sets off
-- Client/Immune.antt; the signals that watchdog_linux.go, watchdog_darwin.go, watchdog_windows.go,
-- watchdog_unix.go and watchdog_stub.go detect are Client/Detection.antt; peerserver.go is Client/PeerServer.antt. A node
-- calls the store, the cryptography and, over the network, its siblings and the orchestrator;
-- where of a network call only the error is logged, an operation returns the list of calls it
-- makes. split.go, backup.go, reconstruct.go and selfheal.go do depend on what the network answers:
-- they are Client/Split.antt, Client/Backup.antt, Client/Reconstruct.antt and
-- Client/SelfHeal.antt, functions from a World (Client/World.antt: the node, the network's state
-- and the clock) to a result and the world after it, also where they fail. Client/Cluster.antt
-- puts the parts together: it says what net/http and encoding/json do when the other nodes of the
-- network run peerserver.go, and its children follow a secret from the node that splits it to the
-- nodes that hold its shares and back.
-- mesh/wireguard.go is Mesh.antt.
-- cmd/client/main.go is Cli.antt: Cli/Boot.antt is what main does before the prompt, Cli/Session.antt
-- the commands and the loop of runREPL, which call Client/ as the program does.
-- Base.antt and its children hold what the others share (Base/Text and Base/Scanner: strings.Fields,
-- strconv.Atoi and bufio.Scanner); Tests.antt and its children run the
-- theorems on concrete inputs.
--
-- Conventions. A Go string or []byte is a list of bytes (Base/ByteStrings); an int is a natural
-- number, since no modelled code computes a negative one except where a comment says so; a uint64
-- epoch is taken modulo 2 ^ 64. An error is a value of Result or none. A Go map is an association
-- list (Base/Assoc); the order in which it is iterated means nothing. Time is an argument, in
-- nanoseconds. A panic is none, or an error that is named for it (division_by_zero, out_of_range).
-- Random bytes come from the parameter Entropy (Base/Random), AES-GCM from Gcm, HKDF and HMAC from
-- Kdf, JSON from Codec (Store/Tables), and SHA-256 is a function; Packages (Client/Node) is all of
-- them: each record states what the package documents. Every loop is a structural recursion over
-- the slice or the count that the code loops over.
--
-- The network is the parameter Http: its state is abstract, and each request gives an answer or
-- fails. Two functions have fuel: the digits of a number (Mesh.digits, with the number itself, of
-- which Mesh/Keys proves that it is enough) and a stream's writing (Orchestrator/Server.drain,
-- with the number of events that are waiting).
--
-- Not modelled: the waiting loops of RunScheduledMutations, the heartbeats and the watchdog's
-- polling (one round of each is; that of SelfHeal runs on what its select receives),
-- cmd/orchestrator/main.go, the package flag, the goroutines that cmd/client/main.go starts, the
-- words of what its prompt prints, the headers of HTTP, the SQL engine, the wiping of buffers after
-- use, and the log lines. The forced resharing, which the watchdog starts in a goroutine, runs here
-- after the rest of the reaction. Of what the SQL engine refuses, a closed handle and an epoch from
-- 2 ^ 63 on are modelled; a nil ciphertext, which NOT NULL refuses, is not told apart from an empty
-- one. The mutex is not modelled: an operation is one step, except broadcastDelta, whose two halves
-- are two functions (collect, deliver) since it gives the lock back between them.
pub mod Base
pub mod Crypto
pub mod Protocol
pub mod Orchestrator
pub mod Cli
pub mod Client
pub mod Mesh
pub mod Peer
pub mod Store
pub mod Tests
pub mod Transport
