-- ===== src/Lib.antt =====
-- iiServerHost: what its relay, peers, codec, transfers, storage bridge, shares and HTTP server do.
--
-- A relay joins the peers of one account. A host offers a pairing code or waits for requests; a
-- client of the same account and service claims the code or sends a request, which the relay routes
-- to the host and answers back. A peer is the relay's client: it sends its requests over the relay
-- or over a direct link, which a ticket lets in. A peer of the local network needs no relay: it
-- shows a code, or joins by one. A share answers the requests from a directory. Beside these, a
-- transfer manager moves files by libcurl, a storage bridge and file servers run rclone or Python
-- as child processes, and an HTTP server runs a chain of middleware.
--
-- Prelude holds texts as UTF-16 units, dictionaries for QHash, integers, patterns and checks. Json
-- holds the QJsonValue and QJsonObject operations.
--
-- * src/BinaryFrame.h is BinaryFrame: `encode` and `decode`. JSON and base64 are a `Codec`.
-- * src/Protocol.h is Protocol: `identifier`, `endpoint`, `live`, `send`, `listener`,
--   `pinCertificate`.
-- * src/RelayServer.cpp is Relay. State has the tables, `active` and `target`; Pairing has
--   `pairMessage`, `finishPair` and `cancelPairing`; Messages has `message` and `directory`; Events
--   has the new connection, the authenticator's answer, `remove`, `sweep` and `stop`, and one
--   `step` for each event. A socket is a number, `objects` lists those that a QPointer still finds,
--   and what is sent is appended to `out`. A turn is one in which no send or close ends its socket
--   at once; an end that runs `remove` in the middle of a turn is not modelled. Times are
--   milliseconds and come in with the event; codes, tickets and UUIDs come in as fresh texts.
-- * src/Transfer.cpp is Transfer. Protocols has the table, Validate has `validate`, Callbacks has
--   the four callbacks of libcurl, Options has the options of its handle, Perform has `perform`
--   from the local file to the verdict, Jobs has the table of jobs. What files and libcurl do is a
--   `Run`.
-- * src/StorageBridge.cpp is Storage, for Unix. Backend has the checks of options and locations,
--   the environment and the common arguments; Jobs has `StorageBridge`; Server has
--   `validateServer`; Serving has `FileProtocolServer`. The file system is a `Files`. A job object
--   stays in `objects` after its entry has left the table, as the closures keep it.
-- * src/LanPeer.cpp is Lan. Link has `LanLink` and the codes; State has `LanPeer::Private`; Host
--   has `hostMessage`; Offers has the connections, the offers and `confirmDevice`; Client has
--   `openAddress`, `clientMessage` and `request`; Events has `sweep`, `startHost`, `join` and
--   `stop`; Steps has one `step` for each event and what the transport keeps to. What is done is
--   appended to `out`; a socket's signals, also those that a send brings about, are events of their
--   own, and the handler's answer comes in with them.
-- * src/Peer.cpp is Peer. State has `Peer::Private` and `finish`; Loss has `lost` and the end of the
--   relay's socket; Requests has `remote`, `local` and `startRequest`; Links has `nextLocal`,
--   `attach` and `onLink`; Messages has `message`; Events has `sweep`, `start`, `stop` and the
--   relay's socket; Turns has one `step` for each event. Signals are events of their own as in Lan,
--   but for those that can come with work still to do: that of a socket that the send of a request
--   or of the credential breaks, and that of the relay's abort in `stop`.
-- * src/FileShare.cpp is Share, for Unix: paths and listing in Share, `handle` in Share/Handle. The
--   descriptors that `confined` opens and the system calls on them are a `Disk`.
-- * src/SessionAuthenticator.cpp is Account: which credentials are sent, and which answers make a
--   principal. The sending is left out.
-- * src/HttpServer.cpp is Web. The server, the router and the handlers are parameters.
--
-- Decimal digits are written on fuel twenty, which is enough below 2 ^ 64.
--
-- Not modelled: src/NetworkTransport.cpp, but for what a send answers and what a socket that breaks
-- signals; src/PairingLink.cpp, src/LanIdentity.cpp and src/WindowsFileShare.h; the tools and the
-- tests, which are input and output around the library; Windows and mobile branches.
pub mod Prelude
pub mod Json
pub mod BinaryFrame
pub mod Protocol
pub mod Relay
pub mod Transfer
pub mod Storage
pub mod Share
pub mod Web
pub mod Account
pub mod Lan
pub mod Peer
pub mod Tests
