-- ===== src/Lib.antt =====
-- LibreConnect: a phone and a desktop paired over TLS that share files, the clipboard, notifications
-- and devices. This library models the core that both ends have in common, and proves what the two
-- ends, or the two sides of a buffer, owe to each other.
--
-- The parts and their files:
-- * Wire (utilities/system/inc/Packable.h): the overloads SerializeObject, DeserializeObject and
--   GetObjectSerializedSize of each type are a record Codec of three functions on a byte buffer and an
--   offset; IsLawful is the interface of laws that every overload fills and every client uses. Files,
--   Notifications and Devices are the structs that file transfers, the notification channel and devices
--   that meet send.
-- * Package (utilities/network/inc/Package.h): the messages of the primary connection; Create and
--   GetValue over a list of arguments of any serializable types.
-- * Transfer (modules/common/src/TransferChannel.cpp): the channel as a record, its coroutines as
--   functions from a channel to a result and a channel; Entries has CoSendDirectoryEntries and
--   CoReceiveDirectoryEntries, Files has CoSendFile with Send, and CoReceiveFileData. Paths has
--   BuildSafeReceivePath, and Directories Receive, CoReceiveFile, CoReceiveDirectory, CoSendDirectory
--   and CoDisconnect. The socket is data of the channel: which writes fail, and the bytes that arrive
--   before the stream ends.
-- * Connection (utilities/p2p-network/src/PrimaryConnection.cpp): the connection of the packages; the
--   rounds of CoSend, CoReceive and CoHeartbeatMonitor, the queues with their byte counter, and
--   CoDisconnect before and behind its wait. Stream joins the sender's rounds to the receiver's.
-- * ChannelPool (modules/common/src/TransferChannelPool.cpp): borrowers as tasks of single steps, the
--   reservations, reset, and the two ends that bring their channels up.
-- * ConcurrentMap (utilities/system/inc/ConcurrentUnorderedMap.h): a map as a list of entries.
-- * Requests (utilities/p2p-network/inc/ConnectionManager.h and src/ConnectionManager.cpp,
--   utilities/system/inc/AwaitableFlag.h): SendRequest, SendRequestResponse, CoProcessPackages,
--   CancelPendingRequests and the handlers, over the maps and the connection above.
-- * Pairing (utilities/p2p-network/src/InitialConnection.cpp): the dialogue of two devices that connect
--   or pair; Dialogue has CoConnect, CoSeek, the packages of CoReceive and the callbacks of the user
--   interface and of the primary listener, Bans the peers that guessed too often, Sending has CoSend. In
--   Approval and Bound these run in any order, as they do on the strand of a connection.
-- * NotificationChannel (modules/notification-sync/common/src/NotificationTransferChannel.cpp): Send,
--   Receive and Disconnect, over the structs of Wire.
-- * RemoteFileBuffer (modules/file-share/desktop/inc/RemoteFileBuffer.h): the ring between a download
--   and its reader; every operation holds the mutex and is one step. Queue is its specification.
-- * Lifecycle (modules/common/inc/BaseModule.h): calls and coroutines of a module as a step relation;
--   a coroutine between two co_await is one step, and so are a test of the state and the store behind it,
--   between which a Shutdown of another thread may fall in the program; a hook of the derived module
--   returns or throws.
-- * Clipboard (modules/clipboard-sync, utilities/clipboard): what a peer sends for a text, the handlers
--   of the four update messages, and the echo suppression. Events has the handlers of fragments on
--   several threads: a fragment is counted and copied in two steps that interleave with all others;
--   Race has what comes of a count that is ahead of its copy.
-- * UniqueNames (utilities/system/src/UniqueFileNamesGenerator.cpp): the decimal counter in its file, and
--   the stream that fails where the file is missing.
-- * AddressResolver (utilities/network/src/AddressResolver.cpp): public and private addresses.
-- Transfer, Package, Clipboard, Pairing and NotificationChannel use Wire, Connection uses Package,
-- Requests uses Connection, Package and ConcurrentMap; Base has the shared lists, tests and results. Each part has a module Tests with runs and instances of the results.
--
-- Bounds and fuel: numbers of w bits keep their wrap-around (the package size and the header fields,
-- size_t sums of the channel, the fragment counter, the life cycle generation); bytes are numbers whose
-- range is a hypothesis where it matters. The loop of CoReceiveDirectoryEntries runs on as much fuel
-- as there are bytes left to read, since every round takes sixteen or throws; the loop over
-- fragments on the length of the text and the loops over a file on its length, since every round takes
-- a byte where the buffer is not empty; that over the files of a directory on the bytes left to read
-- and one more, since every round takes eight. These bounds are part of the results. The package limit
-- of the clipboard is an argument, with 256 KiB in the code.
--
-- Parameters: boost's text form of a uuid and its reader, with the documented round trip; the file
-- system (Storage: weakly_canonical, what can be created, opened and written; Surroundings: which files
-- of paired devices exist), the clock and the drawn pairing code; paths are read as on POSIX. Not
-- modelled: discovery, how a transfer channel and a notification channel connect, the user interfaces,
-- the platform bindings and the media streams.
pub mod Base
pub mod Wire
pub mod Package
pub mod Transfer
pub mod RemoteFileBuffer
pub mod Lifecycle
pub mod Clipboard
pub mod UniqueNames
pub mod AddressResolver
pub mod Connection
pub mod ChannelPool
pub mod ConcurrentMap
pub mod Requests
pub mod Pairing
pub mod NotificationChannel
