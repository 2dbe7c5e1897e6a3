-- ===== src/Lib.antt =====
-- obsto: an object storage served over RESP and HTTP on one port. A connection's bytes go to a
-- protocol handler, which parses commands and calls the storage: a storage that bounds the total
-- size, around one that keeps the objects, with an index of the sizes on disk. Large values are
-- streamed through sessions.
--
-- Text: std::string as a list of bytes, and what is used of the C++ standard library on it (find,
-- substr, toupper, to_string, stoi, stol, stoul). An int has 32 bits, a long and a size_t 64.
-- Outcome: how a handler's call ends, with a fault for a null session pointer.
-- Storage: the interfaces of Core/Storage/IObjectStorage.h and Core/Storage/Streaming/*.h as records
-- of operations over the state of an implementation. Storage/Laws is the contract of a storage.
-- Storage/Table is std::unordered_map. Storage/Memory is Core/Storage/ObjectStorage.cpp.
-- Storage/Index is the index of Core/Storage/Persistency/StoragePersistency.cpp, which Rebuild makes
-- anew from the disk. Storage/Bounded is Core/Storage/BoundedObjectStorage.cpp with
-- Core/Storage/Streaming/BoundedWriteSession.cpp; its children are the view of the
-- counted sizes (Ledger), the bound (Capacity, Limits), the agreement with the objects (Agreement) and
-- uploads (Upload, Sessions).
-- Resp/Reply is Core/Protocol/Resp/RespReply.h, Resp/Parser is RespParser.cpp beside it, and
-- Resp/Handler is RespProtocolHandler.cpp: the commands in Commands, the header of a streamed value
-- in Header, the state machine in the file itself, and what requests come to in Served
-- and Listing.
-- Http/Message is Core/Protocol/Http/HttpTypes.h, Http/Parser is HttpParser.cpp beside it, and
-- Http/Handler is HttpProtocolHandler.cpp: the requests in Requests, the state machine in the file
-- itself. Detector is Core/Protocol/ProtocolDetectorHandler.cpp, which hands a connection to one of
-- the two handlers. The files called Sending are about streamed replies.
-- Storage/Disk is Core/Storage/DiskObjectStorage.cpp with Core/Storage/Streaming/DiskWriteSession.cpp
-- and DiskReadSession.cpp, which are in Sessions. Its other children are the paths (Paths, Inside),
-- the file system that the C++ library shows (Files, View), and writing, moving and reading files
-- (Streams, Writing, Moves, Upload, Reading, Puts, Losses; Calm is where nothing fails). A file system
-- has a list of troubles, which says of the operations to come whether they fail for a reason outside
-- the program, and a number of bytes that a stream may hold back: a theorem on any file system is one
-- on any such failures and any buffer.
-- Net is Core/Net/Session.cpp and Net/Server is Core/Net/Server.cpp: a session is a state between two
-- completion handlers, the events are the completions of asio, and the connections of a server take
-- turns on one storage. App is App/ArgumentParser.cpp, and App/Start is App/main.cpp.
-- Tests: runs on concrete inputs.
--
-- Sums of sizes are taken modulo 2^64, as the code does. Positions in a buffer are below 2^63, so
-- their sums are plain. The handler's calls of itself are recursion on fuel: one more than the bytes
-- that it holds is enough, since each call is on fewer. The server runs every handler on one thread,
-- so a storage shared by connections is a state that is passed on, and mutexes are left out.
-- Not modelled: asio itself, symbolic links, what a stream still holds when a write has failed (it is
-- dropped), errors that are exceptions of `exists`, `is_regular_file` and the walk through a directory,
-- and an exception of a handler's `hasMoreToSend`, which the two handlers do not throw.
pub mod App
pub mod Base
pub mod Detector
pub mod Http
pub mod Net
pub mod Outcome
pub mod Resp
pub mod Storage
pub mod Tests
pub mod Text
