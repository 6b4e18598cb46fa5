-- ===== src/Lib.antt =====
-- GETodac is a web server with a C++ library for its plugins (namespace Dracon). The accept thread
-- of the server (src/server/server.cpp, `Server::exec`) takes connections, counts them by address
-- and gives each to the event loop with the fewest sessions. An event loop
-- (src/server/sessionseventloop.cpp) waits on epoll, handles the events of its sessions, and calls
-- the timeouts. A session (src/server/streams.cpp) runs in a coroutine: it reads requests, asks
-- the plugins for a session function, and writes through `writeSome` of a plain or a secured
-- socket. Plugins mostly dispatch with the router of include/dracon/restful.h and answer with the
-- responses of include/dracon/http.h, whole or through a ChunkedStream of include/dracon/stream.h.
--
-- Parts, files and code:
--
-- Common: byte strings (std::string and std::string_view are lists of byte values), lists with the
-- lengths of the native numbers, integers, maps as association lists, and numerals.
--
-- Exceptions: the types that `ioLoop` catches, and results of code that may throw.
--
-- Utils (include/dracon/utils.h): Url is fromHex and unescapeUrl; Split is split; LruCache is the
-- class of that name, over nodes with identities, which its iterators are; Buffer is the class of
-- that name, with offsets for its pointers (`assign_string` is operator =, `prepend_string` is
-- operator *=).
--
-- Http (include/dracon/http.h): Response is the class with its setters; Status the table and
-- statusCodeString; Message is toString and operator<<; Request is the class with its setters,
-- contentLength and operator>>.
--
-- Restful (include/dracon/restful.h): Route is RestfullRoute and Router is RestfulRouter; their
-- functions have the names of the code, but `dispatch` is RestfulRouter::createHandler,
-- `create_handler` that of the route, and `equals_route` its operator ==.
--
-- Streams: Read is BasicHttpSession::readHeaders and read, the callbacks of the parser and both
-- readSome of src/server/streams.cpp, with the shared buffer as Utils.Buffer; OStream is
-- OStreamBuffer of include/dracon/stream.h; Write is both BasicHttpSession::write (`write`,
-- `write_all`) and both writeSome of src/server/streams.cpp; IoLoop is BasicHttpSession::ioLoop,
-- with the answers to errors; Chunked is ChunkedStream of include/dracon/stream.h.
--
-- EventLoop (src/server/sessionseventloop.cpp): Sessions is registerSession, by its three parts,
-- unregisterSession, deleteLater (`schedule_deletion`) and the deletions at the end of a round of
-- `loop`, with the destructor of a session under the lock that the round holds; Order is the order
-- of the events with workload balancing, Timeout the loop over the sessions.
--
-- Template (template/src/main.cpp): the handlers of the devices with the devices as their state.
--
-- ThreadWorker (include/dracon/thread_worker.h): the steps of its workers, of its clients and of its
-- destructor. `m_quit` is stored without the mutex, so each test of it is a step of its own
-- (`check_quit`, `test_wait`, `test_quit`), apart from the pop (`take_task`).
--
-- Server (src/server/server.cpp): Configuration is what exec makes of server.conf, with its ports
-- and privileges; Connections is the accounting of sessions and addresses, with a function for each
-- scope of a lock (`count_connection`, `server_session_created`, `erase_active`, `release`) and the
-- ways in which building a session ends, the peak and the choice of an event loop; Plugins is the sorted plugins and create_session; Sessions is what a
-- ServerSession (src/server/serversession.h) does on events, timeouts and wake-ups; Service is the
-- status page of src/server/serverservicesessions.cpp.
--
-- StaticContent (src/plugins/staticContent/static_content_plugin.cpp): static_content_session;
-- Urls is create_session and init_plugin; Paths is what they use of std::filesystem::path.
--
-- Bounds and fuel: `size_t` is 64 bits wide (npos and ChunkedData are 2 ^ 64 - 1). A text that is
-- split is no longer than npos, as every text in memory. The loop of split has a unit of fuel for
-- each byte of the text, and passes one separator with each. The reader of chunks needs a unit for
-- each call and one for the end. cleanCache has a unit for each node of the list. The write loops
-- go by the answers from outside: a list of rounds, one for each call of writeSome or readSome; at
-- its end the loop waits for the next answer. The lines of a read and the rounds of xsputn each
-- take a byte at least, and have a unit of fuel for each.
--
-- The system calls, the file system, OpenSSL, http_parser, the JSON library and std::sort are
-- parameters: what they answer is an argument, with what the code relies on as a hypothesis where
-- it needs one.
--
-- Not modelled: sockets, signals, the parsing of configuration files, dlopen and logging, which
-- are input and output; the handshakes of OpenSSL; the spin lock, the timer and the streams that
-- only pass calls on; the test plugin, which uses the library.
pub mod Common
pub mod Exceptions
pub mod EventLoop
pub mod Http
pub mod Restful
pub mod Server
pub mod StaticContent
pub mod Streams
pub mod Template
pub mod ThreadWorker
pub mod Utils
