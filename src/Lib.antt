-- ===== src/Lib.antt =====
-- Models of the C event-loop framework in test_epoll/lib and of the C++ programs beside it, and
-- theorems about them.
--
-- The framework serves TCP connections with one event loop per thread. A channel says which events
-- of a descriptor are wanted and whom to call. A loop keeps its channels in a growable map by
-- descriptor and asks a poller to watch them; changes come from any thread through a queue, which
-- the loop's own thread applies. A connection has a channel and two byte buffers. The HTTP server
-- parses requests out of the input buffer and writes responses to the connection. The TCP server
-- accepts connections and gives each to the next loop of the thread pool.
--
-- Beside the framework stand a pool of worker threads for tasks (thread_pool), a pool of
-- connections to a database (connection), a queue that threads wait at, and a map that is copied
-- on write (for_cpp_basis), and a server that sends back what it receives (asio_server). Their
-- threads, and the start of a thread of the framework, are step relations: a state is reachable if
-- some order of the steps of all threads leads to it, and what is proved holds in all of these.
--
-- Files and the code that they model:
--   Base          shared names, C's `int` sums, strings and memory accesses as outcomes
--   Buffer        test_epoll/lib/buffer.h, buffer.c (`struct buffer` and its functions)
--   Channel       test_epoll/lib/channel.h, channel.c
--   ChannelMap    test_epoll/lib/channel_map.h, channel_map.c
--   Dispatcher    test_epoll/lib/event_dispatcher.h, as an interface, with a contract for a loop
--   Poll          test_epoll/lib/poll_dispatcher.c, which fills interface and contract
--   EventLoop     test_epoll/lib/event_loop.h, event_loop.c, utils.c, over any poller
--   ThreadPool    test_epoll/lib/thread_pool.h, thread_pool.c, event_loop_thread.h, event_loop_thread.c
--   TcpConnection test_epoll/lib/tcp_connection.h, tcp_connection.c
--   HttpRequest   test_epoll/lib/http_request.h, http_request.c
--   Epoll         test_epoll/lib/epoll_dispatcher.c, which fills the interface; its calls may be refused
--   TcpServer     test_epoll/lib/tcp_server.h, tcp_server.c, acceptor.h, acceptor.c, and http_server_new
--   HttpResponse  test_epoll/lib/http_response.h, http_response.c
--   HttpServer    test_epoll/lib/http_server.h, http_server.c: the parser, and in Callbacks the rest
--   WorkerPool    thread_pool/thread_pool.h
--   BlockingQueue for_cpp_basis/include/t_blocking_queue.h, BlockingQueue
--   CustomerData  for_cpp_basis/include/t_shared_ptr.h, CustomerData
--   Session       asio_server/server.h, Session
--   ConnectionPool connection/src/connection_pool.h, connection_pool.cpp, the clock of connection.cpp
--   Read          test_epoll/lib/read.c
--   Tests         concrete runs
-- Definitions keep the names of the C functions, with capitals turned into words. The files below
-- a module hold its theorems.
--
-- How C is read: a function gives an `Outcome`, a value or the reason why there is none, such as an
-- access outside a block, a null pointer, an `int` sum beyond 2^31, a failed `assert` or a call of
-- `exit`. A block of memory is the list of its bytes, a pointer into it an index. Structures that
-- are shared by pointers stand in a store by address. Everything that a system call or the
-- allocator returns is a parameter or an argument. The mutex of a loop makes each locked section
-- one step. Sizes of types are those of 64-bit Linux.
--
-- Bounds and fuel: the loop of map_make_space doubles an `int`, for which 32 rounds are enough;
-- the loops over the poll set have INIT_POLL_SIZE rounds, as in the source. parse_http_request runs
-- on fuel, the number of headers and three more for a complete request. event_loop_run is modelled
-- for a number of rounds, since nothing in the program ends it.
--
-- Not modelled: logging and the system calls behind shutdown and close of sockets; buffer_free;
-- tcp_client.c and sock_ntop.c, which only call the socket library; the queries of connection, which
-- only call the MySQL client; asio_server/proxy_protocol.cpp, a copy of another project's library;
-- asio_client, and what Boost.Asio does; the other demonstrations in for_cpp_basis, and
-- test_epoll/include/base.cpp.
pub mod Base
pub mod Buffer
pub mod Channel
pub mod ChannelMap
pub mod Dispatcher
pub mod Poll
pub mod Epoll
pub mod TcpServer
pub mod EventLoop
pub mod Read
pub mod ThreadPool
pub mod TcpConnection
pub mod HttpRequest
pub mod HttpResponse
pub mod HttpServer
pub mod WorkerPool
pub mod ConnectionPool
pub mod Session
pub mod BlockingQueue
pub mod CustomerData
pub mod Tests
