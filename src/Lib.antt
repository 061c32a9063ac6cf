-- ===== src/Lib.antt =====
-- MTASC: an asynchronous network client library in C++. These modules model its read buffer, its
-- URL parsers, its HTTP request writer, the client tool over these, its thread pool, and its TCP and
-- TLS sockets.
--
-- How the parts interact: a client calls `clientTool`, which parses URLs (`urlHttpParser`) and
-- writes request texts (`syncCreateHttpv1template`) at once or as tasks of the thread pool;
-- `socketTcp`, which resolves a host, connects, and whose tasks read into the `readBuffer` of a
-- context or write its message and then queue the client's callback; and `socketSSL`, which does
-- the same through OpenSSL on a socket that `socketTcp` has connected.
--
-- Files and code:
--   Common, Common/*            bytes, slices and the outcome of a C++ call: a result, an exception,
--                               undefined behaviour, or fuel that ran out
--   Buffer, Buffer/*            include/client/buffer/buffer.hpp: appendTobuffer is append_to_buffer,
--                               M_ensureWriteableBytes is ensure_writeable_bytes, and so on; Fifo is
--                               the queue that Refine compares the buffer with, and Moves its
--                               moves
--   Number, Number/*            std::stoi and std::to_string of the standard library
--   Url/Basic, Url/Query        lib/parser_lib/urlparser_lib.cc: parserBasicUrl and parserQueryUrl,
--                               each a switch over a state under a loop (step, loop, parse)
--   Url/Params                  include/client/Parser/Urlparser.hpp: M_parserQueryParamter
--   Http, Http/*                lib/M_maker_httpv1_template.cc, include/client/clientapp/method.hpp;
--                               Http/Reader is an independent reader of requests
--   Client, Client/*            include/client/clientapp/clientTool.hpp; Client/Send follows a request
--                               from the text of its URL to the bytes that a TCP socket sends
--   Tcp, Tcp/*                  include/client/socket/TCP/socket_tcp.hpp: Tcp/Write is async_write and
--                               M_retryTcpwrite, Tcp/ReadUntil async_read_until and
--                               M_retryTcpRead_until, Tcp/Read async_read and M_retryTcpRead
--   Tcp/Resolve, Tcp/Connect    async_resolver_domain with the resolvers of include/client/socket/ip;
--                               async_try_connect_tcp, M_tryIpaddrs and M_retryTcpConnect
--   Tcp/Lifetime                the destructor and the moves of socketTcp and of the resolvers of
--                               include/client/socket/ip, with the lists that are alive
--   Tcp/Chunked                 M_findChunkedsize of socket_tcp.hpp
--   Tls, Tls/*                  include/client/socket/SSL/socket_ssl.hpp: Tls/Create is
--                               async_create_tls and the functions that make OpenSSL objects,
--                               Tls/Handshake async_try_connect_tls and M_ssl_handshake_retry,
--                               Tls/Write async_write_tls and M_ssl_write_retry, Tls/ReadUntil
--                               async_read_until_tls and M_ssl_read_until_retry, Tls/Lifetime the
--                               moves and destructors; Tls/Session is a client's calls in order, as in
--                               test/test_tls.cc, and Tls/Request its request
--   Pool, Pool/*                include/thread/threadTask.hpp: Pool the data of ThreadManager and the
--                               changes of them, Pool/Wakeups the steps of its threads, with the
--                               lock, the test, the wait and the notifications taken apart,
--                               Pool/Manager the moves; Pool/Instance is include/thread/thread.h
--
-- The state of a component is a record with the source's fields; an operation is a function on it.
-- The operating system and OpenSSL are parameters: records of answers, one for each call by its
-- number, so that a theorem is about every sequence of answers. What the code relies on of OpenSSL
-- is that `SSL_get_error` reports the call that failed last, that a new object is one that was never
-- made before, and that a null pointer or an object that was freed must not be used, which is the
-- undefined behaviour `out_of_bounds`; so is `FD_SET` on a negative descriptor, and every other
-- descriptor is taken to be below FD_SETSIZE. Whether `freeaddrinfo` takes a null pointer is a
-- parameter.
--
-- Bounds and fuel: `size_t` arithmetic wraps at 2 ^ 64, and a storage stays below 2 ^ 63 bytes where
-- a theorem says so. The loops of the parsers take as fuel the length of their text and a constant,
-- and the theorems on totality show that this is enough on every text. The retry loops take the
-- retry limit plus one, since each round counts towards it; the loop of `async_read_until` takes 2,
-- and that of `async_read_until_tls` the length of the delimiter plus two, since it cannot read more
-- rounds before its comparison is reached. The write task, the inner loops of the write retries and
-- the read task take their fuel as an argument, since the operating system decides how many rounds
-- there are, and so does the loop of M_findChunkedsize, whose test nothing in it changes. An `int` that
-- counts bytes or rounds is a natural number, for messages below 2 ^ 31 bytes, but the sum of two of
-- them in a failed write is undefined where an `int` does not hold it.
--
-- Not modelled: the wait of waitAllthread, but for its condition, since it only decides whether a
-- warning is printed; what is printed of the errors of OpenSSL; the references that OpenSSL counts
-- for a context; memory that runs out; how long a call waits, since it has no effect on the state;
-- a push of asyncTaskvoid that overlaps with other work on the queue of the pool, which is a data
-- race and undefined behaviour: the steps are those of programs without one; the futures of
-- asyncTaskret; the moves of the URL parser, which hand over its text, and of the threads'
-- records, whose fields nothing reads; the constraints on the types of callbacks, which are
-- template metaprogramming; platform macros; what the test program prints.
pub mod Common
pub mod Buffer
pub mod Number
pub mod Url
pub mod Http
pub mod Client
pub mod Tcp
pub mod Pool
pub mod Tls
