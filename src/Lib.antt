-- ===== src/Lib.antt =====
-- Marisa, a C++ HTTP server library, modelled file by file. Paths are those of the repository.
--
-- A connection is a Session (Source/Server), which reads from a socket, gives what it read to the
-- context of the request (Source/App/Context.cpp), and has a queue of writes. The context runs the
-- HTTP/1 parser (Source/Protocol/HTTP) on the data, looks for a route (Source/App/App.cpp and
-- Route.cpp), and starts the chain of the route's middlewares, which are user code. They write through
-- a response (Source/App/Response/Response.cpp), whose head the HTTP/1 generator makes, and whose data
-- reaches the session's queue in buffers.
--
-- What models what, with the C++ names kept but for case:
--   Uri          Protocol/HTTP/Parser.cpp: encodeURI, encodeURIComponent, decodeURI,
--                decodeURIComponent and the tables of the characters they keep
--   Http1        Protocol/HTTP/HTTP1/Parser.cpp: the parser's callbacks, parse_url, parse
--   Methods      Protocol/HTTP/Method.cpp and Method.hpp: method names
--   Statuses     Protocol/HTTP/Status.cpp and Status.hpp: status names
--   Generator    Protocol/HTTP/HTTP1/Generator.cpp: generate_headers
--   Utilities    Utilities/Utilities.cpp: the splitting of text, and the status pages
--   Buffer       Server/Buffer.cpp: the tagged buffer with its moves and copies
--   WriteQueue   Server/SessionCommon.cpp and SessionTCP.cpp: the queue of writes, as steps of the
--                strand (SessionSSL.cpp and SessionUnix.cpp have the same code)
--   Connection   Server/SessionCommon.cpp, SessionTCP.cpp, SessionSSL.cpp, SessionUnix.cpp: the life of
--                a session between its reads, its timer and the contexts of its requests
--   Transfers    the same files, and App/Request/Request.cpp: what a handler reads and writes itself
--   Address, Endpoints
--                Server/ConnectionContext.hpp: addresses, endpoints, sockets
--   Instance     Server/InstanceTCP.cpp, InstanceSSL.cpp, InstanceUnix.cpp: the loop that accepts
--   Servers      App/App.cpp: listen, run, stop; Server/InstanceCommon.cpp
--   MimeTypes    Utilities/MimeTypes.cpp: the table of media types, get_mime_type
--   Routes       App/App.cpp and Route.cpp: route, on, use
--   Chain        App/Context.cpp: next, and the calls of it with their catch
--   Context      App/Context.cpp: process_request_data, init_handler_data and what they call
--   Mullet       Types/Mullet.cpp: the callbacks for a multipart body, set_headers
--   Request      App/Request/Request.cpp: cookies, ip, read
--   MMap         Types/MMap.cpp: map_file
--   Date         Types/Date.cpp: dates, read from text and written as text
--   StaticFiles  App/Middlewares/StaticFiles.cpp: handler, and the page of a directory
--   Middlewares  App/Middlewares/Redirection.cpp and Simple.cpp
--   Coding, Deflate and Compression
--                App/Middlewares/Compression.cpp: the choice of a coding, the loops over zlib, and
--                the response that compresses
--   Response     App/Response/Response.cpp: every operation of a response
-- (all under Source/). Prelude holds the shared helpers: results, texts, numbers in text, maps.
--
-- Conventions. A text is the list of its bytes. A pointer into a text is the text with the bytes that
-- stand behind it in memory, where the code reads there. Undefined behaviour is the result `fault`, an
-- exception `raise`. An unordered_map is a list of pairs in the order of its loop, which the theorems
-- leave open. A mutable object is a record that an operation takes and gives back. The bits of a
-- context's state are Boolean fields.
--
-- Bounds and fuel. `print_number` has more fuel than its number has digits. `send_file` has fuel for
-- its rounds, next() for its depth, and the loops over zlib for what a stream may still write: theorems
-- show how much is enough. A chunk's header has room for sizes below 16 ^ 12. Lengths that zlib
-- is given are cut to 32 bits. Keep-alive values are small if the maximum is below 65536, and the
-- timeout is too or is not positive, as -1 is, with which no keep-alive line is sent; those of
-- App::config are of type uint16_t.
--
-- Arguments of the model, since their code is not in the repository: http_parser and multipart-parser
-- (what one run calls, and how many bytes it takes), the names that http_parser gives to statuses, the
-- regular expressions of the C++ library, asio (what was started has one handler, called later;
-- Transfers/Manual says what is relied on of its reads), the file system, zlib (Deflate/Manual says what
-- is relied on), the calendar functions of the C library (Date/Manual says what is relied on).
--
-- Not modelled: threads and coroutines of asio, the sockets that listen and close; TLS; what else
-- wraps system calls in Types/MMap.cpp; the log; Base64.
mod Prelude
pub mod Utilities
pub mod Http1
pub mod MMap
pub mod Methods
pub mod Servers
pub mod Statuses
pub mod Generator
pub mod Transfers
pub mod Uri
pub mod Buffer
pub mod Response
pub mod WriteQueue
pub mod Routes
pub mod Chain
pub mod Context
pub mod Mullet
pub mod Request
pub mod Middlewares
pub mod MimeTypes
pub mod StaticFiles
pub mod Deflate
pub mod Compression
pub mod Coding
pub mod Connection
pub mod Endpoints
pub mod Instance
pub mod Address
pub mod Date
