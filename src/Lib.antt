-- ===== src/Lib.antt =====
-- The networking programs of this repository, verified: the chat protocol library libsbcp and the
-- processes of the chat server MP2, the TFTP library libtftp with the server MP3, libtcp with the
-- echo server MP1, the caching proxy of MP4, and the parts of libhttp.
--
-- Sbcp models libsbcp (libsbcp/include/sbcp/sbcp.hpp, libsbcp/src/sbcp.cpp and
-- libsbcp/src/messages.cpp): Sbcp.Types the enumerations and the failures, Sbcp.Header the four
-- bytes of the header, Sbcp.Attribute an attribute as it lies in memory, Sbcp.Message the building
-- of a message, Sbcp.Reading its iterator and getters, Sbcp.Messages the function for each kind.
-- Sbcp.Spec says what a message stands for, a type and a sequence of items, and its children relate
-- the code to it. An operation returns a value or a Failure: the exception that it throws, a failed
-- assert, or an access outside the object.
--
-- ChatServer models the loop of main in MP2/src/sbcp_server.cpp. It uses Sbcp for its messages. A
-- round is one return of select; what the outside supplies (bootstrap messages, the descriptors
-- from open, which descriptors are ready, what a read yields) is the round's data, and writes and
-- closes are the round's actions.
--
-- ChatHandler models the process that serves one client in MP2/src/sbcp_server.cpp: read_message and
-- client_handler. Its FIFOs join it to the main process; what mkfifo, open, write, read and select
-- return is the data of a round. mkfifo fails for a FIFO that exists.
--
-- Tftp models libtftp (libtftp/include/tftp/tftp.hpp, libtftp/src/tftp.cpp and
-- libtftp/src/packets.cpp): Tftp.Types the modes, opcodes and error codes, Tftp.Packet the class
-- Packet and its members RQ, DATA, ACK and ERROR, Tftp.Packets the function for each kind. A packet
-- is an opcode and the bytes from its union on; a constructor is given what the memory held before.
-- Tftp.Wire and Tftp.Replies relate what is sent to what a receiver reads.
--
-- Netascii models MP3/src/netascii.hpp: what one call of underflow takes and gives, and the whole
-- streams that come of it.
--
-- TftpServer models the handler of MP3/src/tftp_server.cpp, over Tftp and Netascii:
-- TftpServer.Handler the dispatch and the request, TftpServer.Transfer the loop that sends a file,
-- TftpServer.Storing the loop that stores one. Between two waits a loop is a function of its
-- variables; an event or an arrival is how a wait in select ends. TftpServer.Receiver is a client
-- that takes the blocks in order, each once, with numbers modulo 65536; it is the specification that
-- the sending loop is held against.
--
-- Http models parts of libhttp: Http.Uri the class URI (libhttp/src/uri.cpp), Http.Method,
-- Http.Version and Http.RequestLine the classes Method, HTTPVersion and RequestLine
-- (libhttp/src/request-line.cpp), Http.StatusCode and Http.StatusLine the classes StatusCode and
-- StatusLine (libhttp/src/status-line.cpp), Http.Search the searches of std::string that they use.
-- A size_t has 64 bits, and its sums and differences wrap.
--
-- Tcp models libtcp: Tcp.Configuration the class Server with its settings, start and stop
-- (libtcp/include/tcp/server.hpp, libtcp/src/server.cpp), Tcp.Setup the start of run_server,
-- Tcp.Serving its loop and ClientHandler::accept, Tcp.Processes the processes of clients,
-- Tcp.Stopping exec and the ways to end processes, Tcp.Address and Tcp.Client the class Client
-- (libtcp/src/client.cpp): its constructor, and writen, readn and readline. What select, accept,
-- fork, waitpid, read and write return is the data of a run, and so is whether a thread can be
-- created; a call of write says how many bytes the
-- system has room for, a call of read how many have arrived, so every way to split a stream into
-- calls is a run. Closes, handlers and waits are actions. A result `none` of the server's loop is a
-- read of a handler outside the vector; of a client's function, a call that still waits.
--
-- Echo models the handler of MP1/src/echo_server.cpp, over Tcp.Client.
--
-- Proxy models the handler of MP4/src/http_proxy.cpp from the request's URI on: Proxy.Address the
-- host, port and path, Proxy.Cache the map from hashes to entries, Proxy.Handler what is sent, asked
-- for and stored. std::hash is an argument, and what the server of a request answers is part of the
-- request: a response is its status code, the times of its headers and its text. C++ leaves the order
-- in which an unordered_map is iterated open; it decides which of several entries goes that were used
-- first in the same second. Handlers run in threads that lock nothing; the model takes them one after
-- the other, and so says nothing of what two of them do to the cache at once.
--
-- Base holds what these share: lists and tests over the native numbers, results, 16-bit words and
-- their bytes, C strings, and std::stoi and std::to_string.
--
-- Memory is little-endian. A pair of a pointer and a length is the list of the bytes it spans; a
-- C string is read up to its first NUL, into what follows the attribute in the message. The
-- iterator of libsbcp runs on fuel 257: an attribute has four bytes at least and the payload 1024.
-- The model ends at a read outside the payload, and up to there Sbcp.Reading.Termination shows that
-- the fuel is enough on any payload. The netascii streams run on the length of their file, since each
-- call of underflow takes a byte.
--
-- Not modelled: the chat client, how the proxy reads a request, what is printed, libudp, the headers
-- and messages of libhttp, the echo client, and the server and client of MP4.
pub mod Base
pub mod Sbcp
pub mod ChatServer
pub mod ChatHandler
pub mod Tftp
pub mod Netascii
pub mod TftpServer
pub mod Http
pub mod Tcp
pub mod Echo
pub mod Proxy
