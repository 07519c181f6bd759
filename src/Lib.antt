-- ===== src/Lib.antt =====
-- A model of socket++, a C++ library for I/O on descriptors, pipes and sockets, and of the
-- protocols and handlers on top of it. A BaseIO class (socket++/base_io.hpp) owns a descriptor;
-- an I/O protocol (socket++/io) is a template over a BaseIO class and calls its _o, _i and
-- _i_fixsize; a handler (socket++/handler) makes the sockets: a client connects one, a server
-- listens and accepts them.
--
-- Common has what all modules share. An operation is a function from a state to an outcome and a
-- state (Common/Outcome): it returns, throws one of the library's exceptions, or halts, by
-- undefined behaviour, by waiting for itself, or because the rounds given did not suffice.
-- Integers are natural numbers with their bound or their wrap-around written out, bytes are
-- numbers below 256, and Common/Int has the signed results of system calls and the
-- casts to signed types. Describe has the
-- texts of the exceptions.
--
-- Transport is the interface between a protocol and the BaseIO class under it, the operations _o
-- and _i_fixsize, and the contract that a connected stream keeps. BaseIo is socket++/base_io.hpp
-- and .cpp: Fd, Pipe and Socket have the methods of base_fd, base_pipe and base_socket, Filling
-- the loop of the fixed-size reads, Construction the constructors, Lifetime the destructors,
-- Sharing the objects that share one descriptor; BaseIo/Socket/Stream shows how base_socket is a
-- transport. Ssl is socket++/base_ssl.hpp and .cpp, a socket that has an OpenSSL session or none.
-- The calls of the system and of OpenSSL are parameters (the records Os, ServerOs, ClientOs,
-- Resolver and others), with what their manuals say of them as hypotheses where a theorem needs
-- it.
--
-- SimpleSocket is socket++/io/simple_socket.hpp and .cpp: the scalars and strings, Bytes with
-- swapBytes, Operators with << and >> and chains of them, Truncated for connections that end too
-- early, Var with o_var and i_var, File with read_to_file, Transfer with write_from_file, o_file
-- and i_file, Named with temporary files, files given by a path and descriptors that are passed.
-- Modules called Hashed have the same methods as they are in a build with SSL, where both sides
-- compute the MD5 digest of a file. TextSocket is socket++/io/text_buffered.hpp and .cpp, with
-- Object for the methods on the object's buffer and separator, and OverSsl for lines in an SSL
-- session. Tunnel is socket++/io/tunnel.hpp and .cpp, the relay between any two descriptors.
-- Client is socket++/handler/socket_client.cpp. Server is socket++/handler/socket_server.hpp and
-- .cpp, with Object for the constructors and the destructor, Stoppable for the waits that
-- monitored descriptors interrupt, Pool for the activity loop, Clients for the data attached to
-- clients and the threads that they are put in. UnixSocket is socket++/base_unixsock.cpp, and InetSocket the addresses of
-- socket++/base_inet.cpp. Tests has systems to run these on, and the theorems at concrete inputs.
--
-- Loops are recursion on fuel. Where a theorem says that an operation returns, its fuel is what
-- the code cannot exceed: a line needs at most one read for each byte that waits, and one more; a
-- fixed-size read, a written text and a file need a round for each byte, and one more; a dynamic
-- value needs its depth; a temporary file is tried under 65536 names at most, as in the code. The
-- rounds of select() that signals interrupt, and those of a pool or a tunnel, have no bound in
-- the code, and their fuel is a parameter.
--
-- Not modelled: the type definitions of socket++/quickdefs.h; allocation failures; and threads that
-- run methods of one server at the same time, since each method is one function of the state. MD5 is
-- OpenSSL's, and a parameter like it. The reference count and the dynamic value type come from
-- another library: of the former only how many objects are left is used, and of the latter the
-- alternatives that the code switches on.
pub mod Common
pub mod Describe
pub mod Transport
pub mod BaseIo
pub mod SimpleSocket
pub mod TextSocket
pub mod Client
pub mod Server
pub mod Tunnel
pub mod UnixSocket
pub mod InetSocket
pub mod Ssl
pub mod Tests
