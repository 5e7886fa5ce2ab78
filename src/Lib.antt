-- ===== src/Lib.antt =====
-- A model of the mail server's monitor and its clients: c++/base, c++/server and c++/client.
--
-- The two programs (c++/server and c++/client) talk over TCP in packets. A packet is a header of 12
-- bytes (length, module id, command id, version, reserved; all numbers with the high byte first) and a
-- payload. A `CSimpleBuffer` holds bytes, a `CByteStream` reads and writes numbers and texts, a subclass
-- of `CImPdu` is a packet, and a `CImConn` sends packets and takes those that come in off its buffer.
--
-- Files:
-- * Prelude and its children: tests on numbers, lists, memory as a list of bytes with C's copies.
-- * Buffer (c++/base/UtilPdu.h, UtilPdu.cpp, `CSimpleBuffer`): the record `SimpleBuffer` is the block
--   with `m_alloc_size` and `m_write_offset`; `extend`, `write`, `read`, `inc_write_offset` are the
--   methods. Buffer/Laws: one call. Buffer/Refine: many calls, against a queue of bytes.
-- * Stream (the same files, `CByteStream`): `put8`, `put16`, `put32` and `get8`, `get16`, `get32` are
--   the operators, and `write_string`, `write_data`, `read_string` the methods for texts.
--   Stream/Words: `ReadUint16` and the like. Stream/Laws: one operator.
-- * Pdu (c++/base/ImPduBase.h, ImPduBase.cpp, ImPduClient.h, ImPduClient.cpp): Pdu/Types holds the ids,
--   the header, the subclasses and the exception; Pdu/Read is `ReadPdu` with all it calls; Pdu/Compose
--   is the constructors that compose, with `WriteHeader`. The other children are what is proved:
--   Pdu/Frame and Pdu/ReadFrame of the bytes of a packet, Pdu/Message of nine of the eleven messages that the
--   programs compose (all but `CImPduAllClientStatusInfo` and `CImPduClientDone`, which are in Pdu/Reject),
--   Pdu/RoundTrip, Pdu/Texts, Pdu/Reject and Pdu/Undersized of what the parser does with it.
-- * Conn (c++/base/imconn.h, imconn.cpp): `CImConn` with `Send` and `OnWrite`; Conn/Receiving is
--   `OnRead`. Conn/Sending, Conn/Flushing and Conn/Delivery are about the bytes that go out,
--   Conn/Arriving, Conn/Framing, Conn/Reception and Conn/Spinning about those that come in.
--   Conn/Callback is `imconn_callback` with the map of the connections and their counts, `close` of
--   c++/client/clientConn.cpp and c++/server/servConn.cpp as one of the handlers, and Conn/Callback/Counts
--   and Conn/Callback/Alive about it, with runs in Conn/Callback/Runs.
-- * Base64 (c++/base/base64.cpp): `base64_encode` and `base64_decode`. Base64/RoundTrip: decoding what
--   has been encoded.
-- * LogAdhoc (log_adhoc.c, a file of the mail server with changes of this repository): the delays of a
--   message. `delta` is the macro DELTA with its two loops `borrow` and `carry`, and `delays` the part of
--   `log_adhoc` that applies it. LogAdhoc/Sums: one delay. LogAdhoc/Whole: all of them.
-- * Mysql (c++/base/mysql.h, mysql.c): `strtrim` and what it calls, with Mysql/Trim about it. Mysql/Table is
--   `mysql_fill_data` and `free_result_data` on a heap; Mysql/Table/Column, Filling and Rows are about what
--   is filled in, Freeing and Release about what is released. Mysql/Walk is the walk over a table and
--   `mysql_result_data_convert_json`, with Mysql/Walk/Found and Report about them; Mysql/Query is the other
--   functions, and Mysql/Counts those of the programs that ask for one value, with Mysql/Counts/Having
--   about `_haveSendInfo`. Mysql/Sample is a result for the runs in Mysql/Runs.
-- * Title (c++/base/prename.c): the name of the process. Title/Layout is about the arguments and the
--   environment in memory, Title/Renaming about the name.
-- * Util (c++/base/util.cpp, util.h): `CStrExplode`, `stripLineSep`, `getExtension`, `get_tick_count`,
--   each with a child about it.
-- * Config (c++/base/ConfigFileReader.h, ConfigFileReader.cpp): `CConfigFileReader` on the bytes of a
--   file. Config/Trim, Config/Lines and Config/Load: a text, a line and a file.
-- * Net (c++/base/BaseSocket.h, BaseSocket.cpp, and `CRefObject` of util.cpp): the sockets in memory,
--   their counts and the map from handles. Net/BaseSockets is the methods of `CBaseSocket`, Net/Netlib
--   netlib.cpp, Net/Dispatch and Net/Timers EventDispatch.cpp. Net/Counts, Net/Balance, Net/Closing and
--   Net/Making are about the counts over one operation, Net/Rounds over the handlers and the event loop,
--   Net/Keeping over the functions of netlib, Net/Firing, Net/Apart and Net/Schedule about the timers.
-- * Server (c++/server/manager.h, manager.cpp, monitoring.h, monitoring.cpp): `cManager` and
--   `cMonitoring` with the connections, and the commands. Server/Handling is servConn.cpp.
--   Server/Agreement, Server/Steps, Server/Small and Server/Commands are about the server and a worker that obeys it,
--   Server/Timeouts and Server/Eviction about the timer.
-- * Client (c++/client/clientConn.h, clientConn.cpp, and `cWorker` of worker.h and worker.cpp): the
--   connection and the settings of the worker. Client/Timing is the timer, and Client/Reconnecting
--   about it. Client/Processes is the count of `cMasterProcess` in worker.cpp, and Client/Pool about it;
--   Client/Mail is c++/client/sendMail.cpp, and Client/Headers about the text of a mail. Client/Pulling is
--   `pullSentInfoFromMysql` with the loop that sends, Client/Pulling/Mails about the mails of the rows, and
--   Client/Pulling/Rounds about what sendmail is given.
--   Client/Locks is the locks of the shared memory (`shm_shared_t` of worker.h and `CThreadLock` of
--   c++/base/util.h) as a step relation of threads, with Client/Locks/Held about who holds what,
--   Client/Locks/Exclusion about `childLock` and Client/Locks/Crossing about the two others.
-- * The children named Tests hold runs at concrete inputs; Buffer/Sample a `realloc` for them.
--
-- Conventions. A byte is a number, and memory a list of them; an access outside the block is `none`
-- (`fault` where a call can also throw), so that a theorem that a call returns something says as well
-- that it stays inside. uint32_t arithmetic is written out modulo 2^32. `realloc` is a parameter, the
-- record `Allocator`: a new block has the size asked for and keeps the bytes, and it may fail. That it
-- does not fail below a limit is the hypothesis `Grants`, which Buffer/Sample meets. The local arrays
-- that the `>>` operators read into, and do not set, are the parameter `stack`. The results of
-- netlib_send and netlib_recv are those of an arbitrary socket: the lists say how many bytes each call
-- is willing to take or to return. The lengths that are of type int in `Send` and `OnWrite` are negative
-- from 2^31 on, which the definitions say, and the theorems stay below. A theorem on sizes asks for a
-- quarter more than the bytes there are, since `Extend` does.
-- In Net an object that was deleted is `none` as well. `IsNet` says how many references are held to each
-- socket, besides that of the map, and that the counts cover them; `Ends` says of a run that it returns,
-- and what holds then. A callback is a parameter, of which `Keeps` asks that it returns and leaves the
-- references of others alone, as one that closes its socket does. The results of system calls, of the
-- database and of JSON readers and printers are arguments; `ReadsBack` asks that the JSON of a status
-- whose numbers fit 16 bits, as those of the source do, is read as it was printed. A connection of
-- Server or Client keeps the packets given to `SendPdu`, whose bytes are the matter of Conn.
--
-- In Mysql/Table the heap maps places to cells, and `calloc` returns a place that was never in use. The
-- MySQL library is the record `MysqlLibrary` with an answer for each query, cJSON the record `Json`. In
-- Client/Locks a state has the holder of each lock and what each thread has yet to do with the locks in its
-- round; any thread may move next, a wait may end by itself, and which round a thread begins is open.
--
-- Fuel. `send_loop` and `flush_loop` take as many rounds as there are bytes to send, and each round
-- that goes on sends one at least. `drain`, the loop of `OnRead` that parses, takes a round more than
-- there are bytes; a packet takes 12 at least, except for the hollow ones of
-- Conn/Spinning. `borrow` and `carry` take a round for each microsecond, where a round of them changes
-- a million.
--
-- Not modelled: `idtourl` and `urltoid`, which nothing calls; the forks, the shared memory itself and
-- the count of mailq of worker.cpp; the two `main` functions, and loadBalance.cpp, which is empty; threads,
-- the log and the character sets of util.cpp; the text of the line that log_adhoc.c writes and its record in
-- MongoDB; the copies of cJSON and jsoncpp. The signed readers and writers of `CByteStream` are the
-- unsigned ones, on the same bits.
pub mod Prelude
pub mod Buffer
pub mod Stream
pub mod Pdu
pub mod Conn
pub mod Base64
pub mod LogAdhoc
pub mod Mysql
pub mod Title
pub mod Util
pub mod Config
pub mod Net
pub mod Server
pub mod Client
