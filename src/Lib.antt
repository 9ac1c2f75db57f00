-- ===== src/Lib.antt =====
-- HZRobot: the control program of an inspection robot. A web server takes commands and forwards
-- requests, a queue hands photo tasks to a polling thread, and the thread drives the photo
-- service over HTTP. The development models the parts of the program that hold its own logic.
--
--  - Queue: Include/queue/queue.hpp, `CRequestQueue` with its mutex and condition variable, as
--   steps of threads over whole states. `put`, `get`, `resume`, `erase`, `queue_clean`.
--  - Task: Include/task, the retry loops of `PhotoTask::execute` and `TaskBase::execute_after` and
--   a round of `TaskManger::taskPoll`. The network and the JSON of a reply are a function from the
--   number of a call to its outcome; an exception anywhere in a `try` block is the outcome that
--   threw. The limit `cn_photo` bounds both loops, so they recur on the calls that are left.
--   Task.Service makes the outcome of a call from the client and the decoder.
--  - Server: `handle_request` of Include/http/Source/HttpServer.cpp with its routes, in Server,
--   Server.Reply (responses, paths, content types) and Server.Upload (the multipart upload of a
--   configuration file). A request is the parts that the handler reads; `atoi` and the file system
--   are functions that it asks, JSON is decoded and encoded by the model of json.hpp, requests to
--   the robot are sent by the model of the client, and what it does is a list of effects.
--   A configuration file is opened once in an upload, or writes nothing more. Each call of `send`
--   for the robot is an effect, with the whole of the request. Server.Session has the sessions,
--   whose operations complete by events, and Server.Session.Requests which requests they answer.
--  - Http: Include/http/hpp, in Http.Message, Http.Request and Http.Response (http_parser.hpp) and
--   Http.Client (`htoi`, `recv_callback` and `sync_client::call` of http_client.hpp). The network
--   is what `send` returns and the pieces that `recv` delivers. A round of a loop passes at least
--   one byte of the buffer, so its length is the fuel.
--  - Json: Include/util/json.hpp: the nodes and their operations, Json.Decode and Json.Encode. The
--   fuel of `parse_object` is one more than the length of the text; each round of its loop and
--   each level of the recursion passes a character. An object decodes one text.
--   Json.Documents describes documents and their texts on its own, for the decoder to be compared.
--  - Text: Include/util/string.hpp: the Base64 and URL codes, in Text.Base64 and Text.Url, the
--   searches in Text.Search, and splitting, replacing, trimming, the test for UTF-8 and the print
--   of bytes in Text.Edit. A text is the list of its bytes; a `const char *` is cut at its first
--   NUL. `split` and `replace_all` find at most one separator at each position of the text, so
--   its length is the fuel; an empty separator uses it up, as the source does not end.
--  - Timer: `timer_manager` of Include/util/timer.hpp, the multimap as a sorted list. The clock is
--   a parameter, and a callback is the list of what it asks of the manager. `do_timer` has fuel
--   for the timers that it calls; Timer.Ends says when twice their number is enough.
--  - Net: `connection`, `connector` and `acceptor` of Include/net/epoll.hpp, one object with its
--   timers and what it asks of the system, in Net (epoll, timers, `close`), Net.Send, Net.Recv,
--   Net.Acceptor and Net.Connector (`async_connect` and the events of `run`); Net.Address has
--   the addresses of socket.hpp. What `send`, `recv` and `connect` return and what the
--   callbacks do are parameters; the loops recur on what the calls return. A use of the object
--   after `delete this` is an outcome of its own.
--  - Boost: parseUrl and the texts of requests of Include/http/Source/HttpBase.cpp, and in
--   Boost.Handlers the handlers of HttpBoost.cpp as steps between the operations of Boost.Asio.
--  - Database: `mysql` of Include/mysql/mysql.hpp, a connection that opens itself again, on the
--   MySQL client library as a parameter; Database.Result has `mysql_result::parse` and the
--   `db_result` of Include/common/db.hpp, and Database.Pool the connections of the threads.
--  - Serial: the functions on serial ports of Include/com/Source/linux_serial.cpp over the table of
--   the ports, with Serial.Settings and Serial.Control; Serial.Entries says as a relation how each of
--   them can change the table. Serial.Device and Serial.Reading have `CSerialPortImp` of
--   linux_serialport_imp.cpp; its loop recurs on what its passes find.
--  - Json.Models: the encoding of types that SHINE_JSON_MODEL declares, as a universe of their
--   fields' types; a field of type `int` is an integer, and those that 32 bits hold are IsInt.
--   Json.Models.Docs has the documents that the values stand for, with numerals of digits only,
--   and Json.Models.Reading the decoding.
--  - Config: `Config` of Include/robot_config/Header/config.h, with TinyXML as a record of its calls;
--   the loops of Config.Photo recur on fuel, enough being the number of siblings. Config.Body
--   has the body that `PhotoTask::execute` sends.
--  - Package: `serial::encode_size`, `serial::decode_size` and `package_t` of
--   Include/util/tool.hpp, for a 64-bit `size_t`.
--
-- Prelude holds what the modules share, and Tests the runs on small inputs. Words of w bits are
-- natural numbers with their wrap-around written out; `x & (2^k - 1)` is `x % 2 ^ k`, and `|` of
-- bits that do not overlap is `+`.
--
-- Not modelled: the listener and the parsing of requests (Boost.Beast), the loop of `run` over
-- the events of several objects and the calls of sockets (Include/net), the engines for other
-- systems (iocp.hpp and kqueue.hpp), the rest of Include/mysql, logs and pools (Include/util),
-- and the copies of other projects' code: TinyXML (Include/xml), the MySQL headers, SHA-1, MD5
-- and AES (Include/util), the serialization macros of Include/shine_serial, which nothing calls.
pub mod Prelude
pub mod Text
pub mod Package
pub mod Queue
pub mod Task
pub mod Server
pub mod Json
pub mod Http
pub mod Timer
pub mod Net
pub mod Boost
pub mod Database
pub mod Serial
pub mod Config
mod Tests
