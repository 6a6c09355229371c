-- ===== src/Lib.antt =====
-- asapo moves data from detectors to analysis programs. Producers send messages over TCP to receivers,
-- which keep the data in a ring of memory slots and on disk and store a record of each message in a
-- database; consumers ask a broker for records and fetch the data from the receiver's slots, from the
-- file system, or through a file transfer service. Modelled are the C++ parts below; paths are from the
-- repository's root.
--
-- Common (common/cpp)
--   Common/Networking.antt: operation codes, error codes, request header and ingest flags
--     (include/asapo/common/networking.h, data_structs.h).
--   Common/RequestPool.antt: the queue of requests and its worker threads (src/request/request_pool.cpp).
--     Each function that holds the mutex is one step: enqueue, enqueue_all, start_request, finish_request,
--     stop_threads and so on; Accounts has the step relation in which the threads interleave. The wait for
--     the end of all requests is a recursion on its readings of the pool, one every 100 ms.
--   Common/SystemIo.antt: the loops of Transfer, SendFile and ReceiveDataToFile (src/system_io/system_io.cpp)
--     over what each call of the operating system does.
--   Common/Encoding.antt: names of databases and collections, and quoted text in queries
--     (src/database/encoding.cpp). A text is the list of its bytes.
--   Common/DataStructs.antt: options that are sent as numbers (include/asapo/common/data_structs.h).
--   Common/Database.antt: the client of the database (src/database/mongodb_client.cpp): its connection and its
--     current collection. Its children: Client has the types and the calls of the library, Write the
--     insertions, Read the records, the states of streams and the last stream, Delete the deletion of a
--     stream; Runs and Current have what holds of the current collection, Serves of a client that stays
--     connected, Calls and Session sequences of calls. There is no result where the code uses a pointer
--     that is null or freed. The calls of the MongoDB library are the functions of a record; ListServer
--     has a small server for concrete runs.
--
-- Producer (producer/api/cpp/src)
--   Producer/Send.antt: producer_impl.cpp, the checks of a message and its way into the pool; its child
--     Delivery follows an accepted message to the receiver's list of handlers.
--   Producer/Request.antt: producer_request.cpp. Producer/Discovery.antt: receiver_discovery_service.cpp, the
--     list of receivers and its rotation.
--   Producer/Tcp.antt: request_handler_tcp.cpp. process_request_unlocked is ProcessRequestUnlocked, with
--     connecting, authorizing, sending, the answer's codes, reconnection and rebalancing below it. Its
--     children Connection and Receivers have a connection and the list of receivers. The
--     pool calls it between prepare_processing_request_locked and tear_down_processing_request_locked.
--   Producer/EventMonitor.antt: producer/event_monitor_producer/src/system_folder_watch_linux.cpp, the folders that
--     are watched; its child Events has what each event does, and the files that it makes known. Its
--     child Detector is folder_event_detector.cpp and the loop of main_eventmon.cpp, up to the calls of SendFile.
--
-- Receiver (receiver/src)
--   Receiver/Cache.antt: data_cache.cpp, the ring of slots. Addresses are offsets into the buffer; a
--     pointer to a slot's record is a handle that is never used twice, so a dangling one is visible.
--   Receiver/Buffer.antt: the data buffer of request.cpp, and request_handler/request_handler_receive_data.cpp,
--     which receives into a slot of the cache.
--   Receiver/Factory.antt: request_handler/request_factory.cpp, from a header to a list of handlers.
--   Receiver/Request.antt: request.cpp and request_handler/requests_dispatcher.cpp: the run of the handlers
--     and the response. Receiver/Request/Handlers.antt: the handlers of files and of the database.
--   Receiver/FilePath.antt: request_handler/file_processors, the name and the root folder of a stored file.
--   Receiver/Streams.antt: request_handler/request_handler_db*.cpp, the requests on streams and metadata, on the
--     client of Common/Database.antt.
--   Receiver/Statistics.antt: statistics, what is counted of the requests and reported; its child Accounts has
--     runs of calls.
--   Receiver/Connection.antt: connection.cpp, the loop over the requests of a connection, from the header
--     through the factory and the handlers to the response.
--   Receiver/Authorization.antt: the authorization handlers and client of request_handler, on the data that the
--     handlers of a connection share.
--   Receiver/DataServer.antt: receiver_data_server, the server of the cached data, on the ring of slots.
--
-- Consumer (consumer/api/cpp/src)
--   Consumer/Tcp.antt: tcp_connection_pool.cpp and tcp_consumer_client.cpp, the client of the data server.
--   Consumer/Service.antt: consumer_impl.cpp and consumer_impl.h, errors from replies and the search for a
--     service. Its children: Repeat has the loop that Timeout, which has ServiceRequestWithTimeout, shares
--     with GetDataFromFile, Record has GetRecordFromServer, Data and Data/Transfer have RetrieveData with its
--     three sources, and Message has GetMessageFromServer, which joins them. The client of
--     Consumer/Tcp.antt is a parameter there, as the fabric client is.
--
-- Base.antt passes on the names of the libraries, and has the Boolean tests on numbers, lists, 64-bit
-- words and functions that change the state of the world.
--
-- Calls of IO, database, clock and discovery are the functions of a record, over a state W of the world;
-- what they do is a parameter. uint64_t is a number with its wrap-around written out (add64, sub64);
-- theorems that need it have as hypothesis that sizes are small: below 2^62 for the pool's memory, and a
-- cache below 2^63 with requests of at most half of it. Milliseconds and offsets in files are numbers
-- without a bound.
--
-- Fuel: receive_data_to_file and send_file take a number of rounds, and one more than the size of the
-- file is enough where every call moves at least a byte. The consumer's loops take one, too: a round
-- lasts at least the 100 ms of its sleep, so one round more than the timeout has tenths of a second,
-- rounded up, is enough. Insert calls itself at most once where the counter of the stream is never
-- zero, so two rounds are enough. The number of rounds of a connection's loop is up to the producer.
-- The other loops run over lists, or over the given readings.
--
-- Left out: logs, the calls of the timers, and the texts of errors; the receiver's reception of
-- metadata, the rest of system I/O, the consumer's requests on streams and acknowledgements, the
-- configuration of the event monitor, and JSON, whose reader is a parameter; the services in Go, the
-- fabric transport, language bindings and third-party code.
pub mod Base
pub mod Common
pub mod Consumer
pub mod Producer
pub mod Receiver
