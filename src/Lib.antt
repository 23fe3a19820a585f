-- ===== src/Lib.antt =====
-- ivckolpak: recording of RTSP cameras around alarms.
--
-- The program. `main.cpp` reads a configuration (config.cpp), starts a TCP server for alarms
-- (alarm_server.cpp), and a `CameraManager` (camera_manager.cpp), which owns one `CameraNode`
-- (camera_node.cpp) per camera. The server decodes alarms and pushes them to an `AlarmQueue`
-- (alarm_queue.cpp); the manager's loop pops them, finds the camera and hands the alarm to its
-- node. A node joins an `RTSPStream` (rtsp_stream.cpp), whose thread reads packets and connects
-- again when the connection is lost, and a `RecordingSession` (recording_session.cpp), which keeps the
-- last groups of pictures in memory, writes them and what follows to MP4 files during an event, and
-- starts a new file when a chunk is full.
--
-- What models what:
--   Prelude/*            bytes, 64-bit words, integers, association lists, IEEE doubles as bit patterns
--   Alarm/Event          alarm_event.hpp
--   Config/Types         config.h
--   Config/Address       extract_ip_hex_from_rtsp (config.cpp), hexToIp (utils.hpp)
--   Config/Convert       the two forms of an address, one read from the other
--   Config/Filename      sanitize_filename, format_filename (config.cpp)
--   Config/Load          trim, merge_configs, the settings of the section global (config.cpp)
--   Config/Load/File     load_config; Serial beside it
--   Pool                 PacketPool (packet_pool.hpp)
--   Script               execute_script_async (utils.hpp); Macros, Clashes, Replace and
--                        Template below it hold its theorem, Plain the one for texts without macros
--   Session/Packet       RecordingSession::Packet
--   Session/PreBuffer    add_to_pre_buffer, drop_oldest_gop_from_pre_buffer, the emergency clearing;
--                        Sync, Drop, Limits and Add below it hold what is proved of them
--   Session/Analyzer     StreamAnalyzer; Sound below it
--   Session/State        the fields of RecordingSession, and what its calls of FFmpeg return
--   Session/Muxer        init_muxer, write_packet_to_file, add_to_post_buffer, finalize_file_io
--   Session/Rotate       finalize_and_rotate, in the three parts that its locks make
--   Session/Push         push_packet
--   Session/Control      start_event, continue_event, stop_event, force_stop, shutdown, get_stats
--   Session/Valid        the invariant of a session, and that each operation keeps it
--   Session/Graph        the diagram of a session's states; Calls below it
--   Session/Run          sequences of calls
--   Session/Record, Session/Chunks, Session/Notify
--                        what an event writes, when a chunk ends, whom a forced stop notifies
--   Session/Limit        the number of chunks of an event; Calls below it
--   Alarm/Queue          AlarmQueue (alarm_queue.cpp); Order below it
--   Alarm/Frame          findJsonEnd (alarm_server.cpp); Objects below it describes the texts of objects
--   Alarm/Decode         the fields of an alarm and its address (processBuffer)
--   Alarm/Server         processBuffer, runClient; Frames, Append, Chunks, Settle and Client below it
--   Stream/State, Stream/Input, Stream/Read
--                        RTSPStream's fields, open_input and close_input, the loop that reads packets and
--                        the watchdog
--   Stream/Reconnect     run (rtsp_stream.cpp); Backoff, Notices and Exit below it
--   Node                 CameraNode (camera_node.cpp); Node/Valid
--   Manager              CameraManager (camera_manager.cpp); Manager/Index, Manager/Stops,
--                        Manager/Timeouts,
--                        Manager/Registered
--   Alarm/Listener       start, stop and runListener (alarm_server.cpp)
--   Stream/Lifecycle     start and stop (rtsp_stream.cpp); Idle below it
--   Config/Repository    ConfigRepository (config_repository.hpp)
--   Executor             ScriptExecutor (script_executor.hpp); Order, Stop, Stop/Left and Stop/Join below it
--   Stats                CameraStats (stats.hpp), collect_stats, the sums of main's thread; Sums below it
--   Logger               Logger (logger.hpp)
--   CommandLine          the loop over the arguments (main.cpp); Print and Interval below it
--   Startup              main.cpp up to its loop; Silent and Ready below it
--   Program              the running program: the manager, the queue and the server's clients over
--                        interleaved steps, and the end of main; Nodes, Valid, Order, Delivery and
--                        Whole below it
--   Samples, */Tests     data for tests, tests
--
-- State and operations. An object is a record of its fields; an operation is a function from the
-- record to the record, with the result beside it. A session's calls under its lock are one
-- step; `finalize_and_rotate` releases the lock between its parts, so these are functions of their own
-- (`begin_finalize`, `finalize_file_io`, `end_finalize`), and a call of another thread is put between
-- them where a theorem is about that. What happens to files, packets and callbacks is a list of
-- effects in the session. Log lines are left out but for those
-- that the thread of main writes up to its loop (Startup). Threads are
-- sequences of steps in any order: in Program a step is a read of a client with its processBuffer, a
-- round of a loop of the manager, a packet or a lost connection of a camera, or the end of main; in
-- Executor it is one step of a worker between two accesses to what the workers share.
--
-- Parameters. FFmpeg, the clocks, `strftime`, the arithmetic of doubles, and what sockets deliver are
-- not in the repository: what a call returns is an argument (`OpenReply`, `RotateReply`, `Moment`), and
-- the functions are the fields of a record (`Library`, `FloatOps`). Theorems hold for all of them.
-- Doubles are compared by their bit patterns as IEEE 754 does; the build's -ffast-math lets the compiler
-- assume that no NaN occurs, so nothing is claimed of a NaN.
--
-- Fuel. The loop of add_to_pre_buffer over the key frame limit has as many rounds as the pre-buffer
-- has packets, and two more: each round removes a packet until none is left, and from then on a round
-- changes nothing, so a loop that has not ended by then never ends.
-- processBuffer has one round more than its buffer has bytes; each round but the last takes off one at
-- least. The loops of threads run over a list of what they meet (reads, rounds), which ends where a stop
-- is requested.
--
-- Not modelled: json.h (third party), the text of log lines, statistics and help, the sockets and
-- clocks, the delivery of signals (a signal is the step that ends main). The order of memory accesses
-- within a step of Program is the source's, and steps do not overlap. Memory is not modelled: a packet
-- that is freed is an effect `dropped` where it was not written.
mod Prelude
pub mod Alarm
pub mod Config
pub mod Session
pub mod Stream
pub mod Node
mod Samples
pub mod Manager
pub mod Pool
pub mod Script
pub mod Executor
pub mod Stats
pub mod CommandLine
pub mod Logger
pub mod Startup
pub mod Program
