-- ===== src/Lib.antt =====
-- A verification library for xdccget, a command-line client that downloads files from the bots of
-- IRC networks by DCC.
--
-- The program reads a configuration file and the command line into one configuration, connects to
-- the server, joins channels, asks bots for files, and then lives in a loop: the handlers of the
-- server's events change the configuration's flags and send commands, CTCP requests of bots open
-- DCC sessions, and each round of the loop moves every session on by one step. A session calls back
-- into the client, which writes the bytes it gets to a file and keeps the progress.
--
--   Flags         helper.h: clear_bit, set_bit, get_bit
--   Bytes         C strings as lists of bytes; the functions of libc that the program calls
--                 (Bytes/Number for strtoul and sscanf's numbers), and the interface to sds.c
--                 (Bytes/Sds), a copy of another project, which is a parameter with laws
--   Cfg           helper.h, argument_parser.h, helper.c: the configuration, its flags, logprintf
--   Limit         helper.c: getSizeOf, setMaxTransferSpeed, setDelay; xdccget.c: getSleepTime
--   Options       argument_parser.c: parse_opt for GNU argp, and in Options/Windows parseArguments
--                 with getopt
--   ConfigFile    config.c: parseConfigFile, parseConfigString, the callbacks of the settings, and the
--                 default file
--   Requests      argument_parser.c: parseDccDownloads, parseChannels
--   Progress      helper.c: outputProgress, saveCurrentSpeed, getAverageSpeed
--   Checksum      xdccget.c: extractMD5; hashing_algo.c: convertHashStringToBinary; Checksum/FileHash:
--                 getHashFromFile, readFile (file.c), checksum_verification_thread (os_unix.c)
--   Certificate   helper.c: openssl_check_certificate_callback
--   World         the globals of xdccget.c, the DCC sessions of libircclient-src/dcc.h and the
--                 files, as one record that operations take and give back; an operation returns,
--                 ends the process (exitPgm), or does what C leaves undefined (fault)
--   Dcc           libircclient-src/dcc.c: the session list, irc_dcc_accept, irc_dcc_resume and
--                 their reverse forms, irc_dcc_decline, irc_dcc_destroy
--   Transfer      xdccget.c: recvFileRequest, callback_dcc_recv_file, callback_dcc_resume_file and
--                 their reverse forms, the paths and the nicks
--   Receive       libircclient-src/dcc.c: recv_dcc_file, send_current_file_offset_to_sender and
--                 libirc_dcc_process_descriptors; Receive/Request: libirc_dcc_request
--   Parser        libircclient-src/irc_parser.c: the state machine that reads lines byte by byte
--   LineParser    libircclient-src/irc_line_parser.c: the callbacks that collect the parts of a
--                 line, the messages of RFC 1459 (LineParser/Message), and what the parser makes of
--                 them
--   Incoming      libircclient-src/libircclient.c, utils.c: the buffer of received bytes, and its
--                 lines
--   Session       libircclient-src/session.h, libircclient.c: irc_send_raw and the commands
--   Connection    libircclient-src/libircclient.c: irc_process_select_descriptors, a round of the
--                 main loop, handle_connecting_state, irc_is_connected, irc_disconnect;
--                 Connection/Open: irc_connect_generic; Connection/Run: irc_run;
--                 Connection/Select: irc_add_select_descriptors
--   Tls           libircclient-src/ssl.c: session_socket_read, session_socket_write, ssl_recv, ssl_send
--   Colors        libircclient-src/colors.c: irc_color_strip_from_mirc, irc_color_convert_from_mirc;
--                 Colors/ToMirc: irc_color_convert_to_mirc
--   Commands      libircclient-src/commands.c: get_command and the handlers of the commands;
--                 Commands/Dispatch: handle_parser_result, libirc_event_ctcp_internal
--   Client        xdccget.c: initCallbacks, which ties the handlers of the client to the session
--   Events        xdccget.c: the handlers of the server's events and print_output_callback
--   Watcher       libircclient-src/fd_watcher.c: the watch list of poll; Watcher/Answers: its rounds
--   Tests         examples at concrete inputs
--
-- Pointers to text are Option; a pointer to a session is its id, and a pointer to a download is its
-- index in downloadContext. What the system answers is an input: the record Net of World (connect,
-- bind, fopen, fwrite, …), the record Ready of Receive (readable, writable, the results of the
-- reads), Answers of Connection (the socket of
-- the server), Address of Connection/Open (the sockets that are tried), SocketAnswers of Tls, Sscanf of Receive/Request (one field per
-- format), Env of Options (sds, inet_pton, time).
-- Numbers are natural numbers with the wrap-around of the C type written out. Loops are structural
-- recursion on lists, except that strtoul's digits and the hash conversion run on the length of the
-- text and of the hash, and that two loops have fuel: irc_parser_execute reads each byte twice at
-- most, and process_lines takes a line of two bytes or more from the buffer in each round.
--
-- The loops of irc_color_convert_to_mirc and of readFile have the length of their text as fuel, since
-- each round takes a byte or more.
--
-- Not modelled: getaddrinfo, the system calls
-- and the set-up of TLS (libircclient.c, sockets.c, ssl.c), epoll and select (fd_watcher.c), MD5, getopt and hashmap,
-- which are copies of other projects, mutexes, threads, what is printed, and the folders of the
-- platforms. Connection takes the results of Tls as answers.
pub mod Base
pub mod Flags
pub mod Bytes
pub mod Cfg
pub mod Limit
pub mod Options
pub mod Parser
pub mod LineParser
pub mod Incoming
pub mod ConfigFile
pub mod Requests
pub mod Progress
pub mod Checksum
pub mod Certificate
pub mod World
pub mod Dcc
pub mod Transfer
pub mod Receive
pub mod Session
pub mod Tls
pub mod Colors
pub mod Commands
pub mod Connection
pub mod Client
pub mod Watcher
pub mod Events
pub mod Tests
