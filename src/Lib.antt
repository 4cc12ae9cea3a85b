-- ===== src/Lib.antt =====
-- MiniEAP, an 802.1X client: the authentication state machine and the code below it.
--
-- The program sends EAPOL-Start, answers the server's requests for the identity and the MD5
-- challenge, and waits for success or failure. eap_state_machine.c does this: frames come in
-- through eap_state_machine_recv_handler, alarms through the callbacks that it gives to
-- util/sched_alarm.c, and each of them ends in switch_to_state, which calls the transition
-- function of the new state. The responses are built by packet_builder.c, changed by the selected
-- plugins (packet_plugin/packet_plugin.c) and sent by the network interface. The RJv3 plugin adds
-- private properties to the frames and sends heartbeats after success.
--
-- Which file models what:
--   Prelude: lists, bytes, integers and Boolean tests that the other modules share.
--   LinkedList: util/linkedlist.c, a chain of nodes as the list of its contents.
--   Misc: util/misc.c, the helpers on bytes and digits.
--   Frame: include/eth_frame.h and util/packet_util.c. A pointer is the list of the bytes of its
--     allocation, and an access outside it gives none.
--   Alarm: util/sched_alarm.c, the POSIX branch. Sched has the globals and the seconds of the
--     timer; alarm_sig_handler is one ring, with the callbacks as a parameter.
--   Builder: packet_builder.c, with the digest of md5.c as the parameter compute_hash.
--   Plugins: packet_plugin/packet_plugin.c, the list of plugins and the calls that walk it.
--   Machine: eap_state_machine.c. World holds its state with that of the components it reaches,
--     and a function runs in a monad whose outcome is a result, the end of the program or a
--     fault (a NULL call or an access outside an allocation). Event is what arrives while the
--     interface captures, and run is main from the switch to EAP_STATE_PREPARING on.
--     Run also has internet_check_timed of util/internet_check.c, Offline its failures in a row.
--   Url: internet_check_parse_url of util/internet_check.c.
--   Conf: util/conf_parser.c, the dictionary of the configuration file. The file system is a
--     parameter.
--   Getopt: compat/getopt.c, the parser of the command line for systems without one. getopts is the
--     loop of a caller.
--   Config: config.c, the program's options. Settings has the three structures of
--     include/config.h. Config.CommandLine has the loops over the arguments, and Config.Saving the
--     configuration file; saved_options is the part of save_config_file in front of the plugins.
--   Rjv3: packet_plugin/rjv3: the lists of properties and their parser, the heartbeat, CRC-16 and
--     the coding of bytes. Rjv3.Options has the options of packet_plugin_rjv3.c, Rjv3.Session the
--     plugin's state with the received frames and the second authentication, with what the network
--     functions return in Net, and Rjv3.Append what packet_plugin_rjv3_priv.c adds to a frame, with
--     the hashes and the credentials in Host. The plugin's alarms are events of the scheduler that
--     the heartbeat's state holds; live is a sequence of frames and rings.
--   Examples: the theorems at concrete inputs.
--
-- Bounds: numbers are natural numbers and a cast is written out, except for counters and event
-- numbers of type int, which are taken not to overflow, and the options that the machine reads, which
-- are taken not to be negative. size_t is 64 bits wide. The parser of properties runs on fuel: each round reads at
-- least 6 bytes more than it gives back, so the buffer's length and one round more are enough. my_itoa
-- divides the value in each round, so the value and one round more are enough. parse_lines reads a
-- byte in each round, so the file's length is enough, and getopts takes the fuel as an argument.
--
-- Assumptions: allocation succeeds. Events are handled one after another: a signal that arrives
-- while a handler runs is taken to be handled behind it. What the network does (which frames it
-- takes, which arrive) is a parameter. The frames of the network have the 60 bytes of Ethernet.
--
-- Not modelled: the Windows branches; sockets, pcap, interface addresses, logging and the PID
-- file, which are I/O; the hash library and the MD5 code, which are other projects' copies; the
-- internet check's probe; the getopt_long of a system that has one, whose results are the
-- argument found of the functions that read the command line; the texts of the server, which are
-- only printed; the destination of the log.
pub mod Prelude
pub mod LinkedList
pub mod Misc
pub mod Frame
pub mod Alarm
pub mod Builder
pub mod Plugins
pub mod Machine
pub mod Url
pub mod Conf
pub mod Getopt
pub mod Config
pub mod Rjv3
pub mod Examples
