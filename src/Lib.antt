-- ===== src/Lib.antt =====
-- A verification library for ratbond, a WAN bonding program in Go. A client makes one or more KCP
-- sessions to a server for each WAN link; both ends have a tun device, and spread the packets that
-- they read from it over the sessions.
--
-- The parts, the files that model them and the code:
-- - Packet/Flow: ExtractSrc and ExtractDst of main.go, the keys under which packets are hashed.
-- - Packet/Wire: g_hello, the LINKDOWN message, and how both ends tell messages from frames.
-- - Session, Client/State: RatSession and its methods of r_tunnel.go; serverConnection, serverType
--   and g_server_list of main.go, as a world that the operations pass on.
-- - Client/Choose: client_choose_kcp_conn. Client/Disconnect: client_close_connection,
--   client_send_linkdown_message and the three client_disconnect_session_by functions.
--   Client/Opening: createTun, create_session and NewSession. Client/Connect: client_connect_server
--   and client_check_paths.
-- - Client/Reader: client_handle_kcp and client_send_hello. Client/Tunnel: client_handle_tun.
--   Client/Ping: client_send_server_pings. Each is one round of its loop.
-- - Client/Invariant, Quiet, Closing, Matching, Disconnected, Adding, Histories, Scheduler, Slots,
--   Receive, Forward, Refines and Age hold the proofs about these. Client/Staying, Standing, Mapping,
--   Completing, Connecting, Connected and Linking hold the proof about client_connect_server as a
--   whole, from its silent parts to the entry. Client/Overlap: its part behind the freed mutex, in
--   the two pieces between which another call may run, with Client/Filling and Overlapped about two
--   calls at once. Client/Sound and its children: what holds of the client's state between any two
--   actions, part by part (Steps, Locks, Losing, Rounds, Serving, Joining, Connect, Linking), and the
--   states that the client reaches (Reachable).
-- - Server/State: clientConnection, clientType and g_client_list, beside the client's world.
--   Server/Accept: server_accept_conn up to its loop, and server_handle_kcp_listener. Server/Choose,
--   Disconnect, Reader, Tunnel and Ping: server_choose_kcp_conn, server_disconnect_session_by_convid,
--   the read loop of server_accept_conn with server_send_hello, server_handle_tun, and
--   server_send_client_pings. Server/Invariant, Closing, Disconnected, Accepted, Joined, Forward and
--   Age hold the proofs about these. Server/Sound and its children (Steps, Locks, Rounds, Serving,
--   Joining, Accepting, Listening) and the states that the server reaches (Reachable): as on the
--   client.
-- - Main/Loop: run_client and run_server, with Main/Pings about their timing. Main/Cli and
--   Main/Parse: the flags, the globals and parse_cli of main.go, with Main/Masks, Main/Parsed and
--   Main/Outcome about what it accepts.
-- - Network/Interfaces, Lookup, Wan and Sysctls: the queries of p_network.go and get_wan_ip of
--   p_utils.go,
--   with Network/Addresses about the latter. Network/Netlink: the loops of p_netlink.go over the
--   reports of links and routes, which call the client's operations, with Network/Links about them.
-- - Aggregator/State, Mqtt, Handlers and Loop: the globals, requests and loop of p_aggregator.go and
--   the handlers of p_mqtt.go, which set the globals by parse_cli and start the client.
--   Aggregator/Quiet, Faithful, Runs, Conversation and Told hold the proofs about these.
-- - Util/Address, Util/Hosts and Util/Size: To4 and String of net.IP, IpHosts, ipinc and the
--   ByteCount functions of p_utils.go, with Util/Slash30, Masked, Counting, AllHosts and Endless
--   about IpHosts on an IPv4 network.
-- - Logging: FormatterHook and init_logging of p_logging.go, with Main/Logged about the flags.
-- - Print/Format, Servers, Clients and Status: printServerList, printClientList and what they call
--   in p_utils.go, and the status page of r_http.go, with Print/Pieces and Order about the order of the
--   connections.
-- - Outside: what the program calls and does not contain, as one record of operations and laws (the
--   clock and map order of Go, kcp-go, water, stathat.com/c/consistent, ipv4, net, kong, the MQTT
--   library, shell commands), with an instance in Outside/Sample. Every call has a number, so that
--   each may have its own result.
-- - Base: shared names, texts as lists of bytes, maps as association lists, and the state monad
--   with panics, self deadlock and exits as faults.
--
-- A *serverConnection is an index into a heap, since goroutines keep the pointer after the entry has
-- left the map; a *serverType is named by its tunnel id. A function runs to its end in one piece,
-- but for client_connect_server in Client/Overlap;
-- a mutex that is locked twice in one run is the fault `deadlock`. Integers are natural numbers,
-- wrapped at 32 or 64 bits where the code could pass these. Times are nanoseconds; float32 rates are
-- the bits that an operation of Outside gives.
--
-- Fuel: the slot search makes at most twelve tests (unless tunnelid + 10 is 2^32 - 1), the loop of
-- IpHosts five rounds for a /30 and one more than there are addresses for any other mask of an IPv4
-- network but /0, and the loop of the ByteCount functions fewer than the size; theorems below say
-- that these are enough.
--
-- Not modelled: the log lines, and logrus behind the logger; pbkdf2, the ciphers and the sockets of
-- kcp-go, and net/http behind the status page; the subscriptions of the netlink library, whose
-- reports are lists here; rounds of several goroutines that interleave inside one function. The
-- file t/main_withchannels.go is an older copy of the program that the build does not use.
mod Base
pub mod Outside
pub mod Network
pub mod Server
pub mod Session
pub mod Logging
pub mod Client
pub mod Aggregator
pub mod Packet
pub mod Util
pub mod Main
pub mod Print
