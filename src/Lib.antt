-- ===== src/Lib.antt =====
-- A distributed file system with one namenode, several datanodes and clients that mount it by FUSE
-- (client.c, namenode.c, datanode.c). A client turns each file operation into a text command with
-- the path under the datanodes' folder and sends it to the namenode (sendcommand of
-- socket_command.c). The namenode finds a datanode for the path in its lists (list.c) and passes the
-- command on; the datanode makes the system call and sends the result as text to the client
-- (sendresponse_… of socket_command.c), which waits for it in a bounded loop and reads the numbers
-- back.
--
-- The files:
-- - Common, with Common/: numbers, lists, options and Booleans; the integers, which are mostly
--   printed, read and compared; where an int is shifted, or is given a longer number, this is written out
--   (shift12 of Client/Dir, to_int of Client/Local).
-- - Text, with Text/: C strings as lists of bytes up to the NUL; strtok, atoi, and snprintf with "%d"
--   into ten bytes (nine characters and the NUL).
-- - Wait: the polling loop of client.c and of check_nodealive in network_common.c. The fuel, 200, is more than the
--   101 tests after which the loop leaves at a counter above 100.
-- - Posix: the operating system as a record of calls over a state of its own, a parameter of
--   everything else; hostname_to_ip and the sending of a datagram.
-- - Reply, Reply/Files: the functions sendresponse_… of socket_command.c, one definition each.
-- - Client, with Client/: the operations my_getattr and xmp_… of client.c. What the receiving thread
--   (receiveresponse_client) hears is a parameter: a datagram and the test of the flag at which it is
--   there, or nothing. The loop of readdir runs on fuel one above the length of the reply, and each
--   entry takes at least one byte. The buffer that FUSE gives to read has the size that it asks for.
-- - RoundTrip, with RoundTrip/: a reply of a datanode as the client's operation reads it.
-- - Registry, with Registry/: list.c. The two linked lists are lists, a node is named by its place,
--   and the global dlist that every walk moves is kept in the state. The link of the last file is never
--   set, so a search of the files that passes it is undefined. Which nodes answer a ping is a
--   parameter. Locate has the choice of a datanode; Fetch, Insert, Room, Known, Invariant and Answer
--   treat it and the insertions.
-- - Dispatch: the turn of the loop of receivecommand_datanode that cuts a message into its parts and
--   makes the call. Dispatch/Request has the requests of client.c, Dispatch/Answered the call
--   that each is for, Dispatch/Orders what becomes of them.
-- - Namenode: the turn of the loop of receivecommand_namenode. Namenode/Invariant treats the lists
--   over a turn; Namenode/Relay and Namenode/Route follow a request of a client to a datanode.
-- - Network, with Network/: an operation of client.c, the turn of the namenode and the turn of a
--   datanode put together. Delivery carries a request through, Reading has the operations that enter no
--   path in the lists, Writing those that do.
-- - Registry/Config: readdnconfig and initdatanodelist of list.c, the datanodes' file read at the start.
--   Every insertion rewrites that file while it is read, so its text must fit the buffer of the stream,
--   whose size is a parameter. Registry/Lines and Registry/Reload treat it.
-- - Ping, with Ping/: sendping and a turn of receiveping of ping.c. Ping/Safety treats the nodes as a
--   step relation: a datagram that was sent may be heard at any time, again, or never.
-- - Paths, with Paths/: the path functions of dd.c on arrays of bytes. Behind the NUL an array has
--   further bytes, since removepath reads them; an access outside of the array is undefined.
-- - Tree, with Tree/: the tree of dd.c on a heap of nodes. The loops along the pointers and the search run
--   on fuel, and the theorems say which fuel is enough: the number of the nodes that are visited.
-- - Replica, with Replica/: replica_sockets.c and replica.c. The streams of the C library, with what a
--   pointer to one means behind its conversion to int, and the other nodes are parameters;
--   Replica/Copy joins create_replica to the turns of two datanodes.
-- - Monitor, with Monitor/: the operator's console of monitor.c and monitor_sockets.c, and the side of the
--   namenode that answers it (monitorcommand_namenode of namenode.c, datanode_sendlist of list.c).
-- - Startup: main of datanode.c and of monitor.c, init of namenode.c and parse_arguments of client.c;
--   the threads are taken to start. Startup/Contact follows the first message of a datanode to the
--   namenode.
-- - Run: a namenode process from its start on, as a relation: its two threads take turns in any order,
--   and each turn is taken as a whole. Run/Safety has what holds in every state; Namenode/Kept reduces
--   it to what the operations of list.c keep, Namenode/Saved and Registry/Names say what they keep.
-- - Server: the turn of the loop of receivecommand_server of socket_command.c, whose chain of tests is its
--   own; Server/Forwarded compares it with that of receivecommand_datanode.
-- - Client/Local: the operations of client.c on the client's own machine, whose calls are a parameter.
-- - Tree/Remove: removefile and removefold of dd.c; the fuel of removefold bounds the depth of its calls.
-- - Tree/Store, with Tree/Store/: storelist and recoverlist of dd.c. The fuel bounds the depth of
--   recursestore and the length of the chains; the theorems say that some fuel is enough.
-- - Witness, with Witness/: the machine and the lists of the examples.
--
-- A result `none` of an operation is undefined behaviour of the C code, such as a text past its
-- array, atoi(NULL) or an index -1, or stands for a message without its path. Errors that the code
-- returns are values: -1, or the negated errno.
--
-- Not modelled: remove_datanode and remove_fileentry of list.c, which nothing calls;
-- the displays, and all output that only informs a person; main of namenode.c beyond init, which only
-- starts threads; the interleaving of the threads of one process inside a turn. testfs.c is a test of file
-- calls, hello.c and fusexmp.c are examples of libfuse, and corefs-1.5 is another project.
pub mod Common
pub mod Text
pub mod Wait
pub mod Posix
pub mod Reply
pub mod Client
pub mod RoundTrip
pub mod Registry
pub mod Dispatch
pub mod Namenode
pub mod Server
pub mod Monitor
pub mod Startup
pub mod Run
pub mod Network
pub mod Ping
pub mod Witness
pub mod Paths
pub mod Tree
pub mod Replica
