-- ===== src/Lib.antt =====
-- batmand-adv, the user space daemon of the B.A.T.M.A.N. advanced mesh protocol, as definitions that
-- run, and what makes its parts correct.
--
-- A node sends an originator message per interface, forwards those of others, and from the ones that
-- come in ranks its neighbours as routers towards each originator. Data frames from a tap device are
-- wrapped and sent along these routes. The program is one loop in `batman` (batman-adv.c), which waits
-- for a packet, handles it, brings the announced hosts up to date, sends what is due, and once a second
-- removes what timed out.
--
-- Base: names and lemmas that all files share. Tests: concrete inputs.
-- BitArray: bitarray.c, the windows of the last 64 sequence numbers, by words of a width that is a
--   parameter. A window is read as the number `value`.
-- RingBuffer: ring_buffer.c, the last ten link qualities of a neighbour.
-- Hash: hash.c and hash.h, a chained table with two callbacks, which a record of laws describes.
--   Iterate: `hash_iterate` and `hash_remove_bucket` on chains whose elements have addresses.
-- Address: `compare_orig` and `choose_orig` of originator.c, the callbacks of both tables.
-- Mesh: the structures of packet.h, batman-adv.h and trans_table.h, the globals as a record, and the
--   monad of the functions that read and write them. A pointer is a number, `none` is a fault (a read
--   through a dangling pointer, an index out of an array, undefined arithmetic) or the end of the
--   program by `restore_and_exit`.
-- TransTable: trans_table.c, which host sits behind which node: Defs, Buffer (`hna_add_buff`,
--   `hna_del_buff`), Update (`hna_update`).
-- Routes: `update_routes` and `update_gw_list` of batman-adv.c.
-- Originator: originator.c: Nodes (`find_orig_node`, `get_orig_node`, `create_neighbor`), Update
--   (`update_orig`), Order (which neighbour it picks, without the loop), Report (`debug_orig`).
-- Link: `count_real_packets` and `isBidirectionalNeigh` of batman-adv.c.
-- Schedule: schedule.c, and `send_packet` of posix-specific.c, the queue of packets to be sent.
-- Purge: `purge_orig` of originator.c.
-- Handler: `batman` of batman-adv.c: the handling of a packet, and a round of the loop around it.
-- Frames: packet.h as bytes, and `receive_packet_batiface`, `receive_packet_tap`, `handle_packet` and
--   `receive_packet` (Select) of posix-specific.c.
-- Clients: the thread `unix_listen` of posix-specific.c: Defs (messages and closes), Thread (the loop over
--   the clients, the rounds and the end), Cycle (with `handle_packet`), and the states it reaches (Reach).
--   Debug: `debug_output`, `cleanup` and the lists of `debug_clients`.
-- Devices: linux.c (Defs), and from posix-specific.c `init_interface`, the start of the daemon and its
--   clean-up (Start). The open descriptors are a set.
-- Vis: `generate_vis_packet` and `send_vis_packet` of batman-adv.c on the memory of the packet (Defs), and
--   the bytes of vis-types.h (Layout).
-- Options: `apply_init_args` of posix-specific.c: the options of the command line (Defs), and the client
--   mode, which shows what a daemon sends (Client).
-- Allocator: allocate.c with its checks: Usage (the counters), Sound (the invariant of the memory), and a
--   file for each of `checkIntegrity`, `debugMalloc`, `debugFree` and `debugRealloc`.
-- LinkedList: dlist.h and list-batman.c on a heap of links, and the sequences that rings (Ring, Extend,
--   Unlink) and lists with a head (Queue, Unqueue) stand for. The other parts use sequences.
--
-- `bit_packet_count` runs on the word itself as fuel, since each round clears a bit. The walk of
-- `send_outstanding_packets` takes a list of clock and random values, one for each round, and stops
-- where they run out, and a walk with `hash_iterate` on a number of steps. `show_lines` gets one round more
-- than the buffer has bytes. The other loops are over lists.
--
-- `get_time`, `rand_num`, `malloc`, what the system calls return and the frames that are read are
-- arguments; the parts above the devices take what `rawsock_write` does as an argument:
-- a frame sent or dropped, or an error that is to be tried again or not. Not modelled: what
-- the debugging output prints, the mutexes, allocation failure where the code does not test for it, the
-- signals, the fork, and the animation of posix.c.
pub mod Base
pub mod BitArray
pub mod Clients
pub mod Devices
pub mod RingBuffer
pub mod Hash
pub mod Mesh
pub mod Address
pub mod Allocator
pub mod LinkedList
pub mod TransTable
pub mod Routes
pub mod Originator
pub mod Link
pub mod Schedule
pub mod Purge
pub mod Handler
pub mod Frames
pub mod Vis
pub mod Options
mod Tests
