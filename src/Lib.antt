-- ===== src/Lib.antt =====
-- The driver of Timelock Drive, a block device whose blocks cannot be overwritten before their
-- timelock has run out. The driver (versioning_td_driver/src) maps the logical blocks that the
-- system sees to physical ones, keeps two logs on the disk (the version log with the mapping, the
-- timelock log with the blocks to lock), and talks to the gatekeeper, which alone writes the
-- disk, over TCP or a shared-memory pipe.
--
-- How the parts work together: a read goes through Read, which sends the ranges that Ranges
-- describes to the gatekeeper over Tcp or Ipc. A write goes through Write, which takes blocks
-- from the free list with find_free_range of Logs, lays out the message with the log blocks that
-- are full, and takes the response; find_free_range logs the blocks and puts the old ones on the
-- list to be collected; BlockList is the lists. When a log block is full, prepare and commit of
-- Logs move on to the next; MdIndex finds the metadata blocks that the gatekeeper needs with it.
-- Metadata sends a log block by itself, and keeps account of the metadata blocks that the
-- gatekeeper holds. Gc collects the old blocks into the timelock log and the waiting list, Flush
-- writes both logs out, Cleaner moves the blocks of a segment; Run is the driver over time, its
-- operations one after another. At start-up Chain reserves the blocks of the timelock log, Cache
-- takes the metadata blocks from the gatekeeper, Scan walks the version log, has Recovery fill
-- the mapping from each block of it, and builds the free list. Control sends commands without
-- data, SYNC among them, which brings back cached metadata blocks.
--
-- Files. Prelude: shared names, tests on numbers, lists and arrays. Constants:
-- shared/include/constants.h. Ipc: shm_pipe_write and shm_pipe_read of ipc_transport.c, as steps
-- of two processes; Ipc/Window and Ipc/Inv have the bytes in the ring and the invariant, Ipc/Fifo
-- what the pipe delivers. Tcp: send_all_tcp, recv_all_tcp and send_message of socket_send.c,
-- driven by the list of what each system call returns. Ranges: merge_ranges of
-- versioning_td_driver.c. Read: device_read and device_read_wrapper of versioning_td_driver.c.
-- BlockList: enqueue_list, mark_reserved_block, release_reserved_block, move_expired_to_free,
-- pop_top_of_freelist and pop_nth_in_freelist of versioning.c, on one store of cells; the
-- children have the segments of a list, its well-formedness, and the operations. Logs:
-- find_free_range with its entries in the logs (Entries), the reserve, prepare, commit and
-- set_pointer functions of versioning.c. Recovery: parse_metadata and parse_metadata_recovery of
-- versioning.c. MdIndex: collect_tdlog_needed_md_indices of versioning.c and
-- add_tdlog_referenced_md_blocks of versioning_td_driver.c. Chain: read_tdlog_block and
-- mark_hdlog_chain_reserved of versioning.c. Scan: the walk over the version log and the free
-- list loop of scan_disk of versioning.c. Control: hash_is_all_ff and send_control_command of
-- versioning.c. Gatekeeper: the other side of the wire as a parameter, and the WRITE request.
-- Metadata: note_md_membership_update, send_hd_metadata and send_metadata of versioning.c; its
-- children have what is sent, how the functions end, the positions, and what is believed
-- afterwards. Write: device_write and device_write_wrapper of versioning_td_driver.c; Allocate
-- has the allocation loop, Ends has how a write ends, Layout and Interleave the order of the
-- payload, Membership and Failure the state afterwards, Remap what a round maps, Stored, View,
-- ReadBack and Refines the virtual disk. Gc: perform_gc, epoch_timelock_physical_block and
-- flush_epoch_timelock_set of versioning.c. Flush: flush_pending_metadata of versioning.c,
-- device_flush and terminate of versioning_td_driver.c. Run: the operations as a step relation.
-- Cleaner: segment_cleaner of versioning.c. Cache: build_cache of versioning.c. Tests: the
-- theorems at concrete inputs.
--
-- Modelling: numbers are natural numbers, and a machine word has its wrap-around written out
-- where the source relies on it. Pointers to entries are addresses of cells, 0 is NULL. Locks are
-- left out: an operation runs under its lock from beginning to end. The sizes are those of the
-- default disks of 10 GiB. The gatekeeper, the system calls and the khash table are parameters,
-- as is the time that rdtsc gives. A call that ends the process, exit or abort, is an outcome
-- without a state. device_read is defined up to the 64 blocks that its arrays hold; beyond, its
-- result is an overrun.
--
-- Fuel: the loop of device_write has one round for each range that the request can hold, as in
-- the source, and device_write_wrapper as many as there are blocks, which is enough.
-- move_expired_to_free, the chunk loop of device_read_wrapper, the walk over the timelock log and
-- the walk over the version log run on fuel, above the number of waiting entries, of blocks read,
-- of physical blocks, and of links in the version log; every other loop is structural. The source
-- checks the version log for no cycle, so no bound is enough for every disk there.
--
-- Not modelled: the set-up around the scan (scan_disk as a whole, versioning_init);
-- mdblock_checksum, which only feeds the log file; the loops of the daemons, which only sleep and
-- call what is modelled; the sockets, the shared memory and the log file, which are I/O; khash.h,
-- a library; and the gatekeeper itself.

pub mod Prelude
pub mod Constants
pub mod Ipc
pub mod Ranges
pub mod Read
pub mod BlockList
pub mod Recovery
pub mod MdIndex
pub mod Tcp
pub mod Logs
pub mod Chain
pub mod Control
pub mod Scan
pub mod Gatekeeper
pub mod Metadata
pub mod Write
pub mod Gc
pub mod Flush
pub mod Run
pub mod Cleaner
pub mod Cache
mod Tests
