-- ===== src/Lib.antt =====
-- mpshell-ext: shells that emulate networks. A packet that leaves the inner network namespace is
-- read from a tun device, held for a fixed delay, and then sent over a link that delivers 1504
-- bytes at each time of a trace; what waits for the link is held in a packet queue that may drop
-- packets. Another shell records HTTP traffic, which a proxy reads message by message, and another one
-- replays it. This library models the queues and the links, the ring buffer between sockets, the HTTP
-- parsers, the proxy with the poller that drives it, the replay server and the handling of child
-- processes, each by functions over a record of the fields of its class.
--
-- The parts, and the files that model them:
--
-- Packet            queued_packet.hh
-- Queue             abstract_packet_queue.hh: the operations of a packet queue as a record, and the
--                   contract that a link relies on
-- Queue.Dropping    dropping_packet_queue.hh and .cc, the base class of the queues with limits
-- Queue.DropTail    drop_tail_packet_queue.hh
-- Queue.DropHead    drop_head_packet_queue.hh
-- Queue.Infinite    infinite_packet_queue.hh
-- Queue.Codel       codel_packet_queue.hh and .cc
-- Queue.Pie         pie_packet_queue.hh and .cc
-- Link              link_queue.hh and .cc: Link.Trace reads the trace; rationalize is split into
--                   load_transit, check_transit and send, which deliver runs for one delivery
--                   opportunity, and rationalize_loop for each time of the trace
-- Delay             delay_queue.hh and .cc
-- RateDelay         rate_delay_queue.hh and .cc: a delay queue whose packets go to a link;
--                   RateDelay.History has the histories that the loop of ferry.cc can make of it
-- Ferry             ferry.cc: the loop of packet_ferry over a poller, a RateDelay queue and the children
-- ByteStream        bytestream_queue.hh and .cc: a ring buffer; ByteStream.Holds says what it holds
-- Http              the HTTP library: Http.Text (strings), Http.Tokenize (tokenize.hh and
--                   mime_type.cc), Http.Header, Http.Chunked, Http.Message, Http.Request,
--                   Http.Response (with body_parser.hh) and Http.Sequence (with the parsers of
--                   requests and responses). A subclass is a record of its virtual methods
-- Poller            poller.hh and .cc, over any state that the callbacks change
-- HttpProxy         http_proxy.hh and .cc: the four callbacks of a connection, the loop that polls, and
--                   the pairs that are recorded; HttpProxy.Callbacks has what each callback does, and
--                   HttpProxy.Files what the files hold after the writes
-- Replay            replayserver.cc: a request is matched with what was recorded. Replay.Substring is
--                   longest_substr, and Replay.Saved is about the header lines that Http.Message records
-- ChildProcess      child_process.hh and .cc, and handle_signal of util.cc
-- CellQueue         cell_queue.hh and .cc
-- Addresses         get_address.hh and .cc: the choice of addresses that are not in use
-- Ezio              ezio.cc: myatoi, and what it uses of strtol
-- Prelude, Words    lists, tests, results, readings of the clock and machine words
-- Tests             runs at concrete inputs
--
-- A function has the name of the method that it models. A method that changes its object takes the
-- state last and returns the new state; one that can fail an assertion, throw or run out of fuel
-- returns a Result, in which undefined behaviour is an error of its own. A call of timestamp() is an
-- argument, and a stream of readings where it is called in a loop. A class that calls another through
-- a pointer takes its operations as the record PacketQueue, and the theorems about it take a Contract,
-- which the theorems of each queue fill.
--
-- Numbers: an unsigned int or an int is its 32-bit pattern and wraps, a uint64_t or size_t wraps at
-- 64 bits. Where a theorem asks that bytes and packets stay below 2 ^ 31 or a time below 2 ^ 64,
-- the code has no check. closest_match counts exchanges with an unsigned int and returns an int; its
-- index is a natural number here, which is the same for fewer than 2 ^ 31 exchanges.
--
-- Fuel: drop_until_good and drop_loop have one round for each packet that is held and one for the
-- last test, since each other round takes a packet. The update_loop of PIE has one for each period
-- that was missed and one for the last test. deliver has one for each byte of an opportunity
-- and one more, since each other round sends a byte. rationalize_loop has one for each entry of the
-- trace in each of the milliseconds up to now (Link.fuel_for), since each other round moves on in
-- the trace, and each pass of the trace takes a millisecond at least; the cell queue has the same
-- fuel for its trace, and one round for each packet and two more for an opportunity. move_packets has
-- one for each packet in the delay queue and one for the last test. The loop of the chunked parser has
-- one round for each byte and two more, since a header has two bytes at least and stands before each
-- chunk; that of a message sequence has two for each byte and three more, since a line has two bytes
-- at least. search_octets has one for each octet and one more, and the two loops of longest_substr
-- have one for each byte and one more. The loops of the proxy, the ferry and of terminate run on the
-- list of answers of their system call, one for each round.
--
-- Left out: the text of log files (their lines are values), the JSON configuration (its values are
-- arguments), the parsing of recorded files, the square root of CoDel's control law and the double
-- arithmetic and random draws of PIE (parameters), the DNS proxy, the shells and the set-up of the
-- network. What a socket or a device delivers is a list of what is read, and what is written to it is
-- a list too, also for files: a recorded pair stands with the number of the file that it is written
-- to, which overwrites the start of that file if it was there before. The answers of poll, waitid and
-- kill are arguments.
pub mod Prelude
pub mod Words
pub mod ByteStream
pub mod Packet
pub mod Poller
pub mod Queue
pub mod Ezio
pub mod Addresses
pub mod Link
pub mod CellQueue
pub mod ChildProcess
pub mod Delay
pub mod RateDelay
pub mod Ferry
pub mod Replay
pub mod Http
pub mod HttpProxy
pub mod Tests
