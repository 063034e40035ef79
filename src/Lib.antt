-- ===== src/Lib.antt =====
-- A discrete-event packet-level network simulator (sim/): events, links, queues and packets. The event
-- list runs the objects that have asked for an event; a packet goes from object to object along its
-- route; each queue holds packets, schedules one event for the packet that it serves, and hands the packet
-- on when the event comes. Triggers start flows when others have finished.
--
-- Which file models what:
-- - Fifo, CircularBuffer; sim/circular_buffer.h. `CircularBuffer` is the vector with its indices, and
--   `push`, `pop`, `pop_front`, `next_to_pop` and `empty` are the methods; `Fifo` is the list that it
--   implements, and what the queues use. The indices are numbers without a bound.
-- - EventList; sim/eventlist.h and sim/eventlist.cpp. A multimap is a list in the order of its iterators,
--   and one function stands for each method. `EventList.Runs` has sequences of calls.
-- - Trigger; sim/trigger.h and sim/trigger.cpp, with one `activate` for each class.
-- - Pipe; sim/pipe.h and sim/pipe.cpp. Pipe.Callback; sim/callback_pipe.h and sim/callback_pipe.cpp.
-- - Network; sim/network.h, sim/network.cpp and the entry of sim/hpccpacket.h. `send_on` is `sendOn`.
-- - Queues.Utilization: `BaseQueue` of sim/queue.h and sim/queue.cpp.
-- - Queues.DropTail: `Queue` of sim/queue.cpp. Queues.Priority: `PriorityQueue` of the same file.
-- - Queues.Ecn; sim/ecnqueue.cpp. Queues.EcnPrio; sim/ecnprioqueue.cpp. Queues.Random; sim/randomqueue.cpp.
-- - Queues.Lossless, Queues.LosslessInput, Queues.LosslessOutput; sim/queue_lossless.cpp,
--   sim/queue_lossless_input.cpp and sim/queue_lossless_output.cpp. Queues.Pause is what they share.
-- - Queues.Pull, Queues.FifoPull; sim/fairpullqueue.h and sim/fairpullqueue.cpp. Queues.Fair:
--   `FairPriorityQueue` of sim/queue.cpp, whose levels are queues of Queues.Pull.
-- - Queues.CtrlPrio; `CtrlPrioQueue` of sim/prioqueue.h and sim/prioqueue.cpp.
-- - Queues.CutPayload; sim/cpqueue.h and sim/cpqueue.cpp, over the state of Queues.DropTail.
-- - Queues.Composite; sim/compositequeue.cpp. Queues.Aeolus; sim/aeolusqueue.cpp.
-- - Tcp.Sink, Tcp.Source; sim/tcp.h, sim/tcp.cpp and sim/tcppacket.h. `Tcp.Sink` is `TcpSink`, and
--   `receive_packet` its `receivePacket`. `Tcp.Source` has the state of `TcpSrc` and `send_packets`;
--   `Tcp.Source.Ack` has its `receivePacket`, cut into one function for each of its returns, and
--   `Tcp.Source.Timer` has `rtx_timer_hook` and `doNextEvent`.
-- - Eqds; sim/eqds.h, sim/eqds.cpp, sim/eqdspacket.h and sim/eqdspacket.cpp, with the packets in
--   Eqds.Packets. Eqds.Sink is `EqdsSink`; the part of it that the pull pacer works with is Eqds.Pulls.
--   Eqds.Pacer is `EqdsPullPacer` with its sinks, and Eqds.Nic `EqdsNIC`, which calls back the sources.
--   Eqds.Source is what `EqdsSrc` does with the numbers of an acknowledgement, with its timer, and Eqds.Acks
--   the loop in which `processAck` reads a bitmap. Eqds.Reliable has a source and a sink that exchange
--   packets and acknowledgements.
-- - Queues.Effects, Queues.Port, Queues.History: what a queue does to other objects, a queue between its
--   arrivals and its events, and what it owes to the packets that have arrived.
--
-- How the code is modelled: an object is a record, and a handler a function that returns the next record
-- with the list of what it did to other objects, in order, or `aborted` where an assertion fails, `abort`
-- is called or a null pointer is read. Sinks, flows, sources and queues are named by numbers. A call of
-- another object is an effect, and so the handlers of other objects run after the handler that calls them.
-- Times, identifiers and masks that the code lets wrap are words with their wrap written out; sizes in
-- bytes (`mem_b`) and counters (`int`) are numbers without a bound. What `drand` and `random` return is an
-- argument, and so is what a member holds that a constructor does not set. In Eqds times and the numbers of
-- packets are taken not to wrap. Loops recurse over lists, but for five on fuel: the loop of `send_packets`
-- gets a round more than the window has bytes, the one of `rtx_timer_hook` 64 rounds for a time of 64 bits,
-- the one of the fair pull queue's `dequeue` a round for each flow, the one in which an EQDS sink goes past
-- what it has 2 ^ 12 rounds for the elements of its bitmap, and the one that reads the bitmap of an
-- acknowledgement 64 rounds for its bits.
--
-- Not modelled: logging and names; the transports but TCP and EQDS (Swift, STrack, NDP, RoCE, HPCC) with
-- their packets; the credit and the sending of an EQDS source, and the entropy values of its packets;
-- multipath TCP, DCTCP and the TCP options of compile time; topologies, switches and routing tables; the
-- other variants of the queues; `quantized_queuesize`, which compares floating-point fractions.
pub mod Prelude
pub mod Fifo
pub mod CircularBuffer
pub mod Network
pub mod Queues
pub mod EventList
pub mod Trigger
pub mod Pipe
pub mod Tcp
pub mod Eqds
pub mod Tests
