-- ===== src/Lib.antt =====
-- Verification of thubo, a network pipeline that carries messages of several priorities over one
-- connection: it packs small messages into batches, cuts large ones into fragments, and puts them
-- together again on the other side.
--
-- Parts, and the files that model them (paths from the repository's root):
--
-- Protocol models src/protocol. A batch starts with a message header (a QoS byte and a sequence number
-- of 28 bits) and a body, which is a frame or a fragment. Protocol/Priority, CongestionControl, Qos and
-- SeqNum are the files of src/protocol/core of the same names; Protocol/Message is mod.rs, frame.rs and
-- fragment.rs. Machine words are natural numbers with the wrap-around written out. A transmute takes
-- the proof that its number is in range, or has an outcome `none` for the number that is not.
--
-- Buffers models src/buffers. Buffers/Interface has the traits Writer and Reader as records of
-- operations on a state, and the laws that the codec relies on; Buffers/Slice (slice.rs) and
-- Buffers/BoxBuf (boxbuf.rs) are implementations, and their Lawful modules show the laws. Methods take
-- the state and return an optional result with the new state, which is kept when the method fails. A
-- chunk is the list of its bytes: that chunks share memory is not modelled, as they are not changed.
--
-- Codec models src/codec: Codec/Vle the integers of variable length (core/vle.rs), Codec/Values
-- sequence numbers, slices, chunks and buffers of chunks (core), Codec/Messages the headers (mod.rs,
-- frame.rs, fragment.rs). The closure that `write` runs on a slot has fuel 10, more rounds than a u64
-- takes, and the loop of `read` has fuel 9, more rounds than it makes before its own bound stops it;
-- the theorems give their results without a condition on the fuel. Codec/Outcome says what it is for a
-- write to append bytes and for a read to take them, over any lawful writer and reader.
--
-- Buffers/Bytes is bytes.rs: a buffer of chunks is the list of them, and a reader has a cursor of a
-- slice and a byte, which Buffers/Bytes/Seek goes back to. Its loops have as much fuel as there are
-- slices and one round more, which is enough, since every round but the last moves on to the next
-- slice. Buffers/Bytes/Cursor and Walk have the facts about the cursor, Lawful the laws of a reader,
-- and View what `view` gives.
--
-- Pipeline models src/pipeline. Pipeline/Status is the status word (mod.rs). Pipeline/Rx is the
-- receiving side (rx.rs) up to the ring buffer: `push` decodes a batch with the codec on a reader of
-- chunks, and adds a fragment to the reassembly buffer of its QoS. Pipeline/Rx/Fragment, Reassembly,
-- Slots and Bounds have its properties. Pipeline/Rx/In is `push` as a whole (PipelineRxIn), whose loop
-- takes as inputs how each wait for room ends and what the other end does during it; Pipeline/Rx/Out
-- is PipelineRxOut, with the batches that come in between the look at a batch and its removal, and
-- during the waits, as inputs. `try_pull` has fuel for its rounds: one more than there are batches is
-- enough. The ring buffer between them is four queues. Rx/Out/Messages says which messages a batch
-- still holds, Rx/Out/View how the batches stand for queues of messages, and Rx/Out/Pulls, Congested
-- and Meanwhile, Rx/In/Delivered, Frames and Queues what the two ends do to them. Pipeline/Tx has the
-- backoff word and the batches of the sending side (tx.rs), with Pipeline/Tx/Batch; the flag that the
-- fragments of a message share is the name of it. An atomic operation is one step.
--
-- Pipeline/RingBuf models src/pipeline/ringbuf: the packed index words, and in RingBuf/Ring, Writer and
-- Reader the storage and the handles of common.rs; RingBuf/Mpsc and Spsc the handles that mpsc.rs and
-- spsc.rs make, and runs of calls on them. RingBuf/Fifo is what they promise: a bounded queue for each
-- priority. RingBuf/Word says what an operation on a word does to the 16 bits of each priority, Slots
-- that the capacities divide the range of the indices, Lane how the slots of a priority stand for a
-- queue, Rep and Views how the storage with its handles does, for one priority and for all. A call is
-- one step, in the order in which the calls take effect; a handle tests its own copy of the other
-- side's index first, which may be old.
--
-- Pipeline/Tx/Stage is the stage of one priority (StageInPrio) with what a push meets: the rounds of
-- the search for a batch, whether notifications find a receiver, and the flush flag of the status,
-- which Pipeline/Tx/In reads and writes back. The batches that were committed are a list, since a ring
-- buffer is a queue. Pipeline/Tx/Push has the three steps of `push`; its loop of fragments has as much
-- fuel as the message has bytes and one round more, which is enough when each batch has room for a
-- byte behind the headers. Steps, Rest and Whole are the facts about one fragment, the loop and the
-- message, and Acquire those about the search. Pipeline/Transfer joins the two sides, and
-- Pipeline/Delivery goes on to `try_pull`. Pipeline/Tx/Packed says when a batch holds a frame with
-- messages, Tx/Push/Stream when the batches of a stage carry a stream of messages; Tx/Push/Framed,
-- Frames, Added and Messages are about what `push` does to the stream, Delivery/Receives about what
-- the receiver makes of it, Delivery/Messages about sequences of calls, and Delivery/Order about both
-- sides together. There batches go from one side to the other in the order in which they were sent.
--
-- Pipeline/Tx/In is `push` of StageIn and PipelineTxIn, where the lock is had or times out, and
-- Pipeline/Tx/Refill the supply of empty batches. Pipeline/Tx/Ready says when a batch can be sent.
-- Pipeline/Tx/Out is `try_pull` and `drain` of PipelineTxOut on the queues of committed batches; their
-- fuel is a bound on the rounds, and one more than the batches that are queued is enough. Tx/Out/Skips
-- is about batches that were given up, Tx/Out/Recycled says what the ring of empty batches is then,
-- and Tx/Out/Drained about `drain`. Tx/Out/Pulling is `pull`, with a list of what each round meets
-- (what other tasks do during its yields or its wait, the clock, the lock), and Tx/Out/Unchanged and
-- Booked are about batches that are booked. A yield has no other effect than what other tasks do
-- meanwhile, so that how many there are is not modelled.
--
-- Not modelled of src/pipeline: the functions that make the two ends of a pipeline, and the order in
-- which locks are taken.
--
-- Sync models src/sync. Sync/Time is the duration in one word (time.rs). Sync/Event is the flag of
-- event.rs with a step relation for `wait`, `notify` and the drop of a notifier, whose steps interleave
-- in any order; the library event_listener is a parameter with the laws that the code relies on, and
-- Sync/Event/Wakeup shows what follows for a sleeping waiter. Not modelled: the drop of a waiter.
--
-- Collections/SingleOrVec models src/collections/single_or_vec.rs, with its iterator in Iter and its
-- elements as a list in View; whether a Vec has memory is a field. Not modelled of src/collections:
-- Boomerang and OnDrop, which act when a buffer is dropped.
--
-- Api models src/api. Api/Io has the byte streams of the runtime as parameters, with the laws that
-- their documentation promises; a call that fails or whose timeout ends has no result.
-- Api/Sender/Slices and Task are `write_all_vectored` and `write_task` (sender.rs), with a list of
-- what `select!` gives in each round; what `pull` returns in a round, and what other tasks do
-- meanwhile, is given with the round. `write_all_vectored` has as much fuel as there are bytes and one
-- round more, and Sender/Wire shows that it is enough. Sender/Traffic is about one write of batches
-- and Sender/Rounds about the main loop. Api/Receiver is `read_task` (receiver.rs), with a list of the
-- waits that each push meets, and Receiver/Frames is about the bytes that it reads. Api/Link joins the
-- two tasks: Link/Served says what the rounds of the sending task take from the ring, and Link/Order
-- goes on to the messages. Api/Handles has Sender, Receiver, their builders and the settings of the
-- tasks. Not modelled of src/api: the start of the tasks, and the statistics.Prelude has the shared names, lists over the native numbers, state-passing methods and bit
-- operations. Tests applies the theorems to concrete inputs.
--
-- Not modelled: asynchronous tasks, sockets and clocks, which belong to the runtime; the formatting of
-- values for display; the siphoning and std::io traits of the buffers; benchmarks and examples.
pub mod Prelude
pub mod Protocol
pub mod Buffers
pub mod Codec
pub mod Pipeline
pub mod Sync
pub mod Collections
pub mod Api
pub mod Tests
