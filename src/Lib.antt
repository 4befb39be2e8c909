-- ===== src/Lib.antt =====
-- AM++, a library for active messages on distributed machines: a model of its core and proofs of
-- what makes it correct.
--
-- Active messages are sent to a rank, gathered in buffers on the way and handled there. Each rank
-- runs its work as tasks of a scheduler; tasks hand messages on through queues. A program runs in
-- epochs, and an epoch is over when a termination detector has found that as many messages have been
-- handled as built on all ranks together.
--
-- The parts, with the code that they model:
--   Prelude                    numbers and their binary digits, lists, Boolean tests and integers that the
--                              parts share
--   Detail.IdAssigner          am++/detail/id_assigner.hpp: id_assigner
--   Detail.AppendBuffer        am++/detail/append_buffer.hpp: the chunks of append_buffer, and
--                              append_buffer_iterator
--   Detail.AppendBuffer.Pushing
--                              am++/detail/append_buffer.hpp: push_back by any number of threads
--   Detail.BufferCache         am++/detail/buffer_cache.hpp: buffer_cache
--   Detail.VectorOfNoncopyable am++/detail/vector_of_noncopyable.hpp: vector_of_noncopyable
--   Detail.Signal              am++/detail/signal.hpp: signal_base and scoped_attach
--   Messaging.TaskResult       am++/message_queue.hpp: task_result
--   Messaging.Scheduler        am++/message_queue.hpp: scheduler
--   Messaging.MessageQueue     am++/message_queue.hpp: message_queue
--   Transport.Flush            src/transport.cpp: transport_base::add_flush_object and flush
--   Transport.Requests         am++/detail/mpi_request_manager.hpp: mpi_request_manager
--   Termination.SinhaKale      src/mpi_sinha_kale_ramkumar_termination_detector.cpp
--   Termination.BlueGene       src/mpi_sinha_kale_ramkumar_termination_detector_bgp.cpp
--   Termination.ThreadWrapper  src/termination_detector.cpp, am++/termination_detector.hpp:
--                              td_thread_wrapper
--   Coalescing.Basic           am++/basic_coalesced_message_type.hpp
--   Coalescing.Sized           am++/size_coalesced_message_type.hpp: send and flush, by one thread
--   Coalescing.Counter         am++/counter_coalesced_message_type.hpp: the lock-free protocol of
--                              send, message_being_built and flush, by any number of threads
--   Reductions.SimpleCache     am++/reductions.hpp: simple_cache_remove_duplicates
--   Reductions.UnorderedSet    am++/reductions.hpp: unordered_set_remove_duplicates
--   Reductions.Combine         am++/reductions.hpp: what the caches below share: the operations on
--                              messages, keys and values, get_bucket, is_identity, get_dummy_value
--   Reductions.WriteThrough    am++/reductions.hpp: per_thread_wt_cache_binop_reduction
--   Reductions.Locking         am++/reductions.hpp: locking_cache_binop_reduction
--   Addressing.Ranks           am++/transport.hpp and am++/object_based_addressing.hpp: sets of ranks
--   Addressing.Routing         am++/object_based_addressing.hpp: the routing schemes
--   Addressing.Direct          am++/object_based_addressing.hpp: object_based_addressing
--   Addressing.Hops            am++/object_based_addressing.hpp: object_based_addressing_dest_hbr, on
--                              every rank
--
-- State is a record with the fields of the class, and an operation is a function with the name that
-- it has in the code. A failed assertion is `none`. What a part asks of the layer below (a buffer to
-- be sent, a call of the shared detector, a handler called) is kept in a list of the record, in
-- order. Callbacks, policies, the set of possible destinations and the results of MPI calls are
-- parameters, and what is relied on of them stands among the hypotheses of a theorem.
--
-- Counters wrap as their types do: 32 bits for unsigned int and int, 64 for size_t and unsigned
-- long. Loops that the code ends by a condition run on fuel: moving an iterator by a distance needs
-- as many rounds as the distance, since each round moves one slot at least; a flush needs as many
-- rounds as its objects weigh; waiting in the scheduler needs as many runs as the awaited task's
-- place in the queue; the send of a message below the size of its buffer needs two rounds; the call of
-- a signal needs one round more than there are handlers.
-- The search for a dummy value needs as many rounds as the place of the second of two dummy keys that
-- lie in different buckets. The theorems prove that this is enough.
--
-- Operations that hold a lock are single steps. In Coalescing.Counter and in
-- Detail.AppendBuffer.Pushing the steps of a thread are its accesses of atomic variables, but for a
-- few that merge two accesses and are named in Coalescing/Counter.antt, and a schedule lists the
-- threads that take steps; its theorems hold for all schedules. What caches that combine messages
-- pass on is compared through weights, which map values into a commutative monoid. The vectors that
-- signals share lie in a store.
--
-- Not modelled are the lock-free coalescing layers of lock_free_coalesced_message_type.hpp, the
-- caches whose send stops at a static_assert, and what the MPI transport does besides its request
-- manager, which is calls of MPI. Logging, hit rates and performance counters are left out.
pub mod Prelude
pub mod Detail
pub mod Messaging
pub mod Transport
pub mod Termination
pub mod Coalescing
pub mod Reductions
pub mod Addressing
