-- ===== src/Lib.antt =====
-- c-performance: two programs that measure throughput and latency over Aeron, a publisher and a
-- subscriber, written in C. This library models their code and proves how it behaves.
--
-- The publisher stamps each message with the time and offers it to Aeron, again under back pressure,
-- until enough are sent; the subscriber takes the stamp out of each message and keeps statistics of
-- the latencies. Each program has a second thread that prints its counters once a second. Both share
-- the option parser, the message format, the clock and the statistics.
--
--   Base                  C's unsigned arithmetic, lists, integers and Boolean tests; Base/Elements
--                         has the elements of a list at their indices, Base/Weights sums over a list
--   Common                c-performance/include/common_types.h
--   Clock                 c-performance/include/time_utils.h, c-performance/src/time_utils.c
--   Message               c-performance/src/binary_message.c; Message/Bytes has the byte orders,
--                         Message/Packed binary_message_t of include/binary_message.h
--   Stats                 c-performance/src/performance_stats.c; Stats/Defs has the structures and
--                         what sets them up, Stats/Print and Stats/Summary the printing,
--                         Stats/Tally, Stats/History and Stats/Lowest the histories that the
--                         statistics summarise, Stats/Bag these without their order,
--                         Stats/Deliveries the records of a history of messages, from which
--                         Stats/Print/Details and Stats/Summary/Report have what is printed,
--                         Stats/Concurrent and Stats/Messages record_latency and
--                         record_message_latency, each run by several threads at once,
--                         Stats/Layout the counters in memory (include/performance_stats.h), and
--                         Stats/Recorder what that header promises, as an interface
--   Rate                  the rates that both programs print
--   Config                c-performance/src/config_parser.c; Config/Settings has the defaults, the
--                         environment, the channel and the validation, Config/Parse the option loops,
--                         Config/Getopt and Config/Number what the C library does for them,
--                         Config/Usage the usage texts and the summary,
--                         Config/Parse/Valid/Accepted what holds of a configuration that is accepted,
--                         and Config/Parse/Parser what config_parser.h promises, as an interface
--   Publisher             c-performance/src/binary_publisher.c: print_stats, publish_message;
--                         Publisher/Loop has run_publisher, Publisher/Threads stats_thread and the
--                         signal handler beside it
--   Program               what main and wait_for_connection of both programs have in common;
--                         Program/Client and Program/Adding what aeronc.h documents of the calls,
--                         Program/Requests what main asks of Aeron, Program/Signals the signal
--                         handlers
--   Subscriber            c-performance/src/binary_subscriber.c: process_message_fragment and the
--                         counters; Subscriber/Report has print_realtime_stats and print_final_stats,
--                         Subscriber/Average the final report of a run,
--                         Subscriber/Loop run_subscriber, Subscriber/Threads stats_thread and
--                         the signal handler beside it
--   EndToEnd              a run of the publisher and one of the subscriber, with Aeron in between;
--                         EndToEnd/Fragments messages that Aeron hands over in several fragments
--   Publisher/Main,       main of each program: the options, the set-up, the run, the release
--   Subscriber/Main
--
-- Unsigned 64-bit integers are natural numbers with the wrap-around written out; a buffer is a list of
-- bytes, and a store outside it is `none`. What comes from outside is an argument: the readings of the
-- clock, the memory that malloc returns, the results of the offers, signals, the environment and the
-- command line. Functions that change the global state take it and return it; what they print is a
-- list of lines where it carries numbers of the model, and is left out where it is fixed text. The two
-- threads are a step relation in which a section under the mutex is one step. In Stats/Concurrent a step
-- is one atomic operation, in Stats/Messages one atomic operation or one plain store to the shared
-- structure, and a thread carries what it has loaded.
--
-- The sending loop is recursion on fuel. A message has at most 1000001 offers before the loop gives
-- up, so (messages + 1) * 1000001 rounds are enough. The receiving loop ends by what arrives, a signal
-- or an error, and needs one round more than the polls before that. The waits for the stream
-- and for the connection end by what the Aeron client and the clock answer; a theorem about them names
-- the answer that comes in time.
--
-- Of Aeron, whose headers and libraries are a copy in c-performance/aeron-lib, the model has what
-- aeronc.h documents of the calls that the programs make: the results of an offer (Publisher/Offers),
-- of a poll (Subscriber/Loop/Contract) and of the set-up (Program/Client), the fragments of a long
-- message (EndToEnd/Fragments) and the order in which messages arrive (EndToEnd), each as a hypothesis
-- of the theorems that need it, and the parameters of the calls of the set-up (Program/Requests).
--
-- Not modelled: the rest of that copy, the build files, the fixed texts that are printed, and what the
-- relaxed atomic operations and the plain stores of performance_stats.c may do beyond an interleaving
-- of their steps.
pub mod Base
pub mod Common
pub mod Clock
pub mod Rate
pub mod Message
pub mod Stats
pub mod Config
pub mod Program
pub mod Publisher
pub mod Subscriber
pub mod EndToEnd
