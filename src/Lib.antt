-- ===== src/Lib.antt =====
-- A verification library for the symbolic observation graph (SOG) construction of mc-sog.
--
-- A Petri net is parsed into class NewNet; some of its transitions are observable. An aggregate is
-- the set of the markings that unobservable transitions reach from one another, kept as a list
-- decision diagram (LDD). The graph has the aggregates as states and the observable transitions as
-- labels. The files follow the program's parts:
--
--   Prelude    Names of the standard library, Boolean tests on numbers, lists, the integers of C++.
--   Ldd        src/SylvanWrapper.cpp: nodes (Ldd.Tree), lddmc_union_mono, ldd_minus, lddmc_intersect,
--              lddmc_firing_mono, isFirable, getMarksCount, each with what it computes in a child.
--              Ldd.Divide is isSingleMDD, get_mddnbr and ldd_divide_rec.
--              Ldd.Canonical is about equality of diagrams, Ldd.Index gives an index for the tests.
--   Sog        src/CommonSOG.cpp: Accessible_epsilon, firable_obs, ImageForward, Set_Div, Set_Bloc,
--              get_successor, AddConflict (Sog.Conflict), computeAmple, computeAmple2 and
--              saturatePOR (Sog.Ample), Canonize (Sog.Canonize), loadNetFromFile (Sog.Load).
--              Sog.System is the loaded net as firing sequences, Sog.Load.Game the token game on the
--              parsed net.
--   Net        src/NewNet.cpp: the calls of the parser and the choice of observable transitions.
--   Table      src/SylvanWrapper.cpp: the unique table: claim_data_bucket
--              (Table.Claim), llmsset_lookup (Table.Lookup), the words of a node (Table.Words),
--              lddmc_makenode on the table (Table.Makenode).
--   Cache      src/SylvanCacheWrapper.cpp: the operation cache as one thread uses it.
--   Graph      src/LDDState, src/LDDGraph: states, edges, lookups. Graph.Build is computeSeqSOG of
--              src/threadSOG.cpp, Graph.Threads and Graph.Canonized are doCompute and
--              doComputeCanonized of the same file.
--   Kripke     src/SogKripke.cpp, src/SogKripkeIterator.cpp and their variants for several threads:
--              the iterators over the edges, the conditions and the comparison of states.
--   Tests      Runs of the definitions, and the theorems at concrete inputs.
--
-- State and operations. A C++ object is a record, a method a function from the object's state to
-- its result and its next state, with the name of the method in snake case. A pointer to an
-- LDDState is its position in m_GONodes. A std::set<int> is the list of its elements in rising
-- order, a std::map an association list, a std::string the list of its characters. uint16_t,
-- uint32_t and uint64_t keep their wrap-around as a remainder.
--
-- Table. llmsset_lookup is a function of the table and of the thread's my_region, for a call that
-- no other thread disturbs; Table.Lookup gives it as steps, one for each read and for each
-- compare-and-swap. The thread that creates the table starts with my_region -1, and
-- Table.Lookup.Sequential has the calls of this thread, one after the other. In the other threads
-- my_region is 0 at first, a region that they have not claimed, and the bits of a region are set by
-- a plain read and write; calls of several threads at once are not modelled. Table.Lookup.Callers,
-- an order of steps of threads that all start without a region, is a means of the proofs. The
-- custom callbacks of the table are never set and are left out.
--
-- MDDs. The unique table is meant to give each node one index, which the part Table treats for the
-- thread that created it, and an MDD is the tree of nodes below its index. Where the code compares
-- two MDDs, as equal or by order, the definitions compare their indices: a parameter index with the
-- property IsIndex (different trees have different indices). lddmc_makenode does not make copy
-- nodes, so there are none in the trees. The set operations are written without the operation
-- cache, which has its own part, Cache, without its use in them. Garbage collection and assertions
-- are left out.
--
-- Loops. A loop that does not follow a structure recurses on fuel, and the result none stands for
-- fuel that ran out. The set operations take the sizes of their arguments as fuel.
-- Accessible_epsilon needs a round for each reachable marking and one more, since each round but
-- the last adds a marking. Set_Div needs one round more than there are markings. computeSeqSOG
-- needs an entry of its stack for each set of reachable markings, since no aggregate is pushed
-- twice. getMarksCount needs a round for each marking. Canonize calls itself on sets that lack more
-- of the markings, so more fuel than there are markings is enough, and its inner loops need a round
-- for each marking too. The loops of computeAmple2 and saturatePOR are on fuel as well, and
-- computeAmple2 need not end. llmsset_lookup looks at eight buckets of a cache line, twice at most,
-- and at as many lines as its threshold allows. claim_data_bucket looks at each region once.
--
-- Threads. Graph.Threads has one step for each critical section of doCompute and for what a thread
-- does between two of them, and the steps of all threads come in any order. The thread that gets a
-- new entry may be any, which covers every value of the counters that minCharge reads. The flags of
-- isNotTerminated are not modelled: a finished state is one where no thread has anything to do.
-- Neither is m_gc_mutex, at which thread 0 of doCompute waits after a calculation for the others to
-- be outside of theirs: the steps allow more orders than the program has.
--
-- Kripke structures. The formulas of the library spot are a parameter of the conditions. A client
-- walks from get_init_state by the loop first, done, next over the iterator of each state; the
-- graph is passed on, since the constructor of an iterator changes its aggregate.
--
-- Not modelled. Marking, clearing and rehashing of the unique table, which happen while all threads
-- wait for one another. The status words of the operation cache are locks between threads, and
-- Cache has one thread. The builders of the model checker put the operations of doCompute into
-- critical sections of their own, which need invariants of their own. The distributed and hybrid
-- construction sends aggregates over MPI, which is not part of the sources. The wait of a Kripke
-- state for its builder belongs to those builders. The command line programs and the printing of
-- graphs and statistics only read the results.
pub mod Prelude
pub mod Ldd
pub mod Sog
pub mod Table
pub mod Cache
pub mod Graph
pub mod Net
pub mod Kripke
mod Tests
