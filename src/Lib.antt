-- ===== src/Lib.antt =====
-- A model of the core of vpoiskaxroditeley, a suite of Rust crates that fetch pages, keep browsing
-- sessions and run pages' scripts. The parts that decide what is fetched, what a session sends and when
-- a page's callbacks run are translated here, function by function, from the crates:
--
--   * CoreUtils, from crates/core-utils: byte strings and their encodings (Encoding, Search, Binary, of
--     src/encoding.rs), URLs (Url, of src/url.rs), numbers and dates (Numbers, Dates, of src/math.rs)
--     and integer generators (Rng, of src/rng.rs). The other crates call these.
--   * NetClient, from crates/net-client: the robots.txt parser, its patterns and its cache of rules by
--     domain (Robots, of src/robots.rs), on the case-insensitive comparisons of Encoding.
--   * SessionState, from crates/session-state: the cookie jar (Cookie with Date and Jar, of
--     src/session.rs), on Url and Dates, and proxy URLs (Proxy, of src/proxy.rs), on Url and Encoding;
--     and the brands of a browser (Grease, of src/grease.rs), on Numbers.
--   * RuntimeExec, from crates/runtime-exec: the queues of timers and animation frames (Timer, of
--     src/timer.rs), on Numbers and Rng; and the cache of normalised scripts (NormCache) with the
--     budget of entries and bytes that it shares with other caches (Budget, both of src/cache.rs); and
--     the queue of the workers with the pool that lets scripts in (ExecQueue, of src/task.rs and
--     src/pool.rs), on Budget.
--   * ChallengeSolver, from crates/challenge-solver: the cache of answers (AnswerCache, of
--     src/cache.rs).
--   * ParserPipeline, from crates/parser-pipeline: the scratch in which a parser leaves texts,
--     attributes and events (Scratch, of src/scratch.rs); and the tree of a page (Dom, of src/dom.rs):
--     its columns and links, the elements and texts that a parse adds (Build), the numbers by which
--     descent is tested (Orders), the stack of open elements (Open), the numbers of the names that come
--     up (Names) and of those of the standard (Tags), on Scratch, Encoding and Numbers. Forest is what
--     the links of a tree stand for: a tree is sound for a forest when its links are those of the
--     forest, whose nodes are alive, and its other places are free.
--   * PayloadGen, from crates/payload-gen: input cursors (Cursors with Click and Focus, of src/input.rs
--     and src/input/event.rs), the batcher of a session (Batcher, of src/input/session.rs) and the
--     scheduler of tabs and sites (InputHub, of src/input/scheduler.rs).
--   * Supervisor, from crates/supervisor: the fleet of tabs, which opens tabs on several hubs, cuts what
--     the hubs tick into batches and expires tabs (Fleet, of src/fleet.rs, on InputHub and Batcher);
--     the states of a task (Task, of src/task.rs and the worker of src/api.rs), forms (Form, of
--     src/task.rs) and the pages that are watched (Watch, of src/watch.rs).
--
-- A definition has the name of the Rust function that it models, or names the loop or the branch that
-- it is a piece of. State is passed on: `CookieJar`, `TimerState` and `AnswerCache` are records with the
-- fields of the Rust structs (the three texts of a cookie's key are the record `CookieKey`, the map of
-- the jar is `slots`, since `map` is a function on lists), and each method is a function to the state
-- after it. `Prelude` has lists, tests and integers over the native numbers, and `Str` what the crates
-- call of Rust's `str` and slices.
--
-- Conventions. A text or a slice is the list of its bytes. Words of 32 and 64 bits are numbers whose
-- wrap-around is written out where the source wraps; sums of i64 in Dates are integers, since the years
-- read are at most 9999. The clock is an argument of each operation that reads it,
-- one for each reading.
-- Floats are left out: a delay or an identifier comes in as the integer that the source makes of it.
-- A read or an index that would panic gives `none`, or a default where a comment
-- says so.
--
-- Interfaces. The insertion-ordered map of the indexmap crate (SessionState/IndexMap) and the
-- concurrent map of the scc crate (NetClient/SyncMap) are records of operations with their documented
-- laws, which a list of entries meets, and so are the bounded channels of the crossbeam crate
-- (RuntimeExec/ExecQueue). The search of the memchr crate, the hash of the twox_hash crate in a
-- tree, the script engine's callbacks, the
-- addresses of std and the slider solver are arguments. The hash map and the binary heap of std are
-- modelled as a list of entries without a key twice and as the list of keys in the order in which the
-- heap gives them. The cursors of the hub are the interface TabInput, the cookies of a slot
-- the interface Sessions, and a cursor the interface InputCursor. Where the order of a hash
-- map shows, as in the choice of the page that is no longer watched, a number stands for the choice.
-- The draws of the generators of a cursor, which are made in floats, are functions in the cursor.
--
-- Threads take their atomic loads, stores and exchanges one after another, in any order: a sequence of
-- steps says who is next, and whether a weak exchange fails for no reason (Budget, AnswerCache, and the
-- stores of a worker in Task). What a fleet or a hub can come to is a data type of the operations
-- that lead there. Instants and durations are numbers of microseconds or seconds; the sizes of types,
-- which the charges of the script cache count, are arguments; a vector has fewer than 2^32 entries.
--
-- Loops are recursion on the list that they walk. Others have fuel: the walk along siblings (the
-- number of nodes and one more), the loop over the stack that numbers a tree (twice the number of
-- nodes and one more, since each node is on it twice), the climb to the root (the 513 hops of the
-- source), the digits of a number (20, the length of the buffer and the digits of the greatest u64),
-- the doubling to a power of two (64, the width of a word), the search of find_u32, which moves on by
-- at least one byte a round (the length of the text and one more), the tick of a hub, which takes a
-- turn off the heap or counts one of its 256 steps each round (the length of the heap and 256), and
-- the pump of a cursor, whose time moves on by at least a microsecond a round (the time to the
-- deadline).
--
-- Not modelled: the transfer of pages, the bindings to the script engine, the tables of profiles, the
-- drawing, motion and typing code in floats, the solvers, the removal of nodes from a tree, its index
-- of identifiers after the sorting, and the collector that feeds it, the supervisor's service and its
-- flows, and the vendored wasm3.
pub mod Prelude
pub mod Str
pub mod CoreUtils
pub mod NetClient
pub mod SessionState
pub mod RuntimeExec
pub mod ChallengeSolver
pub mod ParserPipeline
pub mod PayloadGen
pub mod Supervisor
mod Tests
