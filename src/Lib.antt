-- ===== src/Lib.antt =====
-- A model of onelog, a structured logging package in Go, with the theorems that make it correct.
--
-- A logger filters an entry by its level and its sampler, runs its hooks, formats the entry with its
-- fields, and hands the bytes to a writer, through a ring of slots where it is asynchronous. Each
-- part of that path is a module here:
-- * Errors (errors.go): the sentinels, wrapping, and the checks along the chain of a wrapped error.
-- * Async (async.go): the ring. `Buffer` is `asyncBuffer`; `write`, `write_with_retry`,
--   `maybe_resize`, `flush`, `worker` and `close` are the methods, each a function of the ring and,
--   where it writes, of the writer's state. Async/Valid has the invariant and the abstract view, the
--   queue of pending entries; Async/Race has the steps of the goroutines in any order, with the
--   parts of `maybeResize` one by one (Async/Laid), and Async/Lost an order that loses an entry.
-- * Level (level.go): names, parsing and the atomic level.
-- * Field (field.go, and the data of entry.go): fields, their constructors and the entry.
-- * Entry (entry.go): the entry's life, from the pool to its release, and the calls that add fields.
-- * Sampling (sampling.go): a sampler is its state, and `Sample` a function of it to the next state
--   and the decision. The MultiSampler takes its samplers' type and `Sample` as parameters.
-- * Utils (utils.go): the two escaping loops with the cache before the first, quoting, truncation,
--   SafeString, base64, the sensitive keys, lower case, copying and the pool of buffers.
--   Utils/Escape/Scan has the reader that the escapes are compared with.
-- * Formatter (formatter.go, formatter_json.go, formatter_logfmt.go, formatter_text.go and
--   formatter_clf.go): the options, FormatField, and the four formatters with their caches of
--   printed times. `JsonFormatter`, `LogfmtFormatter`, `TextFormatter` and `ClfFormatter` are their
--   states; a panic on a nil function or cache is `none`.
-- * Colors (colors.go): the escape sequences; `Palette` is the package's variables.
-- * Http (formatter_clf.go): LogRequest, the wrapped response writer and the middleware.
-- * Heap (logger.go): what loggers share, by index: atomic levels, rings, and the arrays of hooks.
-- * Config (config.go): the configuration and its options, functions of it.
-- * Logger (logger.go, entry.go): New, the With methods and the levels on the heap;
--   Logger/Pipeline is `Entry.write` and what it calls, Logger/Calls the log calls and Close. How a
--   call ends is an `Outcome`: it returns, the ring's `write` still runs, or it panics.
--   Logger/Trace has a client that records what is called, Logger/Delivery the steps of log calls
--   and of the ring's worker in any order.
-- * Default (default.go): the default logger and the ready-made ones.
-- * Pool (pool.go): the pools of slices of fields by size.
-- * Writer (writer.go): the file writer and its files, `Disk`; Writer/Ledger has the abstract view,
--   a list of backups and a current text. Writer/Clean and Writer/Compress are the goroutines that a
--   rotation starts, each a function by itself; Writer/Multi has the console and multi writers.
--
-- Prelude has what they share. Go's int, int64 and time.Duration are two's complement patterns below
-- 2 ^ 64, with the arithmetic of Prelude/Word; strings and byte slices are lists of numbers.
--
-- Bounds: the theorems about the ring take a size of at most 2 ^ 40 and indices of at most 2 ^ 62,
-- which a program that writes a billion entries a second does not reach in a century; every theorem
-- names the bounds it needs. The one loop of the source without a bound of its own, that of
-- `writeWithRetry`, is a recursion on the turns that the other goroutines leave to it: it gives up
-- by itself at the latest at the hundred and first turn that finds the ring full. All the other
-- loops are recursions on the list they read or on the number of rounds that their bounds give.
--
-- What is printed by strconv, fmt and time, the error text of an error, the conversions of floating
-- point numbers, the clock and sort.Slice are parameters, and so are the answers of the operating
-- system to each call on a file, the gzip stream, what sync.Pool gives, and the values of a request
-- of net/http. Formatters, samplers, writers, hooks and error handlers of a logger are numbers, and
-- `Client` is what they do to a state that all of them share. The ring's `Turn` has the random
-- backoff of `fastRand` in what the other goroutines do. Not modelled are GoString of field.go, the
-- exported Color values of colors.go, which are its constants again, the skipped frames of
-- runtime.Caller, whose answer is a parameter, and runs of the clean-up and the compression of
-- writer.go between the writes.
pub mod Prelude
pub mod Async
pub mod Colors
pub mod Config
pub mod Default
pub mod Entry
pub mod Errors
pub mod Field
pub mod Formatter
pub mod Heap
pub mod Http
pub mod Level
pub mod Logger
pub mod Pool
pub mod Sampling
pub mod Utils
pub mod Writer
