-- ===== src/QueriesLog.antt =====
-- src/queries_log/queries_log.c, the log of finished queries, and the loop that streams it,
-- src/cron/tasks/stream_finished_queries.c. Redis, which says of what type the key of a graph's
-- stream is, is a parameter, and its streams are what is added to them. A logged query is a parameter; its text, which is freed
-- once it was streamed, is not read again. The operations run one after the other.
pub mod Streams
mod Tests
use redis_graph.Prelude.{
  ℕ, zero, suc, Bool, true, false, ltb, if◌then◌else◌, Option, none, some, List, [], ◌∷◌,
}
use redis_graph.CircularBuffer.{CircularBuffer, reserve, fill, reset_reader, pop, new as new_buffer}

module _ (A : Type 0) where
  -- struct _QueriesLog, without the counters
  pub record QueriesLog : Type 0 where
    pub queries : CircularBuffer A
    pub swap : CircularBuffer A

module _ {A : Type 0} where
  -- QueriesLog_New, where `capacity` is the configured count and `slots` is what the new data hold.
  abbrev pub new : (ℕ → A) → ℕ → QueriesLog A
  new slots capacity = record {
    queries = new_buffer slots capacity;
    swap = new_buffer slots capacity;
  }

  -- QueriesLog_AddQuery
  abbrev pub add_query : QueriesLog A → A → QueriesLog A
  add_query log q = record log { queries = fill (reserve log.queries) q }

  -- QueriesLog_GetQueriesCount
  abbrev pub get_queries_count : QueriesLog A → ℕ
  get_queries_count log = log.queries.item_count

  -- QueriesLog_ResetQueries. The buffer that it returns is the one that is `swap` from then on.
  abbrev pub reset_queries : QueriesLog A → QueriesLog A
  reset_queries log = record { queries = log.swap; swap = log.queries }

  -- A round of the loop of `_stream_queries`, from what CircularBuffer_Read answers
  abbrev pub read_next :
      (CircularBuffer A → List A × CircularBuffer A)
      → Option A × CircularBuffer A
      → List A × CircularBuffer A
  read_next read (none, cb) = ([], cb)
  read_next read (some q, cb) = let rest = read cb in (q ∷ rest.0, rest.1)

  -- That loop: the queries that it reads, and the buffer. The fuel is one round for each item and
  -- the one that ends it.
  unfoldable pub read_all : ℕ → CircularBuffer A → List A × CircularBuffer A
  read_all zero cb = ([], cb)
  read_all (suc fuel) cb = read_next (read_all fuel) (pop cb)

  unfoldable pub stream_queries : CircularBuffer A → List A × CircularBuffer A
  stream_queries cb = read_all (suc cb.item_count) (reset_reader cb)

  -- What a round does with the queries of a log that it has reset: it streams them where the key is
  -- of a stream, or of nothing yet, and leaves them in their buffer otherwise.
  abbrev pub report : Bool → QueriesLog A → List A × QueriesLog A
  report true log =
      let streamed = stream_queries log.swap in (streamed.0, record log { swap = streamed.1 })
  report false log = ([], log)

  -- A round of the cron task at a log; it passes over a log that has no queries.
  unfoldable pub stream_log : Bool → QueriesLog A → List A × QueriesLog A
  unfolding stream_queries
  stream_log is_stream log =
      if ltb 0 (get_queries_count log) then report is_stream (reset_queries log) else ([], log)
