-- ===== src/QueriesLog/Tests.antt =====
-- A log of two queries, which are numbers.
use redis_graph.Prelude.{ℕ, true, false, List, [], ◌∷◌, ◌≡◌, refl, arith}
use redis_graph.CircularBuffer.{reserve, reset_reader, pop}
use redis_graph.QueriesLog.{new, read_all, stream_queries, stream_log}
use redis_graph.QueriesLog.Streams.{Event, added, streamed, streams, latest_streams, streams-new}

abbrev no_data : ℕ → ℕ
no_data i = 0

-- Of the first three queries the first is lost. The fourth is put aside at a key of another type,
-- and comes after the fifth.
abbrev events : List (Event ℕ)
events =
    added 1
    ∷ added 2
    ∷ added 3
    ∷ streamed true
    ∷ streamed true
    ∷ added 4
    ∷ streamed false
    ∷ streamed true
    ∷ added 5
    ∷ streamed true
    ∷ added 6
    ∷ streamed true
    ∷ []

streams_of_events :
    streams (new no_data 2) events ≡ (2 ∷ 3 ∷ []) ∷ [] ∷ [] ∷ [] ∷ (5 ∷ []) ∷ (4 ∷ 6 ∷ []) ∷ []
unfolding streams stream_log stream_queries read_all reset_reader reserve pop
streams_of_events = refl

streams-new_example : streams (new no_data 2) events ≡ latest_streams 2 [] [] events
streams-new_example = streams-new no_data 2 events (omega arith)
