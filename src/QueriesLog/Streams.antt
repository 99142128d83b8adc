-- ===== src/QueriesLog/Streams.antt =====
-- What the rounds of the cron task stream of the queries that were added to the log.
use mathlib.Core.Path.{ap₂}
use redis_graph.Prelude.{
  ℕ, zero, suc, ◌-◌, ◌<◌, ◌==◌, Bool, true, false, ltb, none, some, List, [], ◌∷◌, length, ◌≡◌,
  refl, sym, ap, ◌∙◌, arith,
}
use redis_graph.CircularBuffer.{CircularBuffer, next_read, reserve, fill, reset_reader, pop}
use redis_graph.CircularBuffer.Contents.{contents, contents_from, length-contents_from}
use redis_graph.CircularBuffer.Latest.{IsWritable, keep, contents-reserve, reserve-IsWritable}
use redis_graph.QueriesLog.{
  QueriesLog, new, add_query, reset_queries, read_all, stream_queries, report, stream_log,
}

-- What happens to a log: a query is added, or the cron task comes by, at a key that is of a stream,
-- or of nothing yet, or at one that is of another type.
pub data Event (A : Type 0) : Type 0 where
  added : A → Event A
  streamed : Bool → Event A

suc-not_zero : (n : ℕ) → (suc n == 0) ≡ false
suc-not_zero n = ground arith

suc-sub : (n : ℕ) → suc n - 1 ≡ n
suc-sub n = omega arith

module _ {A : Type 0} where
  -- What each round of the cron task streams
  unfoldable pub streams : QueriesLog A → List (Event A) → List (List A)
  unfolding stream_log
  streams log [] = []
  streams log (added q ∷ events) = streams (add_query log q) events
  streams log (streamed key ∷ events) =
      (stream_log key log).0 ∷ streams (stream_log key log).1 events

  -- A list that takes an item more, without its first one if it has `capacity` items already
  abbrev pub keep_latest : ℕ → List A → A → List A
  keep_latest capacity xs q = keep capacity (length xs) xs q

  -- A round over two such lists, that of the latest queries and that which is put aside: what it
  -- streams, and the lists after it. It exchanges them unless the first is empty.
  abbrev pub latest_round : Bool → List A → List A → List A × List A × List A
  latest_round key [] ys = ([], [], ys)
  latest_round true (x ∷ xs) ys = (x ∷ xs, ys, [])
  latest_round false (x ∷ xs) ys = ([], ys, x ∷ xs)

  -- The rounds of a log that is two such lists
  unfoldable pub latest_streams : ℕ → List A → List A → List (Event A) → List (List A)
  latest_streams capacity xs ys [] = []
  latest_streams capacity xs ys (added q ∷ events) =
      latest_streams capacity (keep_latest capacity xs q) ys events
  latest_streams capacity xs ys (streamed key ∷ events) =
      let r = latest_round key xs ys in r.0 ∷ latest_streams capacity r.1 r.2 events

  -- What is read, and that the buffer is empty then and else as it was.
  record IsRead (cb : CircularBuffer A) (r : List A × CircularBuffer A) : Type 0 where
    items : r.0 ≡ contents cb
    emptied : r.1.item_count ≡ 0
    cap : r.1.item_cap ≡ cb.item_cap
    write : r.1.write ≡ cb.write

  pop-empty : (cb : CircularBuffer A) → cb.item_count ≡ 0 → pop cb ≡ (none, cb)
  unfolding pop
  pop-empty cb e = rw (e, pop) refl

  pop-item :
      (cb : CircularBuffer A) (n : ℕ)
      → cb.item_count ≡ suc n
      → pop cb ≡ (
        some (cb.slots cb.read),
        record cb { item_count = n; read = next_read cb.item_cap cb.read },
      )
  unfolding pop
  pop-item cb n e = rw (e, pop) (rw (suc-not_zero n, suc-sub n) refl)

  empty-IsRead :
      (fuel : ℕ) (cb : CircularBuffer A) → cb.item_count ≡ 0 → IsRead cb (read_all (suc fuel) cb)
  unfolding read_all contents_from
  empty-IsRead fuel cb e =
      rw (pop-empty cb e, read_all)
        (record { items = rw e refl; emptied = e; cap = refl; write = refl })

  one-IsRead :
      (fuel n : ℕ) (cb : CircularBuffer A)
      → cb.item_count ≡ suc n
      → IsRead
          (record cb { item_count = n; read = next_read cb.item_cap cb.read })
          (read_all fuel (record cb { item_count = n; read = next_read cb.item_cap cb.read }))
      → IsRead cb (read_all (suc fuel) cb)
  unfolding read_all contents_from
  one-IsRead fuel n cb e r =
      rw (pop-item cb n e, read_all)
        (record {
          items = rw e (ap (λ xs. cb.slots cb.read ∷ xs) r.items);
          emptied = r.emptied;
          cap = r.cap;
          write = r.write;
        })

  read_all-IsRead :
      (fuel : ℕ) (cb : CircularBuffer A) (n : ℕ)
      → cb.item_count ≡ n
      → n < fuel
      → IsRead cb (read_all fuel cb)
  read_all-IsRead zero cb n e h = absurd (omega arith)
  read_all-IsRead (suc fuel) cb zero e h = empty-IsRead fuel cb e
  read_all-IsRead (suc fuel) cb (suc n) e h =
      one-IsRead fuel n cb e (read_all-IsRead fuel _ n refl (omega arith))

  stream_queries-IsRead : (cb : CircularBuffer A) → IsRead (reset_reader cb) (stream_queries cb)
  unfolding stream_queries reset_reader
  stream_queries-IsRead cb =
      read_all-IsRead (suc cb.item_count) (reset_reader cb) cb.item_count refl (omega arith)

  -- A log of a capacity which holds some queries, and some that were put aside, the oldest first
  record Holds (capacity : ℕ) (log : QueriesLog A) (xs ys : List A) : Type 0 where
    room : 0 < capacity
    queries_cap : log.queries.item_cap ≡ capacity
    swap_cap : log.swap.item_cap ≡ capacity
    queries_writable : IsWritable log.queries
    swap_writable : IsWritable log.swap
    held : contents (reset_reader log.queries) ≡ xs
    aside : contents (reset_reader log.swap) ≡ ys

  reserved_cap : (cb : CircularBuffer A) (q : A) → (fill (reserve cb) q).item_cap ≡ cb.item_cap
  unfolding reserve
  reserved_cap cb q = refl

  held_count :
      (cb : CircularBuffer A) (xs : List A)
      → contents (reset_reader cb) ≡ xs
      → length xs ≡ cb.item_count
  unfolding reset_reader
  held_count cb xs e =
      ap length (sym e)
      ∙ length-contents_from cb.slots cb.item_cap cb.item_count (reset_reader cb).read

  read-IsWritable :
      (cb : CircularBuffer A) (r : List A × CircularBuffer A)
      → IsWritable cb
      → IsRead (reset_reader cb) r
      → IsWritable r.1
  unfolding reset_reader
  read-IsWritable cb r w d = record {
    has_room = omega (arith, w.has_room, d.cap);
    count_le = omega (arith, d.emptied);
    write_le = omega (arith, w.write_le, d.cap, d.write);
  }

  empty_contents : (cb : CircularBuffer A) → cb.item_count ≡ 0 → contents (reset_reader cb) ≡ []
  unfolding contents_from reset_reader
  empty_contents cb e = rw e refl

  add_query-Holds :
      (capacity : ℕ) (log : QueriesLog A) (xs ys : List A) (q : A)
      → Holds capacity log xs ys
      → Holds capacity (add_query log q) (keep_latest capacity xs q) ys
  add_query-Holds capacity log xs ys q h = record {
    room = h.room;
    queries_cap = reserved_cap log.queries q ∙ h.queries_cap;
    swap_cap = h.swap_cap;
    queries_writable = reserve-IsWritable log.queries q h.queries_writable;
    swap_writable = h.swap_writable;
    held =
        contents-reserve log.queries q h.queries_writable
        ∙ rw (h.held, h.queries_cap)
            (ap (λ n. keep capacity n xs q) (sym (held_count log.queries xs h.held)));
    aside = h.aside;
  }

  report-Holds :
      (capacity : ℕ) (log : QueriesLog A) (key : Bool) (x : A) (xs ys : List A)
      → Holds capacity log (x ∷ xs) ys
      → ((report key (reset_queries log)).0 ≡ (latest_round key (x ∷ xs) ys).0)
        × Holds capacity
            (report key (reset_queries log)).1
            (latest_round key (x ∷ xs) ys).1
            (latest_round key (x ∷ xs) ys).2
  unfolding reset_reader
  report-Holds capacity log true x xs ys h =
      let r = stream_queries-IsRead log.queries in
      (
        r.items ∙ h.held,
        record {
          room = h.room;
          queries_cap = h.swap_cap;
          swap_cap = r.cap ∙ h.queries_cap;
          queries_writable = h.swap_writable;
          swap_writable =
              read-IsWritable log.queries (stream_queries log.queries) h.queries_writable r;
          held = h.aside;
          aside = empty_contents (stream_queries log.queries).1 r.emptied;
        },
      )
  report-Holds capacity log false x xs ys h = (
    refl,
    record {
      room = h.room;
      queries_cap = h.swap_cap;
      swap_cap = h.queries_cap;
      queries_writable = h.swap_writable;
      swap_writable = h.queries_writable;
      held = h.aside;
      aside = h.held;
    },
  )

  stream_log-Holds :
      (capacity : ℕ) (log : QueriesLog A) (key : Bool) (xs ys : List A)
      → Holds capacity log xs ys
      → ((stream_log key log).0 ≡ (latest_round key xs ys).0)
        × Holds capacity
            (stream_log key log).1
            (latest_round key xs ys).1
            (latest_round key xs ys).2
  unfolding stream_log
  stream_log-Holds capacity log key [] ys h =
      let none_left : ltb 0 log.queries.item_count ≡ false =
        ground (arith, held_count log.queries [] h.held) in
      rw none_left (refl, h)
  stream_log-Holds capacity log key (x ∷ xs) ys h =
      let some_left : ltb 0 log.queries.item_count ≡ true =
        ground (arith, held_count log.queries (x ∷ xs) h.held) in
      rw some_left (report-Holds capacity log key x xs ys h)

  streams_of_held :
      (capacity : ℕ) (log : QueriesLog A) (xs ys : List A) (events : List (Event A))
      → Holds capacity log xs ys
      → streams log events ≡ latest_streams capacity xs ys events
  unfolding streams latest_streams
  streams_of_held capacity log xs ys [] h = refl
  streams_of_held capacity log xs ys (added q ∷ events) h =
      streams_of_held capacity (add_query log q) (keep_latest capacity xs q) ys events
        (add_query-Holds capacity log xs ys q h)
  streams_of_held capacity log xs ys (streamed key ∷ events) h =
      let (e, h') = stream_log-Holds capacity log key xs ys h in
      ap₂ ◌∷◌ e (streams_of_held capacity (stream_log key log).1 _ _ events h')

  new-Holds :
      (slots : ℕ → A) (capacity : ℕ) → 0 < capacity → Holds capacity (new slots capacity) [] []
  unfolding contents_from reset_reader
  new-Holds slots capacity h = record {
    room = h;
    queries_cap = refl;
    swap_cap = refl;
    queries_writable = record { has_room = h; count_le = omega arith; write_le = omega arith };
    swap_writable = record { has_room = h; count_le = omega arith; write_le = omega arith };
    held = refl;
    aside = refl;
  }

  -- From a new log with room for a query, whatever queries are added and whenever the cron task
  -- comes by, it streams what a log would that is two lists of at most as many queries as there is
  -- room for. A query goes to the first list, in place of the oldest one where that is full. A round
  -- passes over an empty first list; else it streams that list, in its order, where the key is of a
  -- stream, empties it then, and goes on with the second list as the first. Where the key is of
  -- another type it streams nothing, and the first list is kept as the second.
  pub streams-new :
      (slots : ℕ → A) (capacity : ℕ) (events : List (Event A))
      → 0 < capacity
      → streams (new slots capacity) events ≡ latest_streams capacity [] [] events
  streams-new slots capacity events h =
      streams_of_held capacity (new slots capacity) [] [] events (new-Holds slots capacity h)
