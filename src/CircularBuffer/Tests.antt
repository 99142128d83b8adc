-- ===== src/CircularBuffer/Tests.antt =====
-- Buffers of three slots.
use redis_graph.Prelude.{ℕ, true, false, none, some, List, [], ◌∷◌, ◌≡◌, refl, arith}
use redis_graph.CircularBuffer.{CircularBuffer, new, reserve, fill, reset_reader}
use redis_graph.CircularBuffer.Contents.{contents, contents_from}
use redis_graph.CircularBuffer.Queue.{
  Call, put, take, added, taken, answers, queue_answers, answers-new,
}

abbrev no_data : ℕ → ℕ
no_data i = 0

-- Four items are offered, of which the last finds no room until one is read.
abbrev calls : List (Call ℕ)
calls = put 1 ∷ put 2 ∷ put 3 ∷ put 4 ∷ take ∷ put 5 ∷ take ∷ take ∷ take ∷ take ∷ []

answers_of_calls :
    answers (new no_data 3) calls
    ≡ added true
      ∷ added true
      ∷ added true
      ∷ added false
      ∷ taken (some 1)
      ∷ added true
      ∷ taken (some 2)
      ∷ taken (some 3)
      ∷ taken (some 5)
      ∷ taken none
      ∷ []
unfolding answers
answers_of_calls = refl

answers-new_example : answers (new no_data 3) calls ≡ queue_answers 3 [] calls
answers-new_example = answers-new no_data 3 calls (omega arith)

-- A full buffer whose next item goes to the first slot
abbrev full : CircularBuffer ℕ
full = record { read = 0; write = 3; item_count = 3; item_cap = 3; slots = λ i. i }

contents_of_full : contents (reset_reader (fill (reserve full) 7)) ≡ 1 ∷ 2 ∷ 7 ∷ []
unfolding reserve reset_reader contents_from
contents_of_full = refl
