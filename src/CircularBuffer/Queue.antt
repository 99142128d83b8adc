-- ===== src/CircularBuffer/Queue.antt =====
-- CircularBuffer_Add and CircularBuffer_Read make a queue.
use redis_graph.Prelude.{
  ℕ, zero, suc, ◌-◌, ◌≤◌, ◌<◌, Bool, true, false, leb, ◌==◌, if◌then◌else◌, ◌≡◌, refl, ap, ◌∙◌,
  arith, List, [], ◌∷◌, ◌++◌, Bool-cases, inl, inr, Option, none, some, length,
}
use mathlib.Core.Path.{ap₂}
use redis_graph.CircularBuffer.{CircularBuffer, next_read, push, pop, wrapped, new, is_empty}
use redis_graph.CircularBuffer.Contents.{
  contents, contents_from, contents_from-update, slot_of, slot_of-suc, next_read_lt,
  length-contents_from,
}

suc-sub : (n : ℕ) → suc n - 1 ≡ n
suc-sub n = omega arith

suc-not_zero : (n : ℕ) → (suc n == 0) ≡ false
suc-not_zero n = ground arith

popped_meets :
    (capacity read n : ℕ)
    → read < capacity
    → n ≤ capacity
    → 0 < n
    → slot_of capacity read n ≡ slot_of capacity (next_read capacity read) (n - 1)
popped_meets capacity read zero hr hn h = absurd (omega arith)
popped_meets capacity read (suc n) hr hn h = rw (suc-sub n) (slot_of-suc capacity read n hr hn)

pos : (n : ℕ) → (n == 0) ≡ false → 0 < n
pos n e = ground arith

module _ {A : Type 0} where
  -- There is room for an item, and from the read position on there are as many items as are
  -- counted, up to the write position.
  pub record IsValid (cb : CircularBuffer A) : Type 0 where
    pub count_le : cb.item_count ≤ cb.item_cap
    pub read_lt : cb.read < cb.item_cap
    pub write_le : cb.write ≤ cb.item_cap
    pub meets : wrapped cb ≡ slot_of cb.item_cap cb.read cb.item_count

  -- A queue of a fixed capacity: what it answers to an item and to a request, and what it holds then.
  abbrev pub enqueue : ℕ → List A → A → Bool × List A
  enqueue capacity xs item =
      if leb capacity (length xs) then (false, xs) else (true, xs ++ (item ∷ []))

  abbrev pub dequeue : List A → Option A × List A
  dequeue [] = (none, [])
  dequeue (x ∷ xs) = (some x, xs)

  pushed-IsValid :
      (cb : CircularBuffer A) (item : A)
      → leb cb.item_cap cb.item_count ≡ false
      → IsValid cb
      → IsValid (push cb item).1
  unfolding push
  pushed-IsValid cb item e v = rw e (record {
    count_le = ground arith;
    read_lt = v.read_lt;
    write_le = ground (arith, v.meets, v.write_le, v.read_lt, v.count_le);
    meets = ground (arith, v.meets, v.write_le, v.read_lt, v.count_le);
  })

  full_unchanged :
      (cb : CircularBuffer A)
      → leb cb.item_cap cb.item_count ≡ true
      → cb.item_count ≤ cb.item_cap
      → record cb { item_count = cb.item_cap } ≡ cb
  full_unchanged cb e h = ap (λ n. record cb { item_count = n }) (ground arith)

  push-IsValid : (cb : CircularBuffer A) (item : A) → IsValid cb → IsValid (push cb item).1
  unfolding push
  push-IsValid cb item v = elim (Bool-cases (leb cb.item_cap cb.item_count)) [
    | inl e ↦ rw (e, full_unchanged cb e v.count_le) v
    | inr e ↦ pushed-IsValid cb item e v
  ]

  contents-push :
      (cb : CircularBuffer A) (item : A)
      → IsValid cb
      → ((push cb item).0, contents (push cb item).1) ≡ enqueue cb.item_cap (contents cb) item
  unfolding push
  contents-push cb item v =
      rw (length-contents_from cb.slots cb.item_cap cb.item_count cb.read)
        (elim (Bool-cases (leb cb.item_cap cb.item_count)) [
          | inl e ↦ rw e (ap (λ b. (false, contents b)) (full_unchanged cb e v.count_le))
          | inr e ↦ rw e (
              ap (λ xs. (true, xs))
                (contents_from-update cb.slots cb.item_cap item cb.item_count cb.read (wrapped cb)
                  v.read_lt (ground arith) v.meets))
        ])

  pop-IsValid : (cb : CircularBuffer A) → IsValid cb → IsValid (pop cb).1
  unfolding pop
  pop-IsValid cb v = elim (Bool-cases (is_empty cb)) [
    | inl e ↦ rw e v
    | inr e ↦ rw e (record {
      count_le = omega (arith, v.count_le);
      read_lt = next_read_lt cb.item_cap cb.read v.read_lt;
      write_le = v.write_le;
      meets =
          v.meets
          ∙ popped_meets cb.item_cap cb.read cb.item_count v.read_lt v.count_le
              (pos cb.item_count e);
    })
  ]

  contents-pop : (cb : CircularBuffer A) → ((pop cb).0, contents (pop cb).1) ≡ dequeue (contents cb)
  unfolding pop contents_from
  contents-pop cb = of_count cb.item_count refl
    where
      of_count :
          (n : ℕ) → cb.item_count ≡ n → ((pop cb).0, contents (pop cb).1) ≡ dequeue (contents cb)
      of_count zero e = rw e refl
      of_count (suc n) e = rw (e, suc-not_zero n, suc-sub n) refl

  push-item_cap : (cb : CircularBuffer A) (item : A) → (push cb item).1.item_cap ≡ cb.item_cap
  unfolding push
  push-item_cap cb item = elim (Bool-cases (leb cb.item_cap cb.item_count)) [
    | inl e ↦ rw e refl
    | inr e ↦ rw e refl
  ]

  pop-item_cap : (cb : CircularBuffer A) → (pop cb).1.item_cap ≡ cb.item_cap
  unfolding pop
  pop-item_cap cb = elim (Bool-cases (is_empty cb)) [ inl e ↦ rw e refl | inr e ↦ rw e refl ]

-- Calls of CircularBuffer_Add and CircularBuffer_Read
pub data Call (A : Type 0) : Type 0 where
  put : A → Call A
  take : Call A

-- What a call answers
pub data Answer (A : Type 0) : Type 0 where
  added : Bool → Answer A
  taken : Option A → Answer A

module _ {A : Type 0} where
  unfoldable pub answers : CircularBuffer A → List (Call A) → List (Answer A)
  unfolding push pop
  answers cb [] = []
  answers cb (put x ∷ calls) = added (push cb x).0 ∷ answers (push cb x).1 calls
  answers cb (take ∷ calls) = taken (pop cb).0 ∷ answers (pop cb).1 calls

  -- The answers of a queue of a fixed capacity
  unfoldable pub queue_answers : ℕ → List A → List (Call A) → List (Answer A)
  queue_answers capacity xs [] = []
  queue_answers capacity xs (put x ∷ calls) =
      added (enqueue capacity xs x).0 ∷ queue_answers capacity (enqueue capacity xs x).1 calls
  queue_answers capacity xs (take ∷ calls) =
      taken (dequeue xs).0 ∷ queue_answers capacity (dequeue xs).1 calls

  -- A valid buffer answers any calls as the queue of the items that it holds.
  answers_from_valid :
      (cb : CircularBuffer A) (calls : List (Call A))
      → IsValid cb
      → answers cb calls ≡ queue_answers cb.item_cap (contents cb) calls
  unfolding answers queue_answers
  answers_from_valid cb [] v = refl
  answers_from_valid cb (put x ∷ calls) v = ap₂ ◌∷◌ (ap (λ p. added p.0) (contents-push cb x v)) (
      answers_from_valid (push cb x).1 calls (push-IsValid cb x v)
      ∙ ap₂ (λ c xs. queue_answers c xs calls) (push-item_cap cb x)
          (ap (λ p. p.1) (contents-push cb x v)))
  answers_from_valid cb (take ∷ calls) v = ap₂ ◌∷◌ (ap (λ p. taken p.0) (contents-pop cb)) (
      answers_from_valid (pop cb).1 calls (pop-IsValid cb v)
      ∙ ap₂ (λ c xs. queue_answers c xs calls) (pop-item_cap cb) (ap (λ p. p.1) (contents-pop cb)))

  new-IsValid : (slots : ℕ → A) (capacity : ℕ) → 0 < capacity → IsValid (new slots capacity)
  new-IsValid slots capacity h = record {
    count_le = omega arith;
    read_lt = h;
    write_le = omega arith;
    meets = ground arith;
  }

  -- From a new buffer with room for an item, any calls of CircularBuffer_Add and
  -- CircularBuffer_Read are answered as a queue of that capacity, empty at first, answers them.
  pub answers-new :
      (slots : ℕ → A) (capacity : ℕ) (calls : List (Call A))
      → 0 < capacity
      → answers (new slots capacity) calls ≡ queue_answers capacity [] calls
  unfolding contents_from
  answers-new slots capacity calls h =
      answers_from_valid (new slots capacity) calls (new-IsValid slots capacity h)
