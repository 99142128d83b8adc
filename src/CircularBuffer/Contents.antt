-- ===== src/CircularBuffer/Contents.antt =====
-- What a circular buffer holds, from its read position on.
use redis_graph.Prelude.{
  ℕ, zero, suc, ◌+◌, ◌-◌, ◌≤◌, ◌<◌, leb, if◌then◌else◌, ◌≡◌, refl, sym, ◌⊎◌, ap, ◌∙◌, arith, List,
  [], ◌∷◌, ◌++◌, length, ==_refl, Bool-cases, inl, inr,
}
use mathlib.Core.Path.{ap₂}
use redis_graph.CircularBuffer.{CircularBuffer, update, next_read}

-- The slot that is `n` slots after the one that is read
abbrev pub slot_of : ℕ → ℕ → ℕ → ℕ
slot_of capacity read n = if leb capacity (read + n) then read + n - capacity else read + n

slot_of_zero : (capacity read : ℕ) → read < capacity → slot_of capacity read 0 ≡ read
slot_of_zero capacity read h = ground arith

pub next_read_lt : (capacity read : ℕ) → read < capacity → next_read capacity read < capacity
next_read_lt capacity read h = ground arith

pub slot_of-suc :
    (capacity read n : ℕ)
    → read < capacity
    → suc n ≤ capacity
    → slot_of capacity read (suc n) ≡ slot_of capacity (next_read capacity read) n
slot_of-suc capacity read n h h' = ground arith

slot_of-suc_apart :
    (capacity read n : ℕ)
    → read < capacity
    → suc n < capacity
    → read < slot_of capacity read (suc n) ⊎ slot_of capacity read (suc n) < read
slot_of-suc_apart capacity read n h h' = elim (Bool-cases (leb capacity (read + suc n))) [
  | inl e ↦ inr (ground arith)
  | inr e ↦ inl (ground arith)
]

module _ {A : Type 0} where
  unfoldable pub contents_from : (ℕ → A) → ℕ → ℕ → ℕ → List A
  contents_from slots capacity read zero = []
  contents_from slots capacity read (suc n) =
      slots read ∷ contents_from slots capacity (next_read capacity read) n

  -- The items, the oldest one first
  abbrev pub contents : CircularBuffer A → List A
  contents cb = contents_from cb.slots cb.item_cap cb.read cb.item_count

  update_at : (slots : ℕ → A) (w : ℕ) (x : A) → update slots w x w ≡ x
  update_at slots w x = rw (==_refl w) refl

  update_other :
      (slots : ℕ → A) (w : ℕ) (x : A) (i : ℕ) → i < w ⊎ w < i → update slots w x i ≡ slots i
  update_other slots w x i h = ground arith

  -- A slot after the last one takes one item more.
  pub contents_from-update :
      (slots : ℕ → A) (capacity : ℕ) (x : A) (n read w : ℕ)
      → read < capacity
      → n < capacity
      → w ≡ slot_of capacity read n
      → contents_from (update slots w x) capacity read (suc n)
        ≡ contents_from slots capacity read n ++ (x ∷ [])
  unfolding contents_from
  contents_from-update slots capacity x zero read w hr hn e =
      ap (λ v. v ∷ [])
        (ap (update slots w x) (sym (e ∙ slot_of_zero capacity read hr)) ∙ update_at slots w x)
  contents_from-update slots capacity x (suc n) read w hr hn e =
      ap₂ ◌∷◌ (update_other slots w x read (apart (slot_of-suc_apart capacity read n hr hn) e)) (
        contents_from-update slots capacity x n (next_read capacity read) w
          (next_read_lt capacity read hr) (omega arith)
          (e ∙ slot_of-suc capacity read n hr (omega arith)))
    where
      apart : {p w r : ℕ} → r < p ⊎ p < r → w ≡ p → r < w ⊎ w < r
      apart (inl h) e = inl (omega arith)
      apart (inr h) e = inr (omega arith)

  pub length-contents_from :
      (slots : ℕ → A) (capacity n read : ℕ) → length (contents_from slots capacity read n) ≡ n
  unfolding contents_from
  length-contents_from slots capacity zero read = refl
  length-contents_from slots capacity (suc n) read =
      ap suc (length-contents_from slots capacity n (next_read capacity read))
