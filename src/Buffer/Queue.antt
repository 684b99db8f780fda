-- ===== src/Buffer/Queue.antt =====
-- A queue of at most `cap` bytes, oldest first, and the calls that a client makes on it.
use tipy.Common.{ℕ, ◌-◌, List, [], ◌∷◌, ◌++◌, length, take, drop, min}

pub data Op : Type 0 where
  put : List ℕ → Op
  get : ℕ → Op

-- What a call returns: the number of bytes taken, or the bytes handed out.
pub data Reply : Type 0 where
  accepted : ℕ → Reply
  bytes : List ℕ → Reply

module _ (cap : ℕ) where
  -- bytes beyond the capacity are refused
  abbrev pub push : List ℕ → List ℕ → ℕ × List ℕ
  push q buffer = let n = min (length buffer) (cap - length q) in (n, q ++ take n buffer)

  unfoldable pub run : List ℕ → List Op → List Reply
  run q [] = []
  run q (put buffer ∷ ops) = let (n, q') = push q buffer in accepted n ∷ run q' ops
  run q (get n ∷ ops) = bytes (take n q) ∷ run (drop n q) ops
