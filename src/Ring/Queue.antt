-- ===== src/Ring/Queue.antt =====
-- What include/copper/ringbuf.h promises: a queue of at most `cap` bytes, oldest first.
use libcopper.Base.{ℕ, ◌-◌, min, List, [], ◌∷◌, ◌++◌, length, take, drop, leb}
use libcopper.Base.{if◌then◌else◌}

-- The calls of one client, and what it sees of each.
pub data Op : Type 0 where
  write read write_all read_all : Op

pub record Call : Type 0 where
  pub op : Op
  -- The bytes to write, or as many bytes to read as this is long
  pub bytes : List ℕ

pub data Reply : Type 0 where
  wrote : ℕ → Reply
  got : List ℕ → Reply
  refused : Reply

pub data Answer : Type 0 where
  answer : Reply → List ℕ → Answer

abbrev and_then : Answer → (List ℕ → List Reply) → List Reply
and_then (answer r q) rest = r ∷ rest q

module _ (cap : ℕ) where
  -- As many bytes as fit are appended, or as many as there are taken from the front; the `all`
  -- forms do this for the whole request or not at all.
  unfoldable pub step : List ℕ → Op → List ℕ → Answer
  step q Op.write bytes =
      let n = min (length bytes) (cap - length q) in answer (wrote n) (q ++ take n bytes)
  step q Op.write_all bytes =
      if leb (length bytes) (cap - length q)
      then answer (wrote (length bytes)) (q ++ bytes)
      else answer refused q
  step q Op.read bytes = let n = min (length bytes) (length q) in answer (got (take n q)) (drop n q)
  step q Op.read_all bytes =
      if leb (length bytes) (length q)
      then answer (got (take (length bytes) q)) (drop (length bytes) q)
      else answer refused q

  unfoldable pub run : List ℕ → List Call → List Reply
  run q [] = []
  run q (c ∷ calls) = and_then (step q c.op c.bytes) (λ q'. run q' calls)
