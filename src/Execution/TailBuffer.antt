-- ===== src/Execution/TailBuffer.antt =====
-- internal/execution/runner.go, `tailBuffer`: the writer that keeps the end of a process's output.
pub mod Laws
use microhook.Prelude.{
  ℕ, ◌+◌, ◌-◌, ◌≤◌, Text, ℤ, is_pos, pos_part, List, [], ◌∷◌, ◌++◌, Bool, ◌||◌, not, length, drop,
  is_empty, leb, ltb, if◌then◌else◌,
}

pub record TailBuffer : Type 0 where
  pub limit : ℤ
  pub buf : Text

unfoldable pub new : ℤ → TailBuffer
new limit = record { limit = limit; buf = [] }

-- `b.buf[overflow:]` where there is an overflow.
abbrev pub shift : ℕ → ℕ → Text → Text
shift n m buf = if ltb n (length buf + m) then drop (length buf + m - n) buf else buf

-- The buffer after the write, and the count that is returned; the error is always nil.
unfoldable pub write : TailBuffer → Text → TailBuffer × ℕ
write b p =
    let n = pos_part b.limit in
    if not (is_pos b.limit) || is_empty p
    then (b, length p)
    else if leb n (length p)
    then (record b { buf = drop (length p - n) p }, length p)
    else (record b { buf = shift n (length p) b.buf ++ p }, length p)

-- The writes of a process, one after the other.
unfoldable pub write_all : TailBuffer → List Text → TailBuffer
unfolding write
write_all b [] = b
write_all b (p ∷ ps) = write_all (write b p).0 ps

unfoldable pub to_text : TailBuffer → Text
to_text b = b.buf
