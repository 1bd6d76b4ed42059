-- ===== src/Sandbox/Buffer.antt =====
-- The bounded buffer of internal/sandbox/sandbox.go, which takes the output of the contained process.
use plug_and_prejudice.Prelude.{
  Bool, List, Text, [], false, if◌then◌else◌, leb, length, ltb, take, true, ℕ, ◌++◌, ◌+◌, ◌-◌, ◌∷◌,
}
use plug_and_prejudice.Prelude.Int.{pos, ℤ, ◌-ℤ◌}

-- `err` is whether an error is kept, and `cancelled` whether `cancel` was called.
pub record Buffer : Type 0 where
  pub buffer : Text
  pub limit : ℕ
  pub failed : Bool
  pub cancelled : Bool

abbrev pub fresh : ℕ → Buffer
fresh bound = record { buffer = []; limit = bound; failed = false; cancelled = false }

-- The number that `Write` returns, whether it returns an error, and the buffer after it.
pub record Written : Type 0 where
  pub count : ℤ
  pub refused : Bool
  pub after : Buffer

unfoldable pub overflow : ℕ → Text → Buffer → Written
overflow remaining bytes b = record {
  count = pos b.limit -ℤ pos (length b.buffer);
  refused = true;
  after = record b {
    buffer = if ltb 0 remaining then b.buffer ++ take remaining bytes else b.buffer;
    failed = true;
    cancelled = true;
  };
}

unfoldable pub write : Text → Buffer → Written
unfolding overflow
write bytes b =
    if b.failed
    then record { count = pos 0; refused = true; after = b }
    else if leb (length bytes + length b.buffer) b.limit
    then record {
      count = pos (length bytes);
      refused = false;
      after = record b { buffer = b.buffer ++ bytes };
    }
    else overflow (b.limit - length b.buffer) bytes b

-- What a process writes, one piece after another.
unfoldable pub write_all : List Text → Buffer → Buffer
unfolding write
write_all [] b = b
write_all (piece ∷ pieces) b = write_all pieces (write piece b).after
