-- ===== src/Gguf/Stream.antt =====
-- src/hydroxl/GGUFLoader.h, GGUFLoader.cpp: reading from the file. The file is the list of its bytes,
-- and the stream a position in it: reading no bytes always succeeds, and reading some fails if the
-- file ends before.
use hetero_accel.Base.{
  ℕ, ◌+◌, ◌*◌, ◌^◌, ◌||◌, Option, none, some, [], ◌∷◌, ltb, leb, ◌==◌, if◌then◌else◌, length, take,
  drop,
}
use hetero_accel.Gguf.Types.{Bytes, LoadError, unexpected_eof, string_too_long, eof_in_string}

-- What a part of the parser returns: an error, or a value and the position after it. A part whose
-- recursion has no fuel left is stuck.
pub data Read {ℓ} (A : Type ℓ) : Type ℓ where
  stuck : Read A
  fail : LoadError → Read A
  got : A → ℕ → Read A

module _ {ℓ κ} {A : Type ℓ} {B : Type κ} where
  abbrev pub and_then : Read A → (A → ℕ → Read B) → Read B
  and_then stuck f = stuck
  and_then (fail e) f = fail e
  and_then (got a p) f = f a p

-- `file_.read`.
abbrev pub read_at : Bytes → ℕ → ℕ → Option Bytes
read_at file pos n =
    if (n == 0) || leb (pos + n) (length file) then some (take n (drop pos file)) else none

-- The number whose bytes are given, the lowest first.
abbrev pub le : Bytes → ℕ
le [] = 0
le (b ∷ bs) = b + 256 * le bs

-- `readRaw`, for a type of `size` bytes.
unfoldable pub read_raw : Bytes → ℕ → ℕ → Read ℕ
read_raw file size pos = elim (read_at file pos size) [
  | none ↦ fail (unexpected_eof size)
  | some bs ↦ got (le bs) (pos + size)
]

unfoldable pub read_string : Bytes → ℕ → Read Bytes
unfolding read_raw
read_string file pos = and_then (read_raw file 8 pos) (λ len p.
    if ltb (2 ^ 20) len
    then fail (string_too_long len)
    else elim (read_at file p len) [ none ↦ fail (eof_in_string len) | some bs ↦ got bs (p + len) ])
