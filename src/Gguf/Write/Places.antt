-- ===== src/Gguf/Write/Places.antt =====
-- src/hydroxl/GGUFLoader.cpp: reading what stands at a place of the file.
use hetero_accel.Base.{
  ℕ, zero, suc, ◌+◌, ◌/◌, ◌^◌, ◌≤◌, ◌<◌, ◌≡◌, refl, sym, ap, ◌∙◌, subst, Bool, true, false, ◌||◌,
  Option, none, some, ◌++◌, arith, ltb, leb, ◌==◌, if◌then◌else◌, length, length-append, take, drop,
  drop-append, take-append, append_assoc,
}
use native.Mathlib.Nat.{pow-zero, pow-suc}
use hetero_accel.Gguf.Types.{Bytes}
use hetero_accel.Gguf.Stream.{got, read_at, le, read_raw, read_string}
use hetero_accel.Gguf.Write.{bytes_of, write_string}

-- The file has these bytes at this position.
pub record Has (file : Bytes) (pos : ℕ) (x : Bytes) : Type 0 where
  pub before : Bytes
  pub after : Bytes
  pub whole : file ≡ before ++ (x ++ after)
  pub place : length before ≡ pos

pub Has-first : {file : Bytes} {pos : ℕ} (x y : Bytes) → Has file pos (x ++ y) → Has file pos x
Has-first x y h = record {
  before = h.before;
  after = y ++ h.after;
  whole = h.whole ∙ ap (λ (k : Bytes). h.before ++ k) (append_assoc x y h.after);
  place = h.place;
}

pub Has-rest :
    {file : Bytes} {pos : ℕ} (x y : Bytes) → Has file pos (x ++ y) → Has file (pos + length x) y
Has-rest x y h = record {
  before = h.before ++ x;
  after = h.after;
  whole =
      h.whole
      ∙ ap (λ (k : Bytes). h.before ++ k) (append_assoc x y h.after)
      ∙ sym (append_assoc h.before x (y ++ h.after));
  place = length-append h.before x ∙ ap (λ (n : ℕ). n + length x) h.place;
}

Has-inside : {file : Bytes} {pos : ℕ} (x : Bytes) → Has file pos x → pos + length x ≤ length file
Has-inside x h = omega (
  arith,
  ap length h.whole,
  length-append h.before (x ++ h.after),
  length-append x h.after,
  h.place,
)

pub read_at-Has :
    (file : Bytes) (pos : ℕ) (x : Bytes) → Has file pos x → read_at file pos (length x) ≡ some x
read_at-Has file pos x h =
    let inside = Has-inside x h in
    let there : leb (pos + length x) (length file) ≡ true = ground (arith, inside) in
    let found : take (length x) (drop pos file) ≡ x =
      subst (λ n. take (length x) (drop n file) ≡ x) h.place
        (ap (λ (f : Bytes). take (length x) (drop (length h.before) f)) h.whole
          ∙ ap (λ (f : Bytes). take (length x) f) (drop-append h.before (x ++ h.after))
          ∙ take-append x h.after) in
    either (length x == 0) (leb (pos + length x) (length file)) there ∙ ap some found
  where
    either : {o : Option Bytes} (b c : Bool) → c ≡ true → (if b || c then o else none) ≡ o
    either true c h = refl
    either false true h = refl
    either false false h = cc

pub length-bytes_of : (n v : ℕ) → length (bytes_of n v) ≡ n
length-bytes_of zero v = refl
length-bytes_of (suc n) v = ap suc (length-bytes_of n (v / 256))

le-bytes_of : (n v : ℕ) → v < 256 ^ n → le (bytes_of n v) ≡ v
le-bytes_of zero v h = omega (arith, h, pow-zero 256)
le-bytes_of (suc n) v h =
    let e = pow-suc 256 n in
    let ih = le-bytes_of n (v / 256) (omega (arith, e, h)) in omega (arith, ih)

pub read_raw-Has :
    (file : Bytes) (size pos v : ℕ)
    → v < 256 ^ size
    → Has file pos (bytes_of size v)
    → read_raw file size pos ≡ got v (pos + size)
unfolding read_raw
read_raw-Has file size pos v small h =
    let e : read_at file pos size ≡ some (bytes_of size v) =
      subst (λ n. read_at file pos n ≡ some (bytes_of size v)) (length-bytes_of size v)
        (read_at-Has file pos (bytes_of size v) h) in
    let e' : read_raw file size pos ≡ got (le (bytes_of size v)) (pos + size) = ground (arith, e) in
    e' ∙ ap (λ (n : ℕ). got n (pos + size)) (le-bytes_of size v small)

pub read_string-Has :
    (file : Bytes) (pos : ℕ) (s : Bytes)
    → length s ≤ 2 ^ 20
    → Has file pos (write_string s)
    → read_string file pos ≡ got s (pos + length (write_string s))
unfolding read_string
read_string-Has file pos s small h =
    let e =
      read_raw-Has file 8 pos (length s) (omega (arith, small))
        (Has-first (bytes_of 8 (length s)) s h) in
    let e' = read_at-Has file (pos + 8) s (Has-rest (bytes_of 8 (length s)) s h) in
    let not_long : ltb (2 ^ 20) (length s) ≡ false = ground (arith, small) in
    let done : read_string file pos ≡ got s ((pos + 8) + length s) =
      ground (arith, e, not_long, e') in
    done ∙ ap (λ (n : ℕ). got s n) (omega arith)
