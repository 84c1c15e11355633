-- ===== src/Gguf/Valid/Slices.antt =====
-- src/hydroxl/GGUFLoader.cpp: `readTensorData` reads inside the file.
use hetero_accel.Base.{
  ℕ, ◌+◌, ◌-◌, ◌^◌, ◌≤◌, ◌<◌, ◌≡◌, refl, sym, ap, ◌∙◌, ◌⊎◌, inl, inr, Bool, true, false, not, ◌||◌,
  Option, none, some, arith, ltb, leb, ◌==◌, if◌then◌else◌, ==→≡, ltb-false, or-false, length, take,
  drop, length-take, length-drop, u64_mod, add64,
}
use hetero_accel.Gguf.{Loader, open_file, read_tensor_data}
use hetero_accel.Gguf.Types.{Bytes, TensorDesc}
use hetero_accel.Gguf.Stream.{got, read_at}
use hetero_accel.Gguf.Tensors.{u64_max}
use hetero_accel.Gguf.Valid.Opens.{open_file-Opened}

-- The bytes of a tensor fit the buffer and lie in the file.
abbrev pub Fits : Loader → TensorDesc → ℕ → Type 0
Fits l d max_bytes =
    (0 < d.n_bytes)
    × (d.n_bytes ≤ max_bytes)
    × (l.data_offset + d.offset + d.n_bytes ≤ length l.file)

-- A result is the given one if a condition holds, and nothing if it does not.
abbrev pub Exactly : Type 0 → Bytes → Option Bytes → Type 0
Exactly P x r = (P × (r ≡ some x)) ⊎ (¬ P × (r ≡ none))

guard-Exactly :
    (P : Type 0) (x : Bytes) (b : Bool) (r : Option Bytes)
    → (b ≡ true → ¬ P)
    → (b ≡ false → Exactly P x r)
    → Exactly P x (if b then none else r)
guard-Exactly P x true r h k = inr (h refl, refl)
guard-Exactly P x false r h k = k refl

or-true : (a b : Bool) → (a || b) ≡ true → (a ≡ true) ⊎ (b ≡ true)
or-true true b h = inl refl
or-true false b h = inr h

ltb-true : (a b : ℕ) → ltb a b ≡ true → a < b
ltb-true a b h = ground arith

leb-of : (a b : ℕ) → a ≤ b → leb a b ≡ true
leb-of a b h = ground arith

read_tensor_data-Exactly :
    (l : Loader) (d : TensorDesc) (max_bytes : ℕ)
    → l.is_open ≡ true
    → l.file_size ≡ length l.file
    → l.data_offset < u64_mod
    → length l.file < 2 ^ 63
    → Exactly
        (Fits l d max_bytes)
        (take d.n_bytes (drop (l.data_offset + d.offset) l.file))
        (read_tensor_data l d max_bytes)
unfolding read_tensor_data
read_tensor_data-Exactly l d max_bytes open_now size small file_small =
    let P = Fits l d max_bytes in
    let x = take d.n_bytes (drop (l.data_offset + d.offset) l.file) in
    guard-Exactly P x (not l.is_open) _
      (λ h. let e : not true ≡ true = ap not (sym open_now) ∙ h in cc)
      (λ _.
        guard-Exactly P x (d.n_bytes == 0) _
          (λ h (a, b, c). let z = ==→≡ d.n_bytes 0 h in omega (arith, z, a))
          (λ some_bytes.
            guard-Exactly P x (ltb max_bytes d.n_bytes) _
              (λ h (a, b, c). let z = ltb-true max_bytes d.n_bytes h in omega (arith, z, b))
              (λ room.
                guard-Exactly P x
                  (ltb l.file_size d.offset || ltb (l.file_size - d.offset) d.n_bytes) _
                  (λ h (a, b, c).
                    elim (or-true (ltb l.file_size d.offset)
                      (ltb (l.file_size - d.offset) d.n_bytes) h) [
                        | inl k ↦
                            let z = ltb-true l.file_size d.offset k in omega (arith, z, c, size)
                        | inr k ↦
                            let z = ltb-true (l.file_size - d.offset) d.n_bytes k in
                            omega (arith, z, c, size)
                      ])
                  (λ near.
                    guard-Exactly P x (ltb (u64_max - l.data_offset) d.offset) _
                      (λ h (a, b, c).
                        let z = ltb-true (u64_max - l.data_offset) d.offset h in
                        omega (arith, z, c, small, file_small))
                      (λ no_wrap.
                        let z = ltb-false (u64_max - l.data_offset) d.offset no_wrap in
                        let exact : add64 l.data_offset d.offset ≡ l.data_offset + d.offset =
                          omega (arith, z, small) in
                        last exact some_bytes room)))))
  where
    last :
        add64 l.data_offset d.offset ≡ l.data_offset + d.offset
        → (d.n_bytes == 0) ≡ false
        → ltb max_bytes d.n_bytes ≡ false
        → Exactly (Fits l d max_bytes) (take d.n_bytes (drop (l.data_offset + d.offset) l.file)) (
            let at = add64 l.data_offset d.offset in
            if ltb l.file_size at || ltb (l.file_size - at) d.n_bytes
            then none
            else read_at l.file at d.n_bytes)
    last exact some_bytes room = rw exact (
        let at = l.data_offset + d.offset in
        guard-Exactly (Fits l d max_bytes) (take d.n_bytes (drop at l.file))
          (ltb l.file_size at || ltb (l.file_size - at) d.n_bytes) (read_at l.file at d.n_bytes)
          (λ h (a, b, c). elim (or-true (ltb l.file_size at) (ltb (l.file_size - at) d.n_bytes) h) [
            | inl k ↦ let z = ltb-true l.file_size at k in omega (arith, z, c, size)
            | inr k ↦ let z = ltb-true (l.file_size - at) d.n_bytes k in omega (arith, z, c, size)
          ])
          (λ k.
            let (k1, k2) = or-false (ltb l.file_size at) (ltb (l.file_size - at) d.n_bytes) k in
            let z1 = ltb-false l.file_size at k1 in
            let z2 = ltb-false (l.file_size - at) d.n_bytes k2 in
            let z3 = ltb-false max_bytes d.n_bytes room in
            let inside : at + d.n_bytes ≤ length l.file = omega (arith, z1, z2, size) in
            let e = leb-of (at + d.n_bytes) (length l.file) inside in
            let positive : 0 < d.n_bytes = ground (arith, some_bytes) in
            inl ((positive, z3, inside), rw (some_bytes, e) refl)))

-- Take a loader that open returned for a file of less than 2^63 bytes, and any descriptor, also one
-- that the loader does not hold. Reading its data into a buffer returns bytes exactly if the size is
-- not 0, fits the buffer, and the range from the data section's offset lies inside the file; then they
-- are the bytes of that range, as many as the size says. Otherwise it returns nothing. No sum wraps.
pub read_tensor_data-slice :
    (file : Bytes) (l : Loader) (p : ℕ) (d : TensorDesc) (max_bytes : ℕ)
    → length file < 2 ^ 63
    → open_file file ≡ got l p
    → (Fits l d max_bytes
        × (read_tensor_data l d max_bytes
            ≡ some (take d.n_bytes (drop (l.data_offset + d.offset) file)))
        × (length (take d.n_bytes (drop (l.data_offset + d.offset) file)) ≡ d.n_bytes))
      ⊎ (¬ Fits l d max_bytes × (read_tensor_data l d max_bytes ≡ none))
read_tensor_data-slice file l p d max_bytes file_small e =
    let o = open_file-Opened file l p e in
    let same_size : l.file_size ≡ length l.file = o.size ∙ sym (ap length o.contents) in
    let small : length l.file < 2 ^ 63 = omega (arith, ap length o.contents, file_small) in
    elim (read_tensor_data-Exactly l d max_bytes o.open_now same_size o.small small) [
      | inr (outside, nothing) ↦ inr (outside, nothing)
      | inl (fits, there) ↦ inl (
        fits,
        there
            ∙ ap (λ (f : Bytes). some (take d.n_bytes (drop (l.data_offset + d.offset) f)))
                o.contents,
        length-take d.n_bytes (drop (l.data_offset + d.offset) file) (
            omega (
              arith,
              length-drop (l.data_offset + d.offset) file,
              fits.2,
              ap length o.contents,
              fits.0,
            )),
      )
    ]
