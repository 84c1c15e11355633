-- ===== src/Gguf/Tests.antt =====
-- src/hydroxl/GGUFLoader.cpp: a file with one tensor of one number, and a file that is cut short.
use hetero_accel.Base.{
  ℕ, ◌*◌, ◌≡◌, refl, ◌≢◌, ◌⊎◌, Bool, true, false, none, some, [], ◌∷◌, ◌++◌, arith, length,
}
use hetero_accel.Gguf.{Loader, open_file, read_tensor_data, parse_header, place_data, kv_uint32}
use hetero_accel.Gguf.Types.{Bytes, TensorDesc, f32, q8_0, ggml_type, value_type}
use hetero_accel.Gguf.Stream.{Read, stuck, got, read_raw, read_string}
use hetero_accel.Gguf.Values.{
  find_pair, parse_kv, read_value, read_array, read_elements, skip_elements, set_pair,
}
use hetero_accel.Gguf.Tensors.{tensor_bytes, read_dims, read_tensor, parse_tensors}
use hetero_accel.Gguf.Ends.Parts.{open_file-ends}
use hetero_accel.Gguf.Valid.{Opened}
use hetero_accel.Gguf.Valid.Opens.{open_file-Opened}
use hetero_accel.Gguf.Valid.Slices.{Fits, read_tensor_data-slice}
use hetero_accel.Gguf.Valid.Blocks.{HoldsIn, tensor_bytes-blocks}
use hetero_accel.Gguf.Write.{bytes_of, write_string, write_tensor, write_tensors}
use hetero_accel.Gguf.Write.Back.{Writable, parse_tensors-write}

abbrev one_number : TensorDesc
one_number = record { name = 97 ∷ []; type = f32; shape = 1 ∷ []; offset = 0; n_bytes = 4 }

abbrev header : ℕ → ℕ → Bytes
header n_tensors n_kv =
    bytes_of 4 1179993927 ++ (bytes_of 4 3 ++ (bytes_of 8 n_tensors ++ bytes_of 8 n_kv))

abbrev four_bytes : Bytes
four_bytes = 1 ∷ 2 ∷ 3 ∷ 4 ∷ []

abbrev small_file : Bytes
small_file = header 1 0 ++ (write_tensor one_number ++ (bytes_of 7 0 ++ four_bytes))

abbrev small_loader : Loader
small_loader = record {
  file = small_file;
  is_open = true;
  version = 3;
  n_tensors = 1;
  n_kv = 0;
  data_offset = 64;
  file_size = 68;
  kv = [];
  tensors = one_number ∷ [];
}

open_small : open_file small_file ≡ got small_loader 57
unfolding open_file parse_header parse_kv parse_tensors place_data read_tensor read_dims read_string
    read_raw tensor_bytes ggml_type kv_uint32 find_pair
open_small = refl

open_file-ends_example : open_file small_file ≢ stuck
open_file-ends_example = open_file-ends small_file (omega arith)

open_file-Opened_example : Opened small_file small_loader
open_file-Opened_example = open_file-Opened small_file small_loader 57 open_small

read_tensor_data-slice_example :
    (Fits small_loader one_number 4
      × (read_tensor_data small_loader one_number 4 ≡ some four_bytes)
      × (length four_bytes ≡ 4))
    ⊎ (¬ Fits small_loader one_number 4 × (read_tensor_data small_loader one_number 4 ≡ none))
read_tensor_data-slice_example =
    read_tensor_data-slice small_file small_loader 57 one_number 4 (omega arith) open_small

read_small : read_tensor_data small_loader one_number 4 ≡ some four_bytes
unfolding read_tensor_data
read_small = refl

one_number-Writable : Writable one_number
unfolding tensor_bytes ggml_type
one_number-Writable = record {
  valid = record {
    dimensions = (omega arith, omega arith);
    sizes = ((omega arith, omega arith), tt);
    elements = omega arith;
    bytes = refl;
  };
  name = omega arith;
  offset = omega arith;
  code = omega arith;
  type = refl;
}

parse_tensors-write_example :
    parse_tensors (header 1 0 ++ (write_tensors (one_number ∷ []) ++ (5 ∷ []))) 1 24
    ≡ got (one_number ∷ []) 57
parse_tensors-write_example =
    parse_tensors-write (header 1 0) (5 ∷ []) (one_number ∷ []) (one_number-Writable, tt)

tensor_bytes-blocks_example : (m : ℕ) × (tensor_bytes q8_0 33 ≡ some m) × HoldsIn 33 (32, 34) m
tensor_bytes-blocks_example = tensor_bytes-blocks q8_0 33 (32, 34) (omega arith) refl

-- A value of 100 bytes of which none is in the file.
abbrev cut_file : Bytes
cut_file =
    header 0 1 ++ (write_string (97 ∷ []) ++ (bytes_of 4 9 ++ (bytes_of 4 0 ++ bytes_of 8 100)))

abbrev is_open : Read Loader → Bool
is_open (got l p) = l.is_open
is_open _ = false

open_cut : is_open (open_file cut_file) ≡ true
unfolding open_file parse_header parse_kv parse_tensors place_data read_value read_array
    read_elements skip_elements set_pair read_string read_raw value_type kv_uint32 find_pair
open_cut = refl

-- 4294967295 * 641 * 6700417 elements: their size wraps around to 0.
wrapped_size : tensor_bytes q8_0 (4294967295 * 641 * 6700417) ≡ some 0
unfolding tensor_bytes
wrapped_size = refl
