-- ===== src/Wire/Buffer.antt =====
-- The parts of the crate `bytes` that the codecs call. A buffer is the list of its bytes, a writing
-- call is the bytes it appends, and a reading call answers nothing on a buffer that is too short.
use rustibia_server.Prelude.{ℕ, ◌+◌, ◌<◌, ◌≡◌, Option, none, some, List, ◌++◌, length}
use rustibia_server.Prelude.Int.{ℤ, pos, negsuc}

-- The range of an `i8`.
abbrev pub IsI8 : ℤ → Type 0
IsI8 (pos n) = n < 128
IsI8 (negsuc n) = n < 128

pub record Buffer : Type 0 where
  pub put_u8 : ℕ → List ℕ
  pub put_u16_le : ℕ → List ℕ
  pub put_u32_le : ℕ → List ℕ
  pub put_u64_le : ℕ → List ℕ
  pub put_i8 : ℤ → List ℕ
  pub try_get_u8 : List ℕ → Option (ℕ × List ℕ)
  pub try_get_u16_le : List ℕ → Option (ℕ × List ℕ)
  pub try_get_u32_le : List ℕ → Option (ℕ × List ℕ)
  pub try_get_u64_le : List ℕ → Option (ℕ × List ℕ)
  pub try_get_i8 : List ℕ → Option (ℤ × List ℕ)
  pub split_to : ℕ → List ℕ → Option (List ℕ × List ℕ)
  -- What was written is read back, and the bytes behind it are left.
  pub try_get_u8-put_u8 : (n : ℕ) (t : List ℕ) → n < 256 → try_get_u8 (put_u8 n ++ t) ≡ some (n, t)
  pub try_get_u16_le-put_u16_le :
      (n : ℕ) (t : List ℕ) → n < 65536 → try_get_u16_le (put_u16_le n ++ t) ≡ some (n, t)
  pub try_get_u32_le-put_u32_le :
      (n : ℕ) (t : List ℕ) → n < 4294967296 → try_get_u32_le (put_u32_le n ++ t) ≡ some (n, t)
  pub try_get_u64_le-put_u64_le :
      (n : ℕ) (t : List ℕ)
      → n < 18446744073709551616
      → try_get_u64_le (put_u64_le n ++ t) ≡ some (n, t)
  pub try_get_i8-put_i8 : (i : ℤ) (t : List ℕ) → IsI8 i → try_get_i8 (put_i8 i ++ t) ≡ some (i, t)
  pub split_to-append : (xs t : List ℕ) → split_to (length xs) (xs ++ t) ≡ some (xs, t)
  -- Each call writes and takes the bytes of its type, and fails only where there are fewer.
  pub length-put_u8 : (n : ℕ) → length (put_u8 n) ≡ 1
  pub length-put_u16_le : (n : ℕ) → length (put_u16_le n) ≡ 2
  pub length-put_u32_le : (n : ℕ) → length (put_u32_le n) ≡ 4
  pub length-put_u64_le : (n : ℕ) → length (put_u64_le n) ≡ 8
  pub length-put_i8 : (i : ℤ) → length (put_i8 i) ≡ 1
  pub try_get_u8-length :
      (xs t : List ℕ) (n : ℕ) → try_get_u8 xs ≡ some (n, t) → length xs ≡ 1 + length t
  pub try_get_u16_le-length :
      (xs t : List ℕ) (n : ℕ) → try_get_u16_le xs ≡ some (n, t) → length xs ≡ 2 + length t
  pub try_get_u32_le-length :
      (xs t : List ℕ) (n : ℕ) → try_get_u32_le xs ≡ some (n, t) → length xs ≡ 4 + length t
  pub try_get_u64_le-length :
      (xs t : List ℕ) (n : ℕ) → try_get_u64_le xs ≡ some (n, t) → length xs ≡ 8 + length t
  pub try_get_i8-length :
      (xs t : List ℕ) (i : ℤ) → try_get_i8 xs ≡ some (i, t) → length xs ≡ 1 + length t
  pub split_to-length :
      (n : ℕ) (xs ys t : List ℕ) → split_to n xs ≡ some (ys, t) → length xs ≡ n + length t
  pub split_to-short : (n : ℕ) (xs : List ℕ) → length xs < n → split_to n xs ≡ none
