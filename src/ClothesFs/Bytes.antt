-- ===== src/ClothesFs/Bytes.antt =====
-- The numbers in a buffer: dataToNum and numToData.
use cxx_kernel.Base.{ℕ, zero, suc, ◌+◌, ◌*◌, ◌/◌, ◌%◌, ◌^◌, List, get_or, set}

-- res += buf[i] << n, on a uint32_t. A shift by 32 or more takes its count modulo 32, as on the x86.
unfoldable pub num_loop : ℕ → List ℕ → ℕ → ℕ → ℕ → ℕ
num_loop zero buf i n res = res
num_loop (suc cnt) buf i n res =
    num_loop cnt buf (i + 1) (n + 8) ((res + get_or buf i 0 * 2 ^ (n % 32)) % 2 ^ 32)

unfoldable pub data_to_num : List ℕ → ℕ → ℕ → ℕ
data_to_num buf start cnt = num_loop cnt buf start 0 0

-- buf[i] = (num >> n) & 0xFF
unfoldable pub data_loop : ℕ → ℕ → List ℕ → ℕ → ℕ → List ℕ
data_loop zero num buf i n = buf
data_loop (suc cnt) num buf i n = data_loop cnt num (set buf i (num / 2 ^ n % 256)) (i + 1) (n + 8)

unfoldable pub num_to_data : ℕ → List ℕ → ℕ → ℕ → List ℕ
num_to_data num buf start cnt = data_loop cnt num buf start 0
