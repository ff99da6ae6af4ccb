-- ===== src/User/Random.antt =====
-- rand_int of user/random.c. The clock is the answer of the system call.
use kernel_genesis_os.Base.{ℕ, ◌+◌, ◌*◌, ◌%◌}

-- rand_int, from the seed `n`: the new seed, which it also returns. The sum has 32 bits.
unfoldable pub rand_int : (n clock : ℕ) → ℕ
rand_int n clock = (1664525 * n + 1013904223 + clock) % 4294967296 % 4294967295
