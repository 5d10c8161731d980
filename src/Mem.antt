-- ===== src/Mem.antt =====
-- The address space as bytes, and little-endian accesses of `n` bytes as the pointers of
-- tagha/tagha.c make them. An address is taken modulo 2 ^ 64 and a cell modulo 256.
pub mod Laws
use tagha.Base.{ℕ, zero, suc, ◌+◌, ◌*◌, ◌/◌, ◌%◌, ◌^◌, ◌==◌, if◌then◌else◌, Bool, true, ◌&&◌}

abbrev pub Mem : Type 0
Mem = ℕ → ℕ

unfoldable pub poke : Mem → ℕ → ℕ → Mem
poke m a b x = if x == a % 2 ^ 64 then b else m x

unfoldable pub load : ℕ → Mem → ℕ → ℕ
load zero m a = 0
load (suc n) m a = m (a % 2 ^ 64) % 256 + 256 * load n m (a + 1)

unfoldable pub store : ℕ → Mem → ℕ → ℕ → Mem
unfolding poke
store zero m a v = m
store (suc n) m a v = store n (poke m a (v % 256)) (a + 1) (v / 256)

-- memcpy: every byte is read from the memory before the copy.
unfoldable pub copy : ℕ → Mem → Mem → ℕ → ℕ → Mem
unfolding poke
copy zero old m dst src = m
copy (suc n) old m dst src = copy n old (poke m dst (old (src % 2 ^ 64) % 256)) (dst + 1) (src + 1)

-- !memcmp
unfoldable pub same_bytes : ℕ → Mem → ℕ → ℕ → Bool
same_bytes zero m a b = true
same_bytes (suc n) m a b =
    (m (a % 2 ^ 64) % 256 == m (b % 2 ^ 64) % 256) && same_bytes n m (a + 1) (b + 1)
