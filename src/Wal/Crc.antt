-- ===== src/Wal/Crc.antt =====
-- `crc32Checksum` of pkg/storage/wal.go, on uint32.
use portask.Prelude.{
  ℕ, zero, suc, ◌/◌, ◌^◌, ◌<◌, Bool-cases, inl, inr, List, [], ◌∷◌, arith, ◌==◌, if◌then◌else◌,
}
use portask.Prelude.Bits.{bit_and, bit_xor, bit_xor-lt}

-- A round of the inner loop.
abbrev crc_round : ℕ → ℕ
crc_round crc = if bit_and crc 1 == 1 then bit_xor (crc / 2) 0xEDB88320 else crc / 2

crc_rounds : ℕ → ℕ → ℕ
crc_rounds zero crc = crc
crc_rounds (suc n) crc = crc_rounds n (crc_round crc)

crc_bytes : ℕ → List ℕ → ℕ
unfolding crc_rounds
crc_bytes crc [] = crc
crc_bytes crc (b ∷ bs) = crc_bytes (crc_rounds 8 (bit_xor crc b)) bs

-- `^crc` is exclusive or with all ones.
unfoldable pub crc32_checksum : List ℕ → ℕ
unfolding crc_bytes
crc32_checksum bs = bit_xor (crc_bytes 0xFFFFFFFF bs) 0xFFFFFFFF

-- Bytes.
abbrev pub AllBytes : List ℕ → Type 0
AllBytes [] = Unit
AllBytes (b ∷ bs) = (b < 256) × AllBytes bs

crc_rounds-lt : (n crc : ℕ) → crc < 2 ^ 32 → crc_rounds n crc < 2 ^ 32
unfolding crc_rounds
crc_rounds-lt zero crc h = h
crc_rounds-lt (suc n) crc h =
    crc_rounds-lt n (crc_round crc) (elim (Bool-cases (bit_and crc 1 == 1)) [
      | inl e ↦ rw e (bit_xor-lt 32 (crc / 2) 0xEDB88320 (omega arith) (omega arith))
      | inr e ↦ rw e (omega arith)
    ])

crc_bytes-lt : (bs : List ℕ) (crc : ℕ) → AllBytes bs → crc < 2 ^ 32 → crc_bytes crc bs < 2 ^ 32
unfolding crc_bytes
crc_bytes-lt [] crc a h = h
crc_bytes-lt (b ∷ bs) crc a h =
    crc_bytes-lt bs (crc_rounds 8 (bit_xor crc b)) a.1
      (crc_rounds-lt 8 (bit_xor crc b) (bit_xor-lt 32 crc b h (omega (arith, a.0))))

pub crc32_checksum-lt : (bs : List ℕ) → AllBytes bs → crc32_checksum bs < 2 ^ 32
unfolding crc32_checksum
crc32_checksum-lt bs a =
    bit_xor-lt 32 (crc_bytes 0xFFFFFFFF bs) 0xFFFFFFFF (crc_bytes-lt bs 0xFFFFFFFF a (omega arith))
      (omega arith)
