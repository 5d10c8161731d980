-- ===== src/Words/Signed.antt =====
-- The integers that words stand for, and what sign extension and the signed tests of tagha/tagha.c
-- are on them.
use tagha.Base.{
  ℕ, suc, ◌+◌, ◌-◌, ◌/◌, ◌^◌, ◌<◌, ◌≤◌, ◌≡◌, ◌↔◌, ◌⊎◌, inl, inr, arith, true, ltb, if◌then◌else◌,
}
use tagha.Words.{sext, lane_ilt, lane_ile}

-- `negsuc n` is -(n + 1).
pub data ℤ : Type 0 where
  pos : ℕ → ℤ
  negsuc : ℕ → ℤ

abbrev pub pos_part : ℤ → ℕ
pos_part (pos n) = n
pos_part (negsuc n) = 0

abbrev pub neg_part : ℤ → ℕ
neg_part (pos n) = 0
neg_part (negsuc n) = suc n

infix 50 ◌≤ℤ◌ ◌<ℤ◌
abbrev pub ◌≤ℤ◌ : ℤ → ℤ → Type 0
a ≤ℤ b = pos_part a + neg_part b ≤ pos_part b + neg_part a

abbrev pub ◌<ℤ◌ : ℤ → ℤ → Type 0
a <ℤ b = pos_part a + neg_part b < pos_part b + neg_part a

-- The two's complement reading of a pattern of `w` bytes.
abbrev pub signed : ℕ → ℕ → ℤ
signed w v = if ltb v (256 ^ w / 2) then pos v else negsuc (256 ^ w - v - 1)

-- `lane_ilt` and `lane_ile` on 8 bytes are the order of the integers.
pub lane_ilt-signed :
    (a b : ℕ) → a < 2 ^ 64 → b < 2 ^ 64 → (lane_ilt 8 a b ≡ true) ↔ (signed 8 a <ℤ signed 8 b)
unfolding lane_ilt
lane_ilt-signed a b ha hb = (λ h. ground arith, λ h. ground arith)

pub lane_ile-signed :
    (a b : ℕ) → a < 2 ^ 64 → b < 2 ^ 64 → (lane_ile 8 a b ≡ true) ↔ (signed 8 a ≤ℤ signed 8 b)
unfolding lane_ile
lane_ile-signed a b ha hb = (λ h. ground arith, λ h. ground arith)

-- The widths that are extended.
abbrev pub IsNarrow : ℕ → Type 0
IsNarrow n = (n ≡ 1) ⊎ (n ≡ 2) ⊎ (n ≡ 4)

sext-signed_at : (w v : ℕ) → IsNarrow w → v < 256 ^ w → signed 8 (sext w v) ≡ signed w v
unfolding sext
sext-signed_at w v (inl e) h = rw e (let h' : v < 256 ^ 1 = rw e at h in ground arith)
sext-signed_at w v (inr (inl e)) h = rw e (let h' : v < 256 ^ 2 = rw e at h in ground arith)
sext-signed_at w v (inr (inr e)) h = rw e (let h' : v < 256 ^ 4 = rw e at h in ground arith)

pub sext-signed : (w v : ℕ) → IsNarrow w → v < 256 ^ w → signed 8 (sext w v) ≡ signed w v
sext-signed = sext-signed_at

pub sext-lt : (w v : ℕ) → IsNarrow w → v < 256 ^ w → sext w v < 2 ^ 64
unfolding sext
sext-lt w v (inl e) h = rw e (let h' : v < 256 ^ 1 = rw e at h in ground arith)
sext-lt w v (inr (inl e)) h = rw e (let h' : v < 256 ^ 2 = rw e at h in ground arith)
sext-lt w v (inr (inr e)) h = rw e (let h' : v < 256 ^ 4 = rw e at h in ground arith)
