-- ===== src/Gt06/Crc/Laws.antt =====
-- The checksum by its table is the checksum bit by bit, and tells single changed bytes apart.
use native.Mathlib.Nat.{pow-succ', mul_assoc, zero-add, le_refl}
use gps_device_virtual_farm.Prelude.{
  ℕ, zero, suc, ◌+◌, ◌-◌, ◌*◌, ◌/◌, ◌%◌, ◌^◌, ◌≤◌, ◌<◌, bit_xor, ◌≡◌, ◌≢◌, refl, sym, ap, ◌∙◌, List,
  [], ◌∷◌, ◌++◌, arith, length, get_or, take, drop, take-drop_cons, All-get_or, All-append,
  All-take, All-drop, take-length, get_or-append,
}
use gps_device_virtual_farm.Gt06.Buffer.{IsByte, AreBytes, subarray}
use gps_device_virtual_farm.Prelude.Bits.{
  bit_xor_comm, bit_xor_assoc, bit_xor_half, bit_xor_parity, bit_xor-lt, bit_xor_high,
  bit_xor_injective, bit_xor_div_pow, bit_xor_disjoint, bit_xor-zero,
}
use gps_device_virtual_farm.Gt06.Crc.{
  crc_round, crc_rounds, crc_entries, crc_table, crc_step, crc_loop, crc16itu,
}

-- A round is linear: what stands above the lowest digit moves down by one.
crc_round_xor : (x y : ℕ) → crc_round (bit_xor x (2 * y)) ≡ bit_xor (crc_round x) y
unfolding crc_round
crc_round_xor x y =
    let half : bit_xor x (2 * y) / 2 ≡ bit_xor (x / 2) y =
      bit_xor_half x (2 * y) ∙ ap (bit_xor (x / 2)) (omega arith) in
    let swap : bit_xor (bit_xor (x / 2) y) 0x8408 ≡ bit_xor (bit_xor (x / 2) 0x8408) y =
      bit_xor_assoc (x / 2) y 0x8408
      ∙ ap (bit_xor (x / 2)) (bit_xor_comm y 0x8408)
      ∙ sym (bit_xor_assoc (x / 2) 0x8408 y) in
    rw half (ground (arith, swap, bit_xor_parity x (2 * y)))

crc_rounds_xor : (n x y : ℕ) → crc_rounds n (bit_xor x (2 ^ n * y)) ≡ bit_xor (crc_rounds n x) y
unfolding crc_rounds
crc_rounds_xor zero x y = ap (bit_xor x) (omega arith)
crc_rounds_xor (suc n) x y =
    let two : 2 ^ suc n * y ≡ 2 * (2 ^ n * y) =
      ap (λ t. t * y) (pow-succ' 2 n) ∙ mul_assoc 2 (2 ^ n) y in
    rw (two, crc_round_xor x (2 ^ n * y)) (crc_rounds_xor n (crc_round x) y)

get_or-crc_entries : (n i j : ℕ) → j < n → get_or (crc_entries n i) j 0 ≡ crc_rounds 8 (i + j)
unfolding crc_entries
get_or-crc_entries zero i j h = absurd (omega arith)
get_or-crc_entries (suc n) i zero h = ap (crc_rounds 8) (omega arith)
get_or-crc_entries (suc n) i (suc j) h =
    get_or-crc_entries n (suc i) j (omega arith) ∙ ap (crc_rounds 8) (omega arith)

-- One step by the table is eight rounds.
crc_step_lem : (crc byte : ℕ) → byte < 256 → crc_step crc byte ≡ crc_rounds 8 (bit_xor crc byte)
unfolding crc_step crc_table
crc_step_lem crc byte h =
    let x = bit_xor crc byte in
    let high : x / 256 ≡ crc / 256 =
      bit_xor_div_pow 8 crc byte
      ∙ ap (bit_xor (crc / 256)) (omega arith)
      ∙ bit_xor-zero (crc / 256) in
    let split : x ≡ bit_xor (x % 256) (256 * (crc / 256)) =
      omega (arith, high, bit_xor_disjoint 8 (x % 256) (crc / 256) (omega arith)) in
    rw (get_or-crc_entries 256 0 (x % 256) (omega arith), zero-add)
      (bit_xor_comm (crc / 256) (crc_rounds 8 (x % 256))
        ∙ sym (crc_rounds_xor 8 (x % 256) (crc / 256))
        ∙ ap (crc_rounds 8) (sym split))

-- The checksum register after the bytes, with no table: eight rounds for each byte.
pub crc_bits : ℕ → List ℕ → ℕ
crc_bits crc [] = crc
crc_bits crc (b ∷ bs) = crc_bits (crc_rounds 8 (bit_xor crc b)) bs

crc_loop-crc_bits :
    (n i : ℕ) (buffer : List ℕ) (crc : ℕ)
    → AreBytes buffer
    → i + n ≤ length buffer
    → crc_loop n i buffer crc ≡ crc_bits crc (take n (drop i buffer))
unfolding crc_loop crc_bits
crc_loop-crc_bits zero i buffer crc bytes h = refl
crc_loop-crc_bits (suc n) i buffer crc bytes h =
    rw
      (
        take-drop_cons n i buffer 0 (omega arith),
        crc_step_lem crc (get_or buffer i 0) (All-get_or IsByte buffer i 0 bytes (omega arith)),
      )
      (crc_loop-crc_bits n (suc i) buffer _ bytes (omega arith))

-- The checksum by the table, over any range of a buffer, is the one computed bit by bit from the
-- bytes of that range.
pub crc16itu-bitwise :
    (buffer : List ℕ) (start end : ℕ)
    → AreBytes buffer
    → start ≤ end
    → end ≤ length buffer
    → crc16itu buffer start end ≡ bit_xor (crc_bits 0xffff (subarray buffer start end)) 0xffff
unfolding crc16itu
crc16itu-bitwise buffer start end bytes h k =
    rw (crc_loop-crc_bits (end - start) start buffer 0xffff bytes (omega arith))

crc_round-lt : (x : ℕ) → x < 2 ^ 16 → crc_round x < 2 ^ 16
unfolding crc_round
crc_round-lt x h = ground (arith, bit_xor-lt 16 (x / 2) 0x8408 (omega arith) (omega arith))

crc_rounds-lt : (n x : ℕ) → x < 2 ^ 16 → crc_rounds n x < 2 ^ 16
unfolding crc_rounds
crc_rounds-lt zero x h = h
crc_rounds-lt (suc n) x h = crc_rounds-lt n (crc_round x) (crc_round-lt x h)

crc_bits-lt : (crc : ℕ) (bs : List ℕ) → crc < 2 ^ 16 → AreBytes bs → crc_bits crc bs < 2 ^ 16
unfolding crc_bits
crc_bits-lt crc [] h a = h
crc_bits-lt crc (b ∷ bs) h a =
    crc_bits-lt (crc_rounds 8 (bit_xor crc b)) bs
      (crc_rounds-lt 8 _ (bit_xor-lt 16 crc b h (omega arith))) a.1

-- A round loses nothing: the highest digit of its result tells which branch it took.
crc_round-injective : (x y : ℕ) → x < 2 ^ 16 → y < 2 ^ 16 → crc_round x ≡ crc_round y → x ≡ y
unfolding crc_round
crc_round-injective x y p q e = ground (
  arith,
  bit_xor_high 15 (x / 2) 0x0408 (omega arith) (omega arith),
  bit_xor_high 15 (y / 2) 0x0408 (omega arith) (omega arith),
  bit_xor_injective (x / 2) (y / 2) 0x8408,
)

crc_rounds-injective :
    (n x y : ℕ) → x < 2 ^ 16 → y < 2 ^ 16 → crc_rounds n x ≡ crc_rounds n y → x ≡ y
unfolding crc_rounds
crc_rounds-injective zero x y p q e = e
crc_rounds-injective (suc n) x y p q e =
    crc_round-injective x y p q
      (crc_rounds-injective n (crc_round x) (crc_round y) (crc_round-lt x p) (crc_round-lt y q) e)

crc_bits-injective :
    (x y : ℕ) (bs : List ℕ)
    → x < 2 ^ 16
    → y < 2 ^ 16
    → AreBytes bs
    → crc_bits x bs ≡ crc_bits y bs
    → x ≡ y
unfolding crc_bits
crc_bits-injective x y [] p q a e = e
crc_bits-injective x y (b ∷ bs) p q a e =
    let px = bit_xor-lt 16 x b p (omega arith) in
    let py = bit_xor-lt 16 y b q (omega arith) in
    bit_xor_injective x y b (
      crc_rounds-injective 8 _ _ px py (
        crc_bits-injective (crc_rounds 8 (bit_xor x b)) (crc_rounds 8 (bit_xor y b)) bs
          (crc_rounds-lt 8 _ px) (crc_rounds-lt 8 _ py) a.1 e))

crc_bits-append :
    (crc : ℕ) (bs cs : List ℕ) → crc_bits crc (bs ++ cs) ≡ crc_bits (crc_bits crc bs) cs
unfolding crc_bits
crc_bits-append crc [] cs = refl
crc_bits-append crc (b ∷ bs) cs = crc_bits-append (crc_rounds 8 (bit_xor crc b)) bs cs

crc_bits-corrupted :
    (before after : List ℕ) (a b : ℕ)
    → AreBytes before
    → AreBytes after
    → a < 256
    → b < 256
    → crc_bits 0xffff (before ++ a ∷ after) ≡ crc_bits 0xffff (before ++ b ∷ after)
    → a ≡ b
unfolding crc_bits
crc_bits-corrupted before after a b p q ha hb e =
    let c = crc_bits 0xffff before in
    let hc = crc_bits-lt 0xffff before (omega arith) p in
    let pa = bit_xor-lt 16 c a hc (omega arith) in
    let pb = bit_xor-lt 16 c b hc (omega arith) in
    let e' =
      sym (crc_bits-append 0xffff before (a ∷ after))
      ∙ e
      ∙ crc_bits-append 0xffff before (b ∷ after) in
    bit_xor_injective a b c (
      bit_xor_comm a c
      ∙ crc_rounds-injective 8 _ _ pa pb
          (crc_bits-injective _ _ after (crc_rounds-lt 8 _ pa) (crc_rounds-lt 8 _ pb) q e')
      ∙ bit_xor_comm c b)

subarray-all : (xs : List ℕ) → subarray xs 0 (length xs) ≡ xs
subarray-all xs = ap (λ n. take n xs) (omega arith) ∙ take-length xs

-- Changing one byte of a buffer, whichever one, changes its checksum.
pub crc16itu-corrupted :
    (before after : List ℕ) (a b : ℕ)
    → AreBytes before
    → AreBytes after
    → a < 256
    → b < 256
    → a ≢ b
    → crc16itu (before ++ a ∷ after) 0 (length (before ++ a ∷ after))
      ≢ crc16itu (before ++ b ∷ after) 0 (length (before ++ b ∷ after))
crc16itu-corrupted before after a b p q ha hb ne e = ne (
    crc_bits-corrupted before after a b p q ha hb
      (bit_xor_injective _ _ 0xffff (sym (whole a ha) ∙ e ∙ whole b hb)))
  where
    whole :
        (c : ℕ)
        → c < 256
        → crc16itu (before ++ c ∷ after) 0 (length (before ++ c ∷ after))
          ≡ bit_xor (crc_bits 0xffff (before ++ c ∷ after)) 0xffff
    whole c h =
        let all = before ++ c ∷ after in
        crc16itu-bitwise all 0 (length all) (All-append IsByte before (c ∷ after) p (h, q))
          (omega arith) (le_refl _)
        ∙ ap (λ bs. bit_xor (crc_bits 0xffff bs) 0xffff) (subarray-all all)

-- A checksum of bytes fits two bytes.
pub crc16itu-lt :
    (buffer : List ℕ) (start end : ℕ)
    → AreBytes buffer
    → start ≤ end
    → end ≤ length buffer
    → crc16itu buffer start end < 2 ^ 16
crc16itu-lt buffer start end bytes h k = rw (crc16itu-bitwise buffer start end bytes h k) (
    bit_xor-lt 16 _ _
      (crc_bits-lt 0xffff _ (omega arith)
        (All-take IsByte (end - start) _ (All-drop IsByte start buffer bytes)))
      (omega arith))

crc_loop-append :
    (n i : ℕ) (b c : List ℕ) (crc : ℕ)
    → i + n ≤ length b
    → crc_loop n i (b ++ c) crc ≡ crc_loop n i b crc
unfolding crc_loop
crc_loop-append zero i b c crc h = refl
crc_loop-append (suc n) i b c crc h =
    rw (get_or-append b c i 0 (omega arith)) (crc_loop-append n (suc i) b c _ (omega arith))

-- What follows the range is not read.
pub crc16itu-append :
    (b c : List ℕ) (start end : ℕ)
    → start ≤ end
    → end ≤ length b
    → crc16itu (b ++ c) start end ≡ crc16itu b start end
unfolding crc16itu
crc16itu-append b c start end h k =
    rw (crc_loop-append (end - start) start b c 0xffff (omega arith))
