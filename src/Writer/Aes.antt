-- ===== src/Writer/Aes.antt =====
-- writer.go (aesWriter): the bytes written are encrypted in blocks of 16, and Close pads the last one.
-- The block cipher in CBC mode is a parameter: the block and the mode after it. The writer below takes
-- all that it is given.
pub mod Splits
use sevenzip.Prelude.{
  ℕ, zero, suc, ◌+◌, ◌-◌, Bool, true, false, List, [], ◌∷◌, ◌++◌, length, take, drop, replicate,
  leb, ltb, if◌then◌else◌,
}
use sevenzip.Stream.{Bytes}

pub record AesWriter {ℓ} (Mode : Type ℓ) : Type ℓ where
  pub sink : Bytes
  pub cbc : Mode
  pub buf : Bytes
  pub count : ℕ

module _ {ℓ} {Mode : Type ℓ} (crypt : Mode → Bytes → Bytes × Mode) where
  -- A block encrypted and written, and what is left in the buffer.
  unfoldable pub aes_block : AesWriter Mode → (block rest : Bytes) → AesWriter Mode
  aes_block aw block rest =
      let (encrypted, cbc) = crypt aw.cbc block in
      record { sink = aw.sink ++ encrypted; cbc = cbc; buf = rest; count = aw.count + 16 }

  -- The loop of Write. A round takes 16 bytes of the buffer.
  unfoldable pub aes_blocks : (rounds : ℕ) → AesWriter Mode → AesWriter Mode
  aes_blocks zero aw = aw
  aes_blocks (suc rounds) aw =
      let more = aes_blocks rounds (aes_block aw (take 16 aw.buf) (drop 16 aw.buf)) in
      if leb 16 (length aw.buf) then more else aw

  unfoldable pub aes_write : AesWriter Mode → Bytes → AesWriter Mode
  aes_write aw p = let aw' = record aw { buf = aw.buf ++ p } in aes_blocks (length aw'.buf) aw'

  -- The buffer is not emptied: folderWriter calls Close once.
  unfoldable pub aes_close : AesWriter Mode → AesWriter Mode
  aes_close aw =
      let block = aw.buf ++ replicate (16 - length aw.buf) 0 in
      if ltb 0 (length aw.buf) then aes_block aw block block else aw

  unfoldable pub new_aes_writer : Mode → AesWriter Mode
  new_aes_writer cbc = record { sink = []; cbc = cbc; buf = []; count = 0 }
