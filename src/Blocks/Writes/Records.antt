-- ===== src/Blocks/Writes/Records.antt =====
-- One record written into a data file: it reads back, and the others read as before.
use pqfs.Common.{
  ℕ, ◌+◌, ◌-◌, ◌*◌, ◌/◌, ◌≤◌, ◌<◌, ◌≡◌, ◌^◌, refl, ap, min, Bytes, length, arith, ok, err, splice,
  resize, leb, Result, ◌⊎◌, inl, inr, if◌then◌else◌, Error, Option,
}
use pqfs.Common
use pqfs.Crypto.Primitives.{Primitives, IsSound}
use pqfs.Crypto.Aead.{decrypt_block}
use pqfs.Crypto.Aead.RoundTrip.{encrypt_block_total}
use pqfs.Blocks.Layout.{block_plaintext, block_count, plaintext_len, record_len, record_offset}
use pqfs.Blocks.Ops.{Handle, read_exact_at, read_block, write_block, file_end}
use pqfs.Blocks.Stored.{read_exact_at-splice_self, read_exact_at-splice_ne, read_exact_at-resize}

-- A record lies within the place of its index.
pub record_len_le : (size index : ℕ) → record_len size index ≤ 65576
unfolding record_len plaintext_len
record_len_le size index = ground arith

pub records_apart : (size i j : ℕ) → i < j → record_offset i + record_len size i ≤ record_offset j
unfolding record_offset
records_apart size i j h = omega (arith, record_len_le size i)

-- Records before the last one end before the file's end.
pub record_within :
    (size i : ℕ) → i < block_count size → record_offset i + record_len size i ≤ file_end size
record_within size i h = elim (Common.Bool-cases (Common.◌==◌ i (block_count size - 1))) [
  | inl last ↦ let e : i ≡ block_count size - 1 = ground arith in rw e (omega arith)
  | inr earlier ↦
      let lt : i < block_count size - 1 = ground arith in
      omega (arith, records_apart size i (block_count size - 1) lt)
]

module _ (p : Primitives) (key : Bytes) where
  -- A file whose record reads alike has the same block there.
  read_block_mono :
      (file file' : Bytes) (size index : ℕ) (plain : Bytes)
      → ((r : Bytes)
          → read_exact_at file (record_offset index) (record_len size index) ≡ ok r
          → read_exact_at file' (record_offset index) (record_len size index) ≡ ok r)
      → read_block p key file size index ≡ ok plain
      → read_block p key file' size index ≡ ok plain
  unfolding read_block
  read_block_mono file file' size index plain keep h =
      go (read_exact_at file (record_offset index) (record_len size index)) refl h
    where
      go :
          (r : Result Bytes)
          → read_exact_at file (record_offset index) (record_len size index) ≡ r
          → Common.◌>>=◌ r (λ buf. decrypt_block p key index buf) ≡ ok plain
          → Common.◌>>=◌
              (read_exact_at file' (record_offset index) (record_len size index))
              (λ buf. decrypt_block p key index buf)
            ≡ ok plain
      go (ok r) e opened = rw (keep r e) opened
      go (err why) e opened = absurd (ground arith)

  -- The size matters to a read only through the length of the block.
  pub read_block_by_len :
      (file : Bytes) (size size' index : ℕ)
      → plaintext_len size index ≡ plaintext_len size' index
      → read_block p key file size index ≡ read_block p key file size' index
  unfolding read_block record_len
  read_block_by_len file size size' index e =
      ap
        (λ n.
          Common.◌>>=◌ (read_exact_at file (record_offset index) (24 + n + 16))
            (λ buf. decrypt_block p key index buf))
        e

  pub read_block-splice_ne :
      (file : Bytes) (off : ℕ) (x : Bytes) (size index : ℕ) (plain : Bytes)
      → (record_offset index + record_len size index ≤ off) ⊎ (off + length x ≤ record_offset index)
      → read_block p key file size index ≡ ok plain
      → read_block p key (splice file off x) size index ≡ ok plain
  read_block-splice_ne file off x size index plain apart =
      read_block_mono file (splice file off x) size index plain (λ r e.
        read_exact_at-splice_ne file off x (record_offset index) (record_len size index) r apart e)

  pub read_block-resize :
      (file : Bytes) (n size index : ℕ) (plain : Bytes)
      → record_offset index + record_len size index ≤ n
      → read_block p key file size index ≡ ok plain
      → read_block p key (resize file n) size index ≡ ok plain
  read_block-resize file n size index plain fits =
      read_block_mono file (resize file n) size index plain
        (λ r e. read_exact_at-resize file n (record_offset index) (record_len size index) r fits e)

  module _ (sound : IsSound p) (key_ok : length key ≡ 32) where
    -- What `write_block` leaves: the block reads back, under any size that gives it this length.
    pub record Rewritten (h : Handle) (index : ℕ) (plain : Bytes) : Type 0 where
      pub blob : Bytes
      pub runs : write_block p key index plain h ≡ (
        ok tt,
        record { bytes = splice h.bytes (record_offset index) blob; draws = h.draws + 1 },
      )
      pub width : length blob ≡ length plain + 40
      pub reads :
          (size : ℕ)
          → plaintext_len size index ≡ length plain
          → read_block p key (splice h.bytes (record_offset index) blob) size index ≡ ok plain

    pub write_block_total :
        (h : Handle) (index : ℕ) (plain : Bytes)
        → length plain ≤ block_plaintext
        → Rewritten h index plain
    unfolding write_block read_block record_len
    write_block_total h index plain fits =
        let s = encrypt_block_total p sound key index plain h.draws key_ok (omega arith) in
        record {
          blob = s.blob;
          runs = rw s.sealed;
          width = s.size;
          reads = λ size e.
              rw
                (read_exact_at-splice_self h.bytes (record_offset index) s.blob
                  (24 + plaintext_len size index + 16) (omega (arith, s.size)))
                s.opens;
        }
