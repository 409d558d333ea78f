-- ===== src/Ops/Data.antt =====
-- The contents of files: `do_read`, `do_write_data` and `do_truncate` of src/fs/ops.rs. The state is the
-- data file by the path that the caller took from the index.
use pqfs.Common.{
  ℕ, ◌+◌, Bytes, length, Option, none, some, Result, ok, err, bail_if, or_fail, not, ◌==◌,
  if◌then◌else◌, eio, wrong_key_length,
}
use pqfs.Common
use pqfs.Common.Exec.{Exec, ◌>>=◌, ◌>>◌, pure, lift}
use pqfs.Crypto.Primitives.{Primitives}
use pqfs.Crypto.Keys.{Crypto, random_key}
use pqfs.Crypto.Aead.{encrypt, decrypt}
use pqfs.Blocks.Ops.{DataFile, read_range, write_range, truncate}
use pqfs.Index.Entry.{Entry}

-- The `i64` of an offset.
pub data ℤ : Type 0 where
  pos : ℕ → ℤ
  negsuc : ℕ → ℤ

-- `u64::try_from(offset).unwrap_or(0)`
unfoldable pub from_offset : ℤ → ℕ
from_offset (pos n) = n
from_offset (negsuc n) = 0

-- Every error of the layer below is logged and becomes EIO.
abbrev pub as_eio : {S A : Type 0} → Exec S A → Exec S A
as_eio m s = let (r, s') = m s in (or_fail eio r, s')

module _ (p : Primitives) (crypto : Crypto) where
  unfoldable pub ensure_content_key : Entry → Exec ℕ Bytes
  ensure_content_key e =
      if not (length e.content_key == 0)
      then pure e.content_key
      else as_eio (do key ← random_key p; encrypt p crypto.cipher key)

  unfoldable pub decrypt_content_key : Bytes → Result Bytes
  decrypt_content_key content_key_enc = or_fail eio (
      Common.◌>>=◌ (decrypt p crypto.cipher content_key_enc)
        λ key. Common.◌>>◌ (bail_if (not (length key == 32)) wrong_key_length) (ok key))

  abbrev pub on_draws : {A : Type 0} → Exec ℕ A → Exec DataFile A
  on_draws m s = let (r, n) = m s.draws in (r, record s { draws = n })

  unfoldable pub do_read : Entry → Option Bytes → ℤ → ℕ → Result Bytes
  do_read e none offset size = ok Common.[]
  do_read e (some file) offset size =
      Common.◌>>=◌ (decrypt_content_key e.content_key)
        λ key. or_fail eio (read_range p key (some file) e.size (from_offset offset) size)

  -- The wrapped key of the file, and its new size.
  unfoldable pub do_write_data : Entry → ℤ → Bytes → Exec DataFile (Bytes × ℕ)
  do_write_data e offset input = do
    content_key_enc ← on_draws (ensure_content_key e)
    key ← lift (decrypt_content_key content_key_enc)
    size ← as_eio (write_range p key e.size (from_offset offset) input)
    pure (content_key_enc, size)

  unfoldable pub do_truncate : Entry → ℕ → Exec DataFile (Bytes × ℕ)
  do_truncate e size = do
    content_key_enc ← on_draws (ensure_content_key e)
    key ← lift (decrypt_content_key content_key_enc)
    as_eio (truncate p key e.size size)
    pure (content_key_enc, size)
