-- ===== src/Ops/Content.antt =====
-- What `do_write_data` stores, `do_read` returns: the wrapped content key opens, and the blocks are those
-- of a plain file.
use pqfs.Common.{
  ℕ, ◌+◌, ◌≡◌, ◌≢◌, refl, Bytes, length, [], Option, none, some, ok, splice, arith, drop-nil,
  take-nil, ◌∷◌, ◌==◌, false,
}
use pqfs.Crypto.Primitives.{Primitives, IsSound}
use pqfs.Crypto.Keys.{Crypto, random_key}
use pqfs.Crypto.Aead.{encrypt, decrypt}
use pqfs.Crypto.Aead.RoundTrip.{seal_blob_total}
use pqfs.Blocks.Ops.{DataFile}
use pqfs.Blocks.Stored.{IsStoredIn}
use pqfs.Blocks.Reads.{plain_read, read_range-eq-plain_read}
use pqfs.Blocks.Writes.Range.{write_range_total}
use pqfs.Index.Entry.{Entry}
use pqfs.Ops.Data.{ℤ, from_offset, ensure_content_key, decrypt_content_key, do_read, do_write_data}

nonempty : (x : Bytes) → x ≢ [] → (length x == 0) ≡ false
nonempty [] h = absurd (h refl)
nonempty (b ∷ x) h = ground arith

module _ (p : Primitives) (sound : IsSound p) (crypto : Crypto) where
  -- A content key that opens has 32 bytes.
  length-decrypt_content_key :
      (blob key : Bytes) → decrypt_content_key p crypto blob ≡ ok key → length key ≡ 32
  unfolding decrypt_content_key
  length-decrypt_content_key blob key h = ground (arith, h)

  -- With a sound cipher and a key of 32 bytes, a file without a content key gets one:
  -- two draws give a wrapped key of 32 bytes that opens again.
  pub decrypt_content_key-ensure :
      (e : Entry) (draws : ℕ)
      → length crypto.cipher ≡ 32
      → e.content_key ≡ []
      → (blob : Bytes) × (ensure_content_key p crypto e draws ≡ (ok blob, draws + 1 + 1))
        × (decrypt_content_key p crypto blob ≡ ok (p.fill_bytes draws 32))
        × (length (p.fill_bytes draws 32) ≡ 32)
  unfolding ensure_content_key decrypt_content_key random_key encrypt decrypt
  decrypt_content_key-ensure e draws cipher none_yet =
      let key = p.fill_bytes draws 32 in
      let len : length key ≡ 32 = sound.length-fill_bytes draws 32 in
      let s =
        seal_blob_total p sound crypto.cipher [] key (draws + 1) cipher (omega (arith, len)) in
      (s.blob, rw none_yet (rw s.sealed), rw s.opens (rw len), len)

  stored_read :
      (e : Entry) (content key : Bytes) (contents : Option Bytes) (from len : ℕ)
      → decrypt_content_key p crypto e.content_key ≡ ok key
      → e.size ≡ length content
      → IsStoredIn p key content contents
      → do_read p crypto e contents (ℤ.pos from) len ≡ ok (plain_read content from len)
  unfolding do_read from_offset
  stored_read e content key none from len opens size stored = rw (stored, drop-nil, take-nil)
  stored_read e content key (some file) from len opens size stored =
      rw opens (rw size (rw (read_range-eq-plain_read p key content (some file) from len stored)))

  -- With a sound cipher, for a file whose content key is there and opens, and whose data file holds its
  -- content, of the entry's size, under that key: a write
  -- through the handler succeeds and keeps the wrapped key, and a read of the entry with the new size
  -- returns what the content with the input at the offset has there. A negative offset counts as 0.
  pub do_read-do_write_data :
      (e : Entry) (content key : Bytes) (s : DataFile) (offset : ℤ) (input : Bytes) (from len : ℕ)
      → e.content_key ≢ []
      → decrypt_content_key p crypto e.content_key ≡ ok key
      → e.size ≡ length content
      → IsStoredIn p key content s.contents
      → (after : DataFile) × (do_write_data p crypto e offset input s
          ≡ (ok (e.content_key, length (splice content (from_offset offset) input)), after))
        × (do_read p crypto
              (record e { size = length (splice content (from_offset offset) input) })
              after.contents
              (ℤ.pos from)
              len
            ≡ ok (plain_read (splice content (from_offset offset) input) from len))
  unfolding do_write_data ensure_content_key
  do_read-do_write_data e content key s offset input from len has_key opens size stored =
      let new = splice content (from_offset offset) input in
      let w =
        write_range_total p sound key (length-decrypt_content_key e.content_key key opens) content
          (from_offset offset) input s stored in
      let some_key : (length e.content_key == 0) ≡ false = nonempty e.content_key has_key in
      (
        w.after,
        rw some_key (rw opens (rw size (rw w.runs))),
        stored_read (record e { size = length new }) new key w.after.contents from len opens refl
            w.stored,
      )
