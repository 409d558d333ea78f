-- ===== src/Index/Names.antt =====
-- src/crypto/filename.rs, and `find_child` and `attr_for` of src/fs/inner.rs. A name is its bytes, past
-- `to_string_lossy`.
use pqfs.Common.{
  ℕ, zero, suc, ◌+◌, ◌-◌, ◌/◌, Bytes, length, take, drop, List, [], ◌∷◌, Bool, true, false, ◌&&◌,
  Option, none, some, Result, ok, err, ok_or, ltb, leb, ◌==◌, if◌then◌else◌, ciphertext_too_short,
  decryption_failed, not_utf8,
}
use pqfs.Common
use pqfs.Common.SortedMap
use pqfs.Common.Exec.{Exec}
use pqfs.Crypto.Primitives.{Primitives}
use pqfs.Crypto.Header.{nonce_len}
use pqfs.Crypto.Keys.{Crypto, same_bytes}
use pqfs.Crypto.Aead.{seal_blob}
use pqfs.Index.Children
use pqfs.Index.Entry.{Entry, EntryKind, Timestamps}
use pqfs.Index.State.{Inner}

-- What `String::from_utf8` still expects: the count of continuation bytes, and the range of the next.
abbrev Expected : Type 0
Expected = ℕ × ℕ × ℕ

utf8_first : ℕ → Option Expected
utf8_first b =
    if ltb b 128
    then some (0, 0, 0)
    else if ltb b 194
    then none
    else if ltb b 224
    then some (1, 128, 191)
    else if b == 224
    then some (2, 160, 191)
    else if b == 237
    then some (2, 128, 159)
    else if ltb b 240
    then some (2, 128, 191)
    else if b == 240
    then some (3, 144, 191)
    else if ltb b 244
    then some (3, 128, 191)
    else if b == 244
    then some (3, 128, 143)
    else none

utf8_next : ℕ → Expected → Option Expected
unfolding utf8_first
utf8_next b (n, low, high) =
    if n == 0
    then utf8_first b
    else if leb low b && leb b high
    then some (n - 1, 128, 191)
    else none

utf8_from : Option Expected → Bytes → Bool
unfolding utf8_next
utf8_from none bytes = false
utf8_from (some (n, low, high)) [] = n == 0
utf8_from (some expected) (b ∷ bytes) = utf8_from (utf8_next b expected) bytes

unfoldable pub is_utf8 : Bytes → Bool
unfolding utf8_from
is_utf8 bytes = utf8_from (some (0, 0, 0)) bytes

-- `FileAttr`, but for the fields that are constant
pub record FileAttr : Type 0 where
  pub ino : ℕ
  pub size : ℕ
  pub blocks : ℕ
  pub times : Timestamps
  pub kind : EntryKind
  pub perm : ℕ
  pub uid : ℕ
  pub gid : ℕ

abbrev pub block_size : ℕ
block_size = 512

unfoldable pub attr_for : Entry → FileAttr
attr_for e = record {
  ino = e.ino;
  size = e.size;
  blocks = (e.size + (block_size - 1)) / block_size;
  times = e.times;
  kind = e.kind;
  perm = e.perm;
  uid = e.uid;
  gid = e.gid;
}

module _ (p : Primitives) where
  unfoldable pub hash_filename : Crypto → Bytes → Bytes
  hash_filename crypto name = p.hmac crypto.filename_hash_key name

  unfoldable pub encrypt_filename : Crypto → Bytes → Exec ℕ Bytes
  encrypt_filename crypto name = seal_blob p crypto.filename_cipher [] name

  unfoldable pub decrypt_filename : Crypto → Bytes → Result Bytes
  decrypt_filename crypto blob =
      if ltb (length blob) (nonce_len + 16)
      then err ciphertext_too_short
      else Common.◌>>=◌
          (ok_or (p.unseal crypto.filename_cipher (take nonce_len blob) [] (drop nonce_len blob))
            decryption_failed)
          λ plaintext. if is_utf8 plaintext then ok plaintext else err not_utf8

  -- The entry, if its name decrypts to the one that was looked up.
  unfoldable pub with_name : Crypto → Bytes → Entry → Option Entry
  with_name crypto name e = elim (decrypt_filename crypto e.name_encrypted) [
    | err x ↦ none
    | ok decrypted ↦ if same_bytes decrypted name then some e else none
  ]

  unfoldable pub find_child : Crypto → ℕ → Bytes → Inner → Option Entry
  unfolding hash_filename with_name
  find_child crypto parent name s =
      elim (Children.lookup parent (hash_filename crypto name) s.children) [
        | none ↦ none
        | some ino ↦ elim (SortedMap.get ino s.entries) [
          | none ↦ none
          | some e ↦ with_name crypto name e
        ]
      ]
