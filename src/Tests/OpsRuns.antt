-- ===== src/Tests/OpsRuns.antt =====
-- The handlers at concrete inputs: a file in the root directory, and an empty directory.
use pqfs.Common.{◌≡◌, refl, length, replicate, [], ◌∷◌, ◌++◌, none, some, ok, splice, arith}
use pqfs.Common.SortedMap
use pqfs.Crypto.Keys.{Crypto, same_bytes}
use pqfs.Crypto.Aead.{decrypt, open_blob}
use pqfs.Blocks.Ops.{DataFile}
use pqfs.Blocks.Reads.{plain_read}
use pqfs.Index.Children
use pqfs.Index.Children.{same_name}
use pqfs.Index.Entry.{Entry, EntryKind}
use pqfs.Index.State.{link, unlink_previous, insert_entry}
use pqfs.Index.Names.{find_child, decrypt_filename, is_utf8}
use pqfs.Index.Persist.{IndexCodec, Mount}
use pqfs.Index.Tables
use pqfs.Index.Invariant.{IsLinked}
use pqfs.Index.Updates.{insert_entry-IsLinked}
use pqfs.Ops.Data.{ℤ, from_offset, decrypt_content_key, do_read, do_write_data}
use pqfs.Ops.Content.{do_read-do_write_data}
use pqfs.Tests.Toy.{toy, toy-IsSound, tag}
use pqfs.Tests.IndexRuns.{nothing, nothing-IsLinked, file}

abbrev pub crypto : Crypto
crypto = record {
  cipher = replicate 32 1;
  header = record { version = 3; volume_id = []; slots = []; mac = [] };
  filename_cipher = replicate 32 2;
  filename_hash_key = [];
}

-- An empty file whose content key is 32 times 4.
abbrev keyed : Entry
keyed = record (file 2 (97 ∷ [])) { content_key = replicate 24 0 ++ (replicate 32 4 ++ tag) }

opens : decrypt_content_key toy crypto keyed.content_key ≡ ok (replicate 32 4)
unfolding decrypt_content_key decrypt open_blob
opens = refl

do_read-do_write_data_example :
    (after : DataFile) × (do_write_data toy crypto keyed
        (ℤ.pos 2)
        (7 ∷ 8 ∷ [])
        (record { contents = none; draws = 0 })
      ≡ (ok (keyed.content_key, length (splice [] 2 (7 ∷ 8 ∷ []))), after))
    × (do_read toy crypto
          (record keyed { size = length (splice [] 2 (7 ∷ 8 ∷ [])) })
          after.contents
          (ℤ.pos 1)
          9
        ≡ ok (plain_read (splice [] 2 (7 ∷ 8 ∷ [])) 1 9))
unfolding from_offset
do_read-do_write_data_example =
    do_read-do_write_data toy toy-IsSound crypto keyed [] (replicate 32 4)
      (record { contents = none; draws = 0 }) (ℤ.pos 2) (7 ∷ 8 ∷ []) 1 9
      (λ h. absurd (ground arith)) opens refl refl

abbrev pub index_codec : IndexCodec
index_codec = record { serialize = λ entries. length entries ∷ []; deserialize = λ b. some [] }

-- A file or a directory called `a`, in the root directory.
abbrev pub entry : EntryKind → Entry
entry k = record (file 2 (97 ∷ [])) { kind = k; name_encrypted = replicate 24 0 ++ (97 ∷ tag) }

abbrev mount : EntryKind → Mount
mount k = record {
  inner = insert_entry (entry k) nothing;
  backend = record { files = λ path. none; draws = 0; power = 9 };
}

mount-IsLinked : (k : EntryKind) → IsLinked (mount k).inner
unfolding Tables.child Children.lookup
mount-IsLinked k =
    (insert_entry-IsLinked nothing (entry k) nothing-IsLinked (λ h. absurd (omega arith))
      (λ i c. absurd (ground arith))).0

found : (k : EntryKind) → find_child toy crypto 1 (97 ∷ []) (mount k).inner ≡ some (entry k)
unfolding find_child decrypt_filename is_utf8 insert_entry unlink_previous link Children.lookup
    Children.insert Children.remove same_name same_bytes SortedMap.get SortedMap.insert
found k = refl
