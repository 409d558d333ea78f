-- ===== src/Tests/RekeyRuns.antt =====
-- The index of a root directory with a file called `a`, under new keys.
use pqfs.Common.{ℕ, ◌≡◌, refl, Bytes, replicate, [], ◌∷◌, ◌++◌, none, some, ok}
use pqfs.Common.SortedMap
use pqfs.Backend.{Backend, index_file, exists, read_file, update}
use pqfs.Crypto.Keys.{Crypto}
use pqfs.Crypto.Aead.{encrypt, decrypt, open_blob, seal_blob}
use pqfs.Index.Children
use pqfs.Index.Entry.{Entry, EntryKind}
use pqfs.Index.State.{link, unlink_previous, insert_entry}
use pqfs.Index.Names.{encrypt_filename, decrypt_filename, hash_filename, is_utf8}
use pqfs.Index.Persist.{
  read_entries, rekey_content_key, rekey_name, rekey_link_target, rekey_entry, rekey_entries,
  rekey_index,
}
use pqfs.Commands.Reindexed.{Corresponds, rekey_index-Corresponds}
use pqfs.Tests.Toy.{toy, toy-IsSound, tag}
use pqfs.Tests.OpsRuns.{crypto}
use pqfs.Tests.NameRuns.{tree, tree_codec}

abbrev fresh : Crypto
fresh = record crypto { cipher = replicate 32 8; filename_hash_key = 1 ∷ [] }

abbrev stored : Bytes
stored = replicate 24 0 ++ ((2 ∷ []) ++ tag)

abbrev disk : Backend
disk = record { files = update (λ path. none) index_file (some stored); draws = 0; power = 9 }

there : disk.files index_file ≡ some stored
unfolding update
there = refl

opens : decrypt toy crypto.cipher stored ≡ ok (2 ∷ [])
unfolding decrypt open_blob
opens = refl

abbrev sealed : Bytes
sealed = replicate 24 1 ++ ((2 ∷ []) ++ tag)

ran : rekey_index toy tree_codec crypto fresh disk ≡ (ok sealed, record disk { draws = 2 })
unfolding rekey_index rekey_entries rekey_entry rekey_content_key rekey_name rekey_link_target
    read_entries read_file exists update encrypt decrypt open_blob seal_blob encrypt_filename
    decrypt_filename hash_filename is_utf8 insert_entry unlink_previous link SortedMap.get
    SortedMap.insert Children.lookup Children.insert
ran = refl

rekey_index-Corresponds_example :
    let entries = ((tree EntryKind.file).inner).entries in
    (entries' : SortedMap.SortedMap Entry) × (decrypt toy fresh.cipher sealed
      ≡ ok (tree_codec.serialize entries'))
    × ((i : ℕ)
        → Corresponds toy toy-IsSound tree_codec crypto fresh
            (SortedMap.get i entries)
            (SortedMap.get i entries'))
rekey_index-Corresponds_example =
    rekey_index-Corresponds toy toy-IsSound tree_codec crypto fresh disk (record disk { draws = 2 })
      stored (2 ∷ []) sealed ((tree EntryKind.file).inner).entries there opens refl ran
