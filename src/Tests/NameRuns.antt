-- ===== src/Tests/NameRuns.antt =====
-- The handlers of the name space at concrete inputs: the root directory with a file called `a`.
use pqfs.Common.{
  ℕ, ◌≤◌, ◌^◌, length, length-replicate, ◌≡◌, refl, Bytes, [], ◌∷◌, none, some, ok, arith, true,
  false,
}
use pqfs.Common.SortedMap
use pqfs.Common.After.{After}
use pqfs.Crypto.Keys.{same_bytes}
use pqfs.Index.Children
use pqfs.Index.Children.{same_name}
use pqfs.Index.Entry.{EntryKind}
use pqfs.Index.State.{Inner, siblings, link, unlink_previous, insert_entry}
use pqfs.Index.Names.{find_child, hash_filename, decrypt_filename, is_utf8}
use pqfs.Index.Persist.{save_index, IndexCodec, Mount}
use pqfs.Crypto.Volume.Crash.{restart}
use pqfs.Index.Crash.{IsAtomic, save_index-IsAtomic}
use pqfs.Index.Tables.{child, member}
use pqfs.Index.WellFormed.{IsIndex, IsApart, insert_entry-IsIndex}
use pqfs.Ops.Tree.{is_dir, Caller, create, mkdir, unlink, rmdir, rename}
use pqfs.Ops.Attrs.{SetAttr, TimeOrNow, apply_setattr}
use pqfs.Ops.Creation.{IsCreated, create-IsAdded, mkdir-IsAdded}
use pqfs.Ops.Success.{unlink_total}
use pqfs.Ops.Unlinking.{IsDropped, IsUnlinked, unlink-IsDropped}
use pqfs.Ops.Renaming.{IsMoved, rename-IsRenamed}
use pqfs.Ops.Applied.{IsChanged, apply_setattr-IsChanged}
use pqfs.Ops.Emptied.{IsAnswered, rmdir-IsAnswered}
use pqfs.Tests.Toy.{toy, toy-IsSound}
use pqfs.Tests.IndexRuns.{file}
use pqfs.Tests.OpsRuns.{crypto, index_codec, entry}

abbrev pub rooted : Inner
rooted = record {
  entries = (1, record (file 1 []) { kind = EntryKind.dir }) ∷ [];
  next_ino = 3;
  children = [];
  by_parent = [];
  dirty = false;
}

pub rooted-IsIndex : IsIndex toy crypto rooted
unfolding SortedMap.get child Children.lookup member siblings
rooted-IsIndex = record {
  linked = record {
    keyed = λ i e h. ground arith;
    named = λ i e h r. absurd (ground arith);
    listed = λ i e h r. absurd (ground arith);
    names = λ q h i c. absurd (ground arith);
    members = λ q i m. absurd (ground arith);
  };
  sorted = tt;
  below = λ i e h. ground arith;
  root_below = omega arith;
  readable = λ i e h r. absurd (ground arith);
}

abbrev pub tree : EntryKind → Mount
tree k = record {
  inner = insert_entry (entry k) rooted;
  backend = record { files = λ path. none; draws = 0; power = 9 };
}

pub tree-IsIndex : (k : EntryKind) → IsIndex toy crypto (tree k).inner
unfolding SortedMap.get child Children.lookup decrypt_filename is_utf8 hash_filename
tree-IsIndex k =
    insert_entry-IsIndex toy crypto rooted (entry k) rooted-IsIndex (λ h. absurd (omega arith))
      (omega arith) (97 ∷ [], refl, refl) refl refl

pub apart : (s : Inner) (name : Bytes) → IsApart toy crypto s name
unfolding hash_filename
apart s name i e other g d h = h

abbrev pub caller : Caller
caller = record { clock = 5; uid = 0; gid = 0 }

pub valid : (b : Bytes) → b ≡ 98 ∷ [] → is_utf8 b ≡ true
unfolding is_utf8
valid b h = rw h refl

create-IsAdded_example :
    IsCreated toy toy-IsSound index_codec crypto
      (tree EntryKind.file)
      1
      (98 ∷ [])
      (create toy index_codec crypto caller 1 (98 ∷ []) 420 (tree EntryKind.file))
create-IsAdded_example =
    create-IsAdded toy toy-IsSound index_codec crypto caller 1 (98 ∷ []) (tree EntryKind.file)
      (tree-IsIndex EntryKind.file) (apart (tree EntryKind.file).inner (98 ∷ []))
      (valid (98 ∷ []) refl) 420

mkdir-IsAdded_example :
    IsCreated toy toy-IsSound index_codec crypto
      (tree EntryKind.file)
      1
      (98 ∷ [])
      (mkdir toy index_codec crypto caller 1 (98 ∷ []) 420 (tree EntryKind.file))
mkdir-IsAdded_example =
    mkdir-IsAdded toy toy-IsSound index_codec crypto caller 1 (98 ∷ []) (tree EntryKind.file)
      (tree-IsIndex EntryKind.file) (apart (tree EntryKind.file).inner (98 ∷ []))
      (valid (98 ∷ []) refl) 420

unlink-IsDropped_example :
    IsUnlinked toy index_codec crypto 1
      (97 ∷ [])
      (tree EntryKind.file)
      (tree-IsIndex EntryKind.file)
      (apart (tree EntryKind.file).inner (97 ∷ []))
      (unlink toy index_codec crypto 1 (97 ∷ []) (tree EntryKind.file))
unlink-IsDropped_example =
    unlink-IsDropped toy index_codec crypto 1 (97 ∷ []) (tree EntryKind.file)
      (tree-IsIndex EntryKind.file) (apart (tree EntryKind.file).inner (97 ∷ []))

pub there : (k : EntryKind) → find_child toy crypto 1 (97 ∷ []) (tree k).inner ≡ some (entry k)
unfolding find_child decrypt_filename is_utf8 insert_entry unlink_previous link Children.lookup
    Children.insert Children.remove same_name same_bytes SortedMap.get SortedMap.insert
there k = refl

rmdir-IsAnswered_example :
    IsAnswered toy crypto 1
      (97 ∷ [])
      (tree EntryKind.dir)
      (entry EntryKind.dir)
      (rmdir toy index_codec crypto 1 (97 ∷ []) (tree EntryKind.dir))
rmdir-IsAnswered_example =
    rmdir-IsAnswered toy toy-IsSound index_codec crypto 1 (97 ∷ []) (tree EntryKind.dir) 6
      (entry EntryKind.dir) (tree-IsIndex EntryKind.dir)
      (apart (tree EntryKind.dir).inner (97 ∷ [])) (there EntryKind.dir)
      (length-replicate {A = ℕ} 32 1) (omega arith) (omega arith)

rename-IsRenamed_example :
    IsMoved toy index_codec crypto
      (tree EntryKind.file)
      (tree-IsIndex EntryKind.file)
      1
      (97 ∷ [])
      (apart (tree EntryKind.file).inner (97 ∷ []))
      (entry EntryKind.file)
      (there EntryKind.file)
      1
      (98 ∷ [])
      (apart (tree EntryKind.file).inner (98 ∷ []))
      toy-IsSound
      7
      (valid (98 ∷ []) refl)
      (rename toy index_codec crypto 7 1 (97 ∷ []) 1 (98 ∷ []) (tree EntryKind.file))
rename-IsRenamed_example =
    rename-IsRenamed toy index_codec crypto (tree EntryKind.file) (tree-IsIndex EntryKind.file) 1
      (97 ∷ []) (apart (tree EntryKind.file).inner (97 ∷ [])) (entry EntryKind.file)
      (there EntryKind.file) 1 (98 ∷ []) (apart (tree EntryKind.file).inner (98 ∷ [])) toy-IsSound 7
      (valid (98 ∷ []) refl)

abbrev chmod : SetAttr
chmod = record {
  mode = some 448;
  uid = none;
  gid = none;
  atime = some TimeOrNow.now;
  mtime = none;
  truncated = none;
}

apply_setattr-IsChanged_example :
    After
      (λ attr m'. IsChanged toy crypto 7 2 chmod (tree EntryKind.file).inner attr m'.inner)
      (λ m'. IsIndex toy crypto m'.inner)
      (apply_setattr toy crypto index_codec 7 2 chmod (tree EntryKind.file))
apply_setattr-IsChanged_example =
    apply_setattr-IsChanged toy crypto index_codec 7 2 chmod (tree EntryKind.file)
      (tree-IsIndex EntryKind.file)

-- A codec that reads back the entries of one tree.
abbrev pub tree_codec : IndexCodec
tree_codec = record {
  serialize = λ entries. length entries ∷ [];
  deserialize = λ b. some ((tree EntryKind.file).inner).entries;
}

cipher_size : length crypto.cipher ≡ 32
cipher_size = length-replicate {A = ℕ} 32 1

small_index : length (tree_codec.serialize ((tree EntryKind.file).inner).entries) ≤ 2 ^ 37
small_index = omega arith

unlink_total_example :
    (m' : Mount) × (unlink toy index_codec crypto 1 (97 ∷ []) (tree EntryKind.file) ≡ (ok tt, m'))
    × IsDropped toy crypto (tree EntryKind.file).inner 1 (97 ∷ []) m'.inner
unfolding is_dir
unlink_total_example =
    unlink_total toy toy-IsSound index_codec crypto 1 (97 ∷ []) (tree EntryKind.file) 5
      (entry EntryKind.file) (tree-IsIndex EntryKind.file)
      (apart (tree EntryKind.file).inner (97 ∷ [])) (there EntryKind.file) refl
      (length-replicate {A = ℕ} 32 1) (omega arith) (omega arith)

save_index-IsAtomic_example :
    let dying : Mount = record (tree EntryKind.file) {
      backend = restart (tree EntryKind.file).backend 2;
    } in
    IsAtomic toy tree_codec toy-IsSound crypto
      (tree EntryKind.file)
      cipher_size
      small_index
      refl
      2
      9
      (save_index toy tree_codec crypto dying).1
save_index-IsAtomic_example =
    save_index-IsAtomic toy tree_codec toy-IsSound crypto (tree EntryKind.file) cipher_size
      small_index refl 2 9
