-- ===== src/Tests/TreeRuns.antt =====
-- The tree of entries at concrete inputs: the root directory with a directory called `a`.
use pqfs.Common.{
  ℕ, Bytes, ◌≡◌, ◌≢◌, refl, length-replicate, [], ◌∷◌, true, false, some, ok, arith, ◌⊎◌,
}
use pqfs.Common.SortedMap
use pqfs.Index.Children
use pqfs.Index.Entry.{EntryKind}
use pqfs.Index.State.{Inner, rebuild_indexes}
use pqfs.Index.Tables.{child, member}
use pqfs.Index.Updates.{insert_entry-IsLinked}
use pqfs.Index.Persist.{Mount, save_index, load}
use pqfs.Index.Rebuild.{rebuild_indexes-eq}
use pqfs.Index.Remount.{IsReloaded, load-save_index}
use pqfs.Index.Tree.{IsTree}
use pqfs.Index.Tree.Changes.{insert-IsTree}
use pqfs.Ops.Ancestors.{IsBelow, IsAside, is_descendant_of-decides}
use pqfs.Ops.Moving.{Stays, rename-IsTree}
use pqfs.Ops.Tree.{is_descendant_of, rename}
use pqfs.Tests.Toy.{toy, toy-IsSound}
use pqfs.Tests.IndexRuns.{file}
use pqfs.Tests.OpsRuns.{crypto, index_codec, entry}
use pqfs.Tests.NameRuns.{rooted, rooted-IsIndex, tree, tree-IsIndex, tree_codec}

rooted-IsTree : IsTree rooted.entries
unfolding SortedMap.get
rooted-IsTree = record {
  root = (record (file 1 []) { kind = EntryKind.dir }, refl, refl);
  climbs = λ i e g. (0, ground (arith, g));
  parents = λ i e g r. absurd (ground (arith, g, r));
}

pub tree-IsTree : (k : EntryKind) → IsTree ((tree k).inner).entries
unfolding SortedMap.get child Children.lookup
tree-IsTree k =
    let inserted =
      insert_entry-IsLinked rooted (entry k) rooted-IsIndex.linked (λ h. absurd (omega arith))
        (λ i c. absurd (ground arith)) in
    insert-IsTree rooted.entries ((tree k).inner).entries 2 rooted-IsTree (entry k)
      (λ h. absurd (omega arith)) inserted.1 refl rooted-IsTree.root

there : SortedMap.get 2 ((tree EntryKind.dir).inner).entries ≡ some (entry EntryKind.dir)
unfolding SortedMap.get child Children.lookup
there =
    (insert_entry-IsLinked rooted (entry EntryKind.dir) rooted-IsIndex.linked
        (λ h. absurd (omega arith)) (λ i c. absurd (ground arith))).1
      2

rename-IsTree_example :
    Stays toy index_codec crypto
      (tree EntryKind.dir)
      (tree-IsIndex EntryKind.dir).linked
      (tree-IsTree EntryKind.dir)
      1
      (97 ∷ [])
      1
      (98 ∷ [])
      (rename toy index_codec crypto 7 1 (97 ∷ []) 1 (98 ∷ []) (tree EntryKind.dir))
rename-IsTree_example =
    rename-IsTree toy index_codec crypto (tree EntryKind.dir) (tree-IsIndex EntryKind.dir).linked
      (tree-IsTree EntryKind.dir) 1 (97 ∷ []) 1 (98 ∷ []) 7

is_descendant_of-decides_example :
    let s = (tree EntryKind.dir).inner in
    ((is_descendant_of 2 1 s ≡ true) × IsBelow s.entries 2 1)
    ⊎ ((is_descendant_of 2 1 s ≡ false) × (◌≢◌ {A = ℕ} 2 1) × (n : ℕ) × IsAside s.entries n 2 1)
is_descendant_of-decides_example =
    is_descendant_of-decides (tree EntryKind.dir).inner 2 1 (entry EntryKind.dir)
      (tree-IsTree EntryKind.dir) there

rebuild_indexes-eq_example :
    let s = (tree EntryKind.file).inner in
    ((q : ℕ) (h : Bytes) → child (rebuild_indexes s) q h ≡ child s q h)
    × ((q i : ℕ) → member (rebuild_indexes s) q i ≡ member s q i)
rebuild_indexes-eq_example =
    rebuild_indexes-eq (tree EntryKind.file).inner (tree-IsIndex EntryKind.file).linked
      (tree-IsIndex EntryKind.file).sorted

root_there :
    SortedMap.get 1 ((tree EntryKind.file).inner).entries
    ≡ some (record (file 1 []) { kind = EntryKind.dir })
unfolding SortedMap.get child Children.lookup
root_there =
    (insert_entry-IsLinked rooted (entry EntryKind.file) rooted-IsIndex.linked
        (λ h. absurd (omega arith)) (λ i c. absurd (ground arith))).1
      1

load-save_index_example :
    let m = tree EntryKind.file in
    (m' : Mount) × (save_index toy tree_codec crypto m ≡ (ok tt, m'))
    × (s' : Inner) × (load toy tree_codec 5 0 0 crypto m'.backend ≡ (ok s', m'.backend))
    × IsReloaded toy tree_codec crypto m.inner s'
load-save_index_example =
    load-save_index toy tree_codec crypto toy-IsSound (tree EntryKind.file) 6 5 0 0
      (record (file 1 []) { kind = EntryKind.dir }) (tree-IsIndex EntryKind.file) root_there
      (length-replicate {A = ℕ} 32 1) (omega arith) (omega arith) refl
