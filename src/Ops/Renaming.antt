-- ===== src/Ops/Renaming.antt =====
-- `rename` as an operation on the name space: on every path the index stays well-formed, and after a success
-- the new name leads to the entry, the old one to nothing, and the others where they led.
use pqfs.Common.{
  ℕ, ◌≡◌, ◌≢◌, refl, sym, ap, subst, ◌∙◌, Bytes, true, false, ◌&&◌, none, some, Result, ok,
  Bool-cases, Option-cases, inl, inr, if◌then◌else◌, ◌==◌, enoent, enotdir, einval, arith,
}
use pqfs.Common.SortedMap
use pqfs.Common.After.{After, After-ok, After-err, After-bind, After-weaken, After-lift}
use pqfs.Crypto.Primitives.{Primitives, IsSound}
use pqfs.Crypto.Keys.{Crypto, same_bytes}
use pqfs.Crypto.Volume.Store.{with_draws}
use pqfs.Index.Children.{same_name}
use pqfs.Index.Entry.{Entry}
use pqfs.Index.State.{Inner, root_ino, remove_entry, relink, renamed}
use pqfs.Index.Tables.{child}
use pqfs.Index.Updates.{remove_entry-IsLinked}
use pqfs.Index.Names.{find_child, hash_filename, encrypt_filename, decrypt_filename, is_utf8}
use pqfs.Index.Persist.{IndexCodec, Mount, on_disk, save_index}
use pqfs.Index.WellFormed.{IsIndex, IsApart, child-found, child-free}
use pqfs.Index.Namespace.{remove_entry-IsIndex, find_child-remove, child-without_free}
use pqfs.Index.Moves.{relink-IsIndex, find_child-relink}
use pqfs.Ops.Data.{as_eio}
use pqfs.Ops.Tree.{is_dir, is_descendant_of, may_replace, drop_data, make_room, rename}
use pqfs.Ops.Unlinking.{drop_data-After}
use pqfs.Ops.Steps.{
  IsKept, save-After, IsFlagged-IsIndex, IsFlagged-find_child, encrypt_filename-After,
}

-- What a rename of an entry gives, with the encrypted name that the entry has got.
pub record IsRenamed (p : Primitives) (crypto : Crypto) (clock : ℕ) (s : Inner) (parent : ℕ)
    (name : Bytes) (source : Entry) (newparent : ℕ) (newname : Bytes) (s' : Inner) : Type 0 where
  pub index : IsIndex p crypto s'
  pub blob : Bytes
  pub found :
      (q : ℕ) (n : Bytes)
      → find_child p crypto q n s' ≡ (
          if same_name q (hash_filename p crypto n) newparent (hash_filename p crypto newname)
          then (if same_bytes newname n
              then some (renamed clock newparent (hash_filename p crypto newname) blob source)
              else none)
          else if same_name q (hash_filename p crypto n) parent (hash_filename p crypto name)
          then none
          else find_child p crypto q n s)

module _ (p : Primitives) (codec : IndexCodec) (crypto : Crypto) (m : Mount)
    (index : IsIndex p crypto m.inner) (parent : ℕ) (name : Bytes)
    (apart : IsApart p crypto m.inner name) (source : Entry)
    (found : find_child p crypto parent name m.inner ≡ some source) (newparent : ℕ)
    (newname : Bytes) (new_apart : IsApart p crypto m.inner newname) where
  abbrev hash : Bytes
  hash = hash_filename p crypto newname

  -- The index once the new name is free, or leads to the source.
  record IsRoomy (m' : Mount) : Type 0 where
    index' : IsIndex p crypto m'.inner
    there : SortedMap.get source.ino (m'.inner).entries ≡ some source
    free : (i : ℕ) → child m'.inner newparent hash ≡ some i → i ≡ source.ino
    others :
        (q : ℕ) (n : Bytes)
        → same_name q (hash_filename p crypto n) newparent hash ≡ false
        → find_child p crypto q n m'.inner ≡ find_child p crypto q n m.inner

  facts :
      (child m.inner parent (hash_filename p crypto name) ≡ some source.ino)
      × (SortedMap.get source.ino (m.inner).entries ≡ some source)
      × (source.parent ≡ parent)
      × (source.name_hash ≡ hash_filename p crypto name)
      × (source.ino ≢ root_ino)
  facts = child-found p crypto m.inner index parent name apart source found

  -- The new name is free, or the source's own.
  as_it_was : ((i : ℕ) → child m.inner newparent hash ≡ some i → i ≡ source.ino) → IsRoomy m
  as_it_was free = record {
    index' = index;
    there = facts.1;
    free = free;
    others = λ q n differ. refl;
  }

  IsKept-IsRoomy : (m₁ m₂ : Mount) → IsKept m₁ m₂ → IsRoomy m₁ → IsRoomy m₂
  IsKept-IsRoomy m₁ m₂ k r = record {
    index' = subst (IsIndex p crypto) (sym k) r.index';
    there = subst (λ (s : Inner). SortedMap.get source.ino s.entries ≡ some source) (sym k) r.there;
    free = subst (λ s. (i : ℕ) → child s newparent hash ≡ some i → i ≡ source.ino) (sym k) r.free;
    others = λ q n differ. ap (find_child p crypto q n) k ∙ r.others q n differ;
  }

  -- Another entry with the new name was removed.
  removed :
      (existing : Entry)
      → find_child p crypto newparent newname m.inner ≡ some existing
      → (existing.ino == source.ino) ≡ false
      → IsRoomy (record m { inner = (remove_entry existing.ino m.inner).1 })
  removed existing found' other =
      let (_, there', q', h', not_root') =
        child-found p crypto m.inner index newparent newname new_apart existing found' in
      let entries = (remove_entry-IsLinked m.inner existing.ino index.linked not_root').2 in
      record {
        index' = remove_entry-IsIndex p crypto m.inner index existing not_root' there';
        there =
            let apart' : (source.ino == existing.ino) ≡ false = ground arith in
            entries source.ino ∙ rw apart' facts.1;
        free = λ i c.
            let none_there = child-without_free p crypto m.inner index existing not_root' there' in
            absurd (cc (c, none_there, q', h'));
        others = λ q n differ.
            find_child-remove p crypto m.inner index existing not_root' there' q n
            ∙ rw (q', h', differ);
      }

  make_room-After :
      After
        (λ _. IsRoomy)
        (λ m'. IsIndex p crypto m'.inner)
        (make_room p codec crypto source newparent newname m)
  unfolding make_room
  make_room-After = elim (Option-cases (find_child p crypto newparent newname m.inner)) [
    | inl missing ↦
        let free = child-free p crypto m.inner index newparent newname new_apart missing in
        rw (missing, make_room) (After-ok tt m (as_it_was (λ i c. absurd (cc (c, free)))))
    | inr (existing, found') ↦ elim (Bool-cases (existing.ino == source.ino)) [
      | inl own ↦
          let c' =
            (child-found p crypto m.inner index newparent newname new_apart existing found').0 in
          let own' : existing.ino ≡ source.ino = ground arith in
          rw (found', own, make_room)
            (After-ok tt m (
              as_it_was
                (λ i c. let i' : existing.ino ≡ i = ground (arith, c, c') in sym i' ∙ own')))
      | inr other ↦
          let start : Mount = record m { inner = (remove_entry existing.ino m.inner).1 } in
          rw (found', other, make_room)
            (After-bind _ _
              (After-lift {Q = λ _ t. t ≡ m} (may_replace source.kind existing m.inner) m
                (λ _ _. refl) index)
              (λ _ t same.
                subst
                  (λ t.
                    After (λ _. IsRoomy) (λ m'. IsIndex p crypto m'.inner)
                      (drop_data existing.ino
                        (record t { inner = (remove_entry existing.ino t.inner).1 })))
                  (sym same)
                  (After-weaken (drop_data existing.ino start)
                    (λ _ t k. IsKept-IsRoomy start t k (removed existing found' other))
                    (λ t k. (IsKept-IsRoomy start t k (removed existing found' other)).index')
                    (drop_data-After p codec crypto existing.ino start))))
    ]
  ]

  -- The end of `rename`, once there is room.
  module _ (sound : IsSound p) (clock : ℕ) (valid : is_utf8 newname ≡ true) where
    -- What `rename` gives.
    abbrev pub IsMoved : Result (Unit {0}) × Mount → Type 0
    IsMoved =
        After
          (λ _ m'. IsRenamed p crypto clock m.inner parent name source newparent newname m'.inner)
          (λ m'. IsIndex p crypto m'.inner)

    relinked :
        (m' : Mount) (blob : Bytes)
        → IsRoomy m'
        → decrypt_filename p crypto blob ≡ ok newname
        → IsMoved (
            as_eio
              (save_index p codec crypto)
              (record m' { inner = relink clock source.ino newparent hash blob m'.inner }))
    relinked m' blob r readable =
        let (_, _, q', h', not_root) = facts in
        let start : Mount = record m' {
          inner = relink clock source.ino newparent hash blob m'.inner;
        } in
        let index'' : IsIndex p crypto start.inner =
          relink-IsIndex p crypto clock m'.inner r.index' source not_root r.there newparent newname
            blob readable r.free in
        After-weaken (as_eio (save_index p codec crypto) start)
          (λ _ t f. record {
            index = IsFlagged-IsIndex p codec crypto start.inner t index'' f;
            blob = blob;
            found = λ q n.
                let at =
                  IsFlagged-find_child p codec crypto start.inner t q n f
                  ∙ find_child-relink p crypto clock m'.inner r.index' source not_root r.there
                      newparent newname blob readable r.free q n in
                elim (Bool-cases (same_name q (hash_filename p crypto n) newparent hash)) [
                  | inl new ↦ at ∙ rw new
                  | inr not_new ↦ at ∙ rw (not_new, q', h') (rw (r.others q n not_new))
                ];
          })
          (λ t f. IsFlagged-IsIndex p codec crypto start.inner t index'' f)
          (save-After p codec crypto start)

    encrypted :
        (m₁ : Mount)
        → IsRoomy m₁
        → After
            (λ blob t. IsRoomy t × (decrypt_filename p crypto blob ≡ ok newname))
            (λ t. IsIndex p crypto t.inner)
            (as_eio (on_disk (with_draws (encrypt_filename p crypto newname))) m₁)
    encrypted m₁ r =
        After-weaken (as_eio (on_disk (with_draws (encrypt_filename p crypto newname))) m₁)
          (λ blob t k. (IsKept-IsRoomy m₁ t k.0 r, k.1)) (λ t k. (IsKept-IsRoomy m₁ t k r).index')
          (encrypt_filename-After p sound codec crypto newname m₁ valid)

    -- In a well-formed index, for a name that leads to an entry, and a new name in UTF-8, neither of which
    -- collides with another: `rename` keeps the index well-formed on every path. When it succeeds, the new name
    -- leads to the entry under its new name and change time, the old name to nothing, unless it is the new one,
    -- and every name with another parent or hash leads where it led.
    pub rename-IsRenamed : IsMoved (rename p codec crypto clock parent name newparent newname m)
    unfolding rename
    rename-IsRenamed = elim (Option-cases (SortedMap.get newparent (m.inner).entries)) [
      | inl missing ↦ rw (found, missing) (After-err enoent m index)
      | inr (target, there) ↦ elim (Bool-cases (is_dir target.kind)) [
        | inr file ↦ rw (found, there, file) (After-err enotdir m index)
        | inl dir ↦
            elim (Bool-cases
              (is_dir source.kind && is_descendant_of newparent source.ino m.inner)) [
                | inl below ↦ rw (found, there, dir, below) (After-err einval m index)
                | inr beside ↦
                    rw (found, there, dir, beside)
                      (After-bind _ _ make_room-After (λ _ m₁ r₁.
                        After-bind _ _ (encrypted m₁ r₁)
                          (λ blob m₂ (r₂, readable). relinked m₂ blob r₂ readable)))
              ]
      ]
    ]
