-- ===== src/Ops/Creation.antt =====
-- `create`, `mkdir` and `symlink`: they keep the index well-formed on every path, and what they report is
-- found under its name.
use pqfs.Common.{
  ℕ, ◌+◌, ◌%◌, length, ◌≡◌, refl, sym, ap, subst, ◌∙◌, Bytes, [], true, false, none, Result, ok,
  arith, Bool-cases, inl, inr, eexist,
}
use pqfs.Common.After.{After, After-err, After-bind, After-weaken}
use pqfs.Crypto.Primitives.{Primitives, IsSound}
use pqfs.Crypto.Keys.{Crypto, random_key}
use pqfs.Crypto.Aead.{encrypt}
use pqfs.Crypto.Volume.Store.{with_draws}
use pqfs.Index.Entry.{Entry, EntryKind, at_time}
use pqfs.Index.State.{Inner, allocate_ino}
use pqfs.Index.Tables.{child}
use pqfs.Index.Names.{
  FileAttr, is_utf8, find_child, hash_filename, encrypt_filename, decrypt_filename,
}
use pqfs.Index.Persist.{IndexCodec, Mount, on_disk}
use pqfs.Index.WellFormed.{IsIndex, IsApart, child-free}
use pqfs.Index.Namespace.{with_counters-IsIndex, next-new}
use pqfs.Ops.Data.{as_eio}
use pqfs.Ops.Tree.{Caller, is_taken, insert_saved, create, mkdir, symlink}
use pqfs.Ops.Steps.{
  IsKept, IsAdded, as_eio-After, on_disk-After, encrypt_filename-After, insert_saved-After,
}

-- An entry but for its number, its parent and the hash of its name.
abbrev made : Caller → EntryKind → Bytes → Bytes → ℕ → ℕ → Bytes → Entry
made caller kind blob content_key size perm link_target = record {
  ino = 0;
  parent = 0;
  name_hash = [];
  name_encrypted = blob;
  content_key = content_key;
  kind = kind;
  size = size;
  perm = perm;
  uid = caller.uid;
  gid = caller.gid;
  times = at_time caller.clock;
  link_target = link_target;
}

module _ (p : Primitives) (sound : IsSound p) (codec : IndexCodec) (crypto : Crypto) where
  is_taken-find_child :
      (s : Inner) (parent : ℕ) (name : Bytes)
      → is_taken p codec crypto parent name s ≡ false
      → find_child p crypto parent name s ≡ none
  unfolding is_taken
  is_taken-find_child s parent name h = ground (arith, h)

  -- Once a number is allocated, an entry with it, whose name was encrypted, is inserted and saved.
  module _ (s : Inner) (index : IsIndex p crypto s) (parent : ℕ) (name : Bytes)
      (apart : IsApart p crypto s name) (missing : find_child p crypto parent name s ≡ none) where
    abbrev allocated : Inner
    allocated = (allocate_ino s).1

    allocated-IsIndex : IsIndex p crypto allocated
    unfolding allocate_ino
    allocated-IsIndex =
        with_counters-IsIndex p crypto s s.dirty (s.next_ino + 1) index (omega arith)

    -- The number is no part of a lookup.
    find_child-allocate :
        (q : ℕ) (n : Bytes) → find_child p crypto q n allocated ≡ find_child p crypto q n s
    unfolding find_child allocate_ino
    find_child-allocate q n = refl

    abbrev entry : Entry → Entry
    entry e = record e {
      ino = s.next_ino;
      parent = parent;
      name_hash = hash_filename p crypto name;
    }

    insert_allocated :
        (e : Entry) (m : Mount)
        → m.inner ≡ allocated
        → decrypt_filename p crypto e.name_encrypted ≡ ok name
        → After
            (λ attr m'. IsAdded p crypto s parent name attr m'.inner)
            (λ m'. IsIndex p crypto m'.inner)
            (insert_saved p codec crypto (entry e) m)
    unfolding allocate_ino child
    insert_allocated e m same readable =
        subst
          (λ i.
            After (λ attr m'. IsAdded p crypto s parent name attr m'.inner)
              (λ m'. IsIndex p crypto m'.inner)
              (insert_saved p codec crypto (entry e) (record m { inner = i })))
          (sym same)
          (After-weaken (insert_saved p codec crypto (entry e) (record m { inner = allocated }))
            (λ attr m' a. record {
              index = a.index;
              entry = a.entry;
              reply = a.reply;
              found = λ q n. a.found q n ∙ rw (find_child-allocate q n);
            })
            (λ m' i. i)
            (insert_saved-After p codec crypto (entry e) name (record m { inner = allocated })
              allocated-IsIndex (λ r. omega (arith, r, index.root_below)) (omega arith)
              (next-new p crypto s index) (child-free p crypto s index parent name apart missing)
              readable refl))

    -- The state at which the steps after the allocation start, and what each leaves.
    abbrev IsAllocated : Mount → Type 0
    IsAllocated m = m.inner ≡ allocated

    allocated-then : (m m' : Mount) → IsAllocated m → IsKept m m' → IsIndex p crypto m'.inner
    allocated-then m m' h k = subst (IsIndex p crypto) (sym (k ∙ h)) allocated-IsIndex

    -- A step on the disk alone.
    disk_step :
        {A : Type 0} (r : Result A × Mount) (m : Mount)
        → IsAllocated m
        → After (λ _. IsKept m) (IsKept m) r
        → After (λ _. IsAllocated) (λ m'. IsIndex p crypto m'.inner) r
    disk_step r m h k = After-weaken r (λ _ m' k. k ∙ h) (λ m' k. allocated-then m m' h k) k

    name_step :
        (m : Mount)
        → IsAllocated m
        → is_utf8 name ≡ true
        → After
            (λ blob m'. IsAllocated m' × (decrypt_filename p crypto blob ≡ ok name))
            (λ m'. IsIndex p crypto m'.inner)
            (as_eio (on_disk (with_draws (encrypt_filename p crypto name))) m)
    name_step m h valid =
        After-weaken (as_eio (on_disk (with_draws (encrypt_filename p crypto name))) m)
          (λ _ m' k. (k.0 ∙ h, k.1)) (λ m' k. allocated-then m m' h k)
          (encrypt_filename-After p sound codec crypto name m valid)

  -- What the three handlers give.
  abbrev pub IsCreated : Mount → ℕ → Bytes → Result FileAttr × Mount → Type 0
  IsCreated m parent name =
      After (λ attr m'. IsAdded p crypto m.inner parent name attr m'.inner)
        (λ m'. IsIndex p crypto m'.inner)

  module _ (caller : Caller) (parent : ℕ) (name : Bytes) (m : Mount)
      (index : IsIndex p crypto m.inner) (apart : IsApart p crypto m.inner name)
      (valid : is_utf8 name ≡ true) where
    -- In a well-formed index, under a name in UTF-8 that collides with none, `create` keeps the index
    -- well-formed on every path. When it succeeds, a lookup of the name gives the attributes that it replied,
    -- and every name with another parent or hash leads where it led.
    pub create-IsAdded :
        (mode : ℕ) → IsCreated m parent name (create p codec crypto caller parent name mode m)
    unfolding create allocate_ino
    create-IsAdded mode = elim (Bool-cases (is_taken p codec crypto parent name m.inner)) [
      | inl taken ↦ rw taken (After-err eexist m index)
      | inr not_taken ↦
          let missing = is_taken-find_child m.inner parent name not_taken in
          let start : Mount = record m { inner = (allocate_ino m.inner).1 } in
          rw not_taken (
            After-bind _ _ (name_step m.inner index parent name apart missing start refl valid)
              (λ blob m₁ (h₁, readable).
                After-bind _ _
                  (disk_step m.inner index parent name apart missing _ m₁ h₁
                    (on_disk-After (with_draws (random_key p)) m₁))
                  (λ key m₂ h₂.
                    After-bind _ _
                      (disk_step m.inner index parent name apart missing _ m₂ h₂ (
                        as_eio-After (on_disk (with_draws (encrypt p crypto.cipher key))) m₂
                          (on_disk-After (with_draws (encrypt p crypto.cipher key)) m₂)))
                      (λ content_key m₃ h₃.
                        insert_allocated m.inner index parent name apart missing
                          (made caller EntryKind.file blob content_key 0 (mode % 65536 % 512) []) m₃
                          h₃ readable))))
    ]

    -- In a well-formed index, under a name in UTF-8 that collides with none, `mkdir` keeps the index
    -- well-formed on every path. When it succeeds, a lookup of the name gives the attributes that it replied,
    -- and every name with another parent or hash leads where it led.
    pub mkdir-IsAdded :
        (mode : ℕ) → IsCreated m parent name (mkdir p codec crypto caller parent name mode m)
    unfolding mkdir allocate_ino
    mkdir-IsAdded mode = elim (Bool-cases (is_taken p codec crypto parent name m.inner)) [
      | inl taken ↦ rw taken (After-err eexist m index)
      | inr not_taken ↦
          let missing = is_taken-find_child m.inner parent name not_taken in
          let start : Mount = record m { inner = (allocate_ino m.inner).1 } in
          rw not_taken (
            After-bind _ _ (name_step m.inner index parent name apart missing start refl valid)
              (λ blob m₁ (h₁, readable).
                insert_allocated m.inner index parent name apart missing
                  (made caller EntryKind.dir blob [] 0 (mode % 65536 % 512) []) m₁ h₁ readable))
    ]

    -- In a well-formed index, under a name in UTF-8 that collides with none, `symlink` keeps the index
    -- well-formed on every path. When it succeeds, a lookup of the name gives the attributes that it replied,
    -- and every name with another parent or hash leads where it led.
    pub symlink-IsAdded :
        (target : Bytes)
        → IsCreated m parent name (symlink p codec crypto caller parent name target m)
    unfolding symlink allocate_ino
    symlink-IsAdded target = elim (Bool-cases (is_taken p codec crypto parent name m.inner)) [
      | inl taken ↦ rw taken (After-err eexist m index)
      | inr not_taken ↦
          let missing = is_taken-find_child m.inner parent name not_taken in
          rw not_taken (
            After-bind _ _
              (After-weaken _ (λ _ m' k. k) (λ m' k. subst (IsIndex p crypto) (sym k) index)
                (as_eio-After (on_disk (with_draws (encrypt_filename p crypto target))) m
                  (on_disk-After (with_draws (encrypt_filename p crypto target)) m)))
              (λ link_target m₀ h₀.
                let start : Mount = record m₀ { inner = (allocate_ino (m₀.inner)).1 } in
                let allocated : start.inner ≡ (allocate_ino m.inner).1 =
                  ap (λ s. (allocate_ino s).1) h₀ in
                After-bind _ _
                  (name_step m.inner index parent name apart missing start allocated valid)
                  (λ blob m₁ (h₁, readable).
                    subst
                      (λ s. IsCreated m parent name (
                        insert_saved p codec crypto
                          (record (made caller EntryKind.symlink blob [] (length target) 511
                            link_target) {
                              ino = (allocate_ino s).0;
                              parent = parent;
                              name_hash = hash_filename p crypto name;
                            })
                          m₁))
                      (sym h₀)
                      (insert_allocated m.inner index parent name apart missing
                        (made caller EntryKind.symlink blob [] (length target) 511 link_target) m₁
                        h₁ readable))))
    ]
