-- ===== src/Ops/Success.antt =====
-- `unlink` succeeds where nothing keeps it from it.
use pqfs.Common.{
  ℕ, suc, ◌+◌, ◌^◌, ◌≤◌, ◌≡◌, refl, sym, ◌∙◌, subst, Bytes, length, false, some, ok, arith,
  Bool-cases, inl, inr,
}
use pqfs.Backend.{Backend, FilePath, exists, change, remove_file}
use pqfs.Crypto.Primitives.{Primitives, IsSound}
use pqfs.Crypto.Keys.{Crypto}
use pqfs.Index.Entry.{Entry}
use pqfs.Index.State.{remove_entry}
use pqfs.Index.Names.{find_child}
use pqfs.Index.Persist.{IndexCodec, Mount}
use pqfs.Index.Saved.{save_index_total}
use pqfs.Index.WellFormed.{IsIndex, IsApart}
use pqfs.Ops.Tree.{is_dir, drop_data, unlink}
use pqfs.Ops.Unlinking.{IsDropped, unlink-IsDropped}

-- The data file is removed, which takes at most one change.
record IsCleared (ino : ℕ) (m : Mount) : Type 0 where
  after : Backend
  left : ℕ
  runs : drop_data ino m ≡ (ok tt, record m { backend = after })
  power : after.power ≡ left + 3

drop_data_total : (ino : ℕ) (m : Mount) (n : ℕ) → (m.backend).power ≡ suc (n + 3) → IsCleared ino m
unfolding drop_data remove_file change
drop_data_total ino m n power = elim (Bool-cases (exists (FilePath.data_file ino) m.backend)) [
  | inl there ↦
      subst (λ k. IsCleared ino (record m { backend = record (m.backend) { power = k } }))
        (sym power)
        (record {
          after =
              (remove_file (FilePath.data_file ino) (record (m.backend) { power = suc (n + 3) })).1;
          left = n;
          runs = rw (there, drop_data) refl;
          power = rw (there, remove_file) refl;
        })
  | inr missing ↦ record {
    after = m.backend;
    left = suc n;
    runs = rw (missing, drop_data) refl;
    power = power ∙ omega arith;
  }
]

module _ (p : Primitives) (sound : IsSound p) (codec : IndexCodec) (crypto : Crypto) where
  -- In a well-formed index, with a sound cipher, a key of 32 bytes, and a backend that can still be changed four
  -- times: a name that collides with none and leads to a file or a link is unlinked, if the entries without it
  -- fit a message of the cipher. The reply is a success, the index is well-formed, the name leads to nothing and
  -- every name with another parent or hash leads where it led.
  pub unlink_total :
      (parent : ℕ) (name : Bytes) (m : Mount) (n : ℕ) (e : Entry)
      → IsIndex p crypto m.inner
      → IsApart p crypto m.inner name
      → find_child p crypto parent name m.inner ≡ some e
      → is_dir e.kind ≡ false
      → length crypto.cipher ≡ 32
      → (m.backend).power ≡ n + 4
      → length (codec.serialize (remove_entry e.ino m.inner).1.entries) ≤ 2 ^ 37
      → (m' : Mount) × (unlink p codec crypto parent name m ≡ (ok tt, m'))
        × IsDropped p crypto m.inner parent name m'.inner
  unlink_total parent name m n e index apart found file cipher power fits =
      let without : Mount = record m { inner = (remove_entry e.ino m.inner).1 } in
      let c = drop_data_total e.ino without n (power ∙ omega arith) in
      let r =
        save_index_total p codec sound crypto (record without { backend = c.after }) c.left cipher
          c.power fits in
      let m' : Mount = record {
        inner = record (without.inner) { dirty = false };
        backend = r.after;
      } in
      let runs : unlink p codec crypto parent name m ≡ (ok tt, m') =
        unfold unlink in rw (found, file) (rw c.runs (rw r.runs refl)) in
      (m', runs, (unlink-IsDropped p codec crypto parent name m index apart).good tt m' runs)
