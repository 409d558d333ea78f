-- ===== src/Ops/Applied.antt =====
-- What `apply_setattr` of src/fs/ops.rs does to an entry, field by field.
use pqfs.Common.{
  ℕ, ◌%◌, ◌≡◌, refl, sym, ap, ◌∙◌, Option, Bytes, none, some, Option-cases, inl, inr, if◌then◌else◌,
  ◌==◌, arith, enoent,
}
use pqfs.Common.SortedMap
use pqfs.Common.SortedMap.{get-insert}
use pqfs.Common.After.{After, After-ok, After-err, After-bind, After-weaken}
use pqfs.Crypto.Primitives.{Primitives}
use pqfs.Crypto.Keys.{Crypto}
use pqfs.Index.Entry.{Entry, touch_changed, touch_modified}
use pqfs.Index.State.{Inner}
use pqfs.Index.Names.{FileAttr, attr_for}
use pqfs.Index.Persist.{IndexCodec, Mount}
use pqfs.Index.WellFormed.{IsIndex}
use pqfs.Ops.Attrs.{
  SetAttr, time_or_now_nanos, when_some, with_attrs, put_attrs, entry_of, apply_setattr,
}
use pqfs.Ops.Attributes.{modify_entry-some, with_attrs-IsSameNode, changed-IsIndex}
use pqfs.Ops.Steps.{IsFlagged-IsIndex, save-After}

-- The new value of a field, if one is given.
abbrev pub given {ℓ} : {A : Type ℓ} {B : Type 0} → Option A → (A → B) → B → B
given none f old = old
given (some x) f old = f x

-- The entry with what was asked for, field by field. A mode keeps its 9 lowest bits, a change of the size counts
-- as a modification, and the change time is the clock's; the rest stays.
abbrev pub applied : ℕ → SetAttr → Entry → Entry
applied clock a e = record e {
  perm = given a.mode (λ mode. mode % 512) e.perm;
  uid = given a.uid (λ uid. uid) e.uid;
  gid = given a.gid (λ gid. gid) e.gid;
  times = record (e.times) {
    atime = given a.atime (time_or_now_nanos clock) (e.times).atime;
    mtime =
        given a.truncated (λ _. clock) (given a.mtime (time_or_now_nanos clock) (e.times).mtime);
    ctime = clock;
  };
  content_key = given a.truncated (λ t. t.0) e.content_key;
  size = given a.truncated (λ t. t.1) e.size;
}

-- A change that puts a value in a field, if there is one.
when_some-put {ℓ} :
    {A : Type ℓ} {B : Type 0} (o : Option A) (g : A → B) (get : Entry → B) (put : B → Entry → Entry)
    (e : Entry)
    → put (get e) e ≡ e
    → when_some o (λ x. put (g x)) e ≡ put (given o g (get e)) e
when_some-put none g get put e same = sym same
when_some-put (some x) g get put e same = refl

-- The mode is cut to 16 bits, and then to 9.
mode_bits : (mode : ℕ) → mode % 65536 % 512 ≡ mode % 512
mode_bits mode = omega arith

given-mode :
    (o : Option ℕ) (old : ℕ)
    → given o (λ mode. mode % 65536 % 512) old ≡ given o (λ mode. mode % 512) old
given-mode none old = refl
given-mode (some mode) old = mode_bits mode

-- The owner, the times and the size, as the code changes them one after the other.
owned :
    (a : SetAttr) (e : Entry)
    → when_some a.gid
        (λ gid e. record e { gid = gid })
        (when_some a.uid
          (λ uid e. record e { uid = uid })
          (when_some a.mode (λ mode e. record e { perm = mode % 65536 % 512 }) e))
      ≡ record e {
        perm = given a.mode (λ mode. mode % 512) e.perm;
        uid = given a.uid (λ uid. uid) e.uid;
        gid = given a.gid (λ gid. gid) e.gid;
      }
owned a e =
    let e₁ : Entry = record e { perm = given a.mode (λ mode. mode % 512) e.perm } in
    let e₂ : Entry = record e₁ { uid = given a.uid (λ uid. uid) e.uid } in
    rw
      (
        when_some-put a.mode (λ mode. mode % 65536 % 512) (λ e. e.perm)
            (λ perm e. record e { perm = perm }) e refl,
        given-mode a.mode e.perm,
        when_some-put a.uid (λ uid. uid) (λ e. e.uid) (λ uid e. record e { uid = uid }) e₁ refl,
      )
      (when_some-put a.gid (λ gid. gid) (λ e. e.gid) (λ gid e. record e { gid = gid }) e₂ refl)

timed :
    (clock : ℕ) (a : SetAttr) (e : Entry)
    → when_some a.mtime
        (λ t e. record e { times = record (e.times) { mtime = time_or_now_nanos clock t } })
        (when_some a.atime
          (λ t e. record e { times = record (e.times) { atime = time_or_now_nanos clock t } })
          e)
      ≡ record e {
        times = record (e.times) {
          atime = given a.atime (time_or_now_nanos clock) (e.times).atime;
          mtime = given a.mtime (time_or_now_nanos clock) (e.times).mtime;
        };
      }
timed clock a e =
    rw
      (when_some-put a.atime (time_or_now_nanos clock) (λ e. (e.times).atime)
        (λ t e. record e { times = record (e.times) { atime = t } }) e refl)
      (when_some-put a.mtime (time_or_now_nanos clock) (λ e. (e.times).mtime)
        (λ t e. record e { times = record (e.times) { mtime = t } }) _ refl)

-- The end of the change.
abbrev touched : ℕ → Entry → Entry
touched clock e = record e { times = touch_changed clock e.times }

cut :
    (clock : ℕ) (o : Option (Bytes × ℕ)) (e : Entry)
    → touched clock (
        when_some o
          (λ t e. record e { content_key = t.0; size = t.1; times = touch_modified clock e.times })
          e)
      ≡ record e {
        times = record (e.times) { mtime = given o (λ _. clock) (e.times).mtime; ctime = clock };
        content_key = given o (λ t. t.0) e.content_key;
        size = given o (λ t. t.1) e.size;
      }
unfolding touch_changed touch_modified
cut clock none e = refl
cut clock (some t) e = refl

with_attrs-eq-applied :
    (clock : ℕ) (a : SetAttr) (e : Entry) → with_attrs clock a e ≡ applied clock a e
unfolding with_attrs
with_attrs-eq-applied clock a e = rw (owned a e) (rw (timed clock a _) (cut clock a.truncated _))

-- What a `setattr` that succeeds gives: the reply tells the entry with the changes, which is stored under the
-- inode; the other entries stay, and the index is well-formed.
pub record IsChanged (p : Primitives) (crypto : Crypto) (clock ino : ℕ) (a : SetAttr) (s : Inner)
    (attr : FileAttr) (s' : Inner) : Type 0 where
  pub found : Entry
  pub stored : Entry
  pub was : SortedMap.get ino s.entries ≡ some found
  pub changed : stored ≡ applied clock a found
  pub replied : attr ≡ attr_for stored
  pub entries :
      (j : ℕ)
      → SortedMap.get j s'.entries ≡ (if j == ino then some stored else SortedMap.get j s.entries)
  pub index : IsIndex p crypto s'

module _ (p : Primitives) (crypto : Crypto) where
  -- In a well-formed index, `apply_setattr` keeps the index well-formed on every path. When it succeeds, the
  -- inode had an entry, and now has one whose mode (9 bits), owner, times, content key and size are those asked
  -- for, or else the old ones, with the clock as its change time, and as its modification time if the size is
  -- set; everything else in the entry, and every other entry, is kept. The reply has the new attributes.
  pub apply_setattr-IsChanged :
      (codec : IndexCodec) (clock ino : ℕ) (a : SetAttr) (m : Mount)
      → IsIndex p crypto m.inner
      → After
          (λ attr m'. IsChanged p crypto clock ino a m.inner attr m'.inner)
          (λ m'. IsIndex p crypto m'.inner)
          (apply_setattr p crypto codec clock ino a m)
  unfolding apply_setattr entry_of put_attrs
  apply_setattr-IsChanged codec clock ino a m index =
      elim (Option-cases (SortedMap.get ino (m.inner).entries)) [
        | inl missing ↦ rw missing (After-err enoent m index)
        | inr (e, there) ↦
            let e' = with_attrs clock a e in
            let s' : Inner = record (m.inner) {
              entries = SortedMap.insert ino e' (m.inner).entries;
            } in
            let index' : IsIndex p crypto s' =
              changed-IsIndex p crypto m.inner ino e e' index there
                (with_attrs-IsSameNode clock a e) in
            rw there (
              rw (modify_entry-some ino (with_attrs clock a) m.inner e there) (
                After-bind _ _
                  (After-weaken _ (λ _ t f. f)
                    (λ t f. IsFlagged-IsIndex p codec crypto s' t index' f)
                    (save-After p codec crypto (record m { inner = s' })))
                  (λ _ t f. After-ok (attr_for e') t (record {
                    found = e;
                    stored = e';
                    was = there;
                    changed = with_attrs-eq-applied clock a e;
                    replied = refl;
                    entries = λ j.
                        ap (λ (x : Inner). SortedMap.get j x.entries) f.1
                        ∙ get-insert j ino e' (m.inner).entries;
                    index = IsFlagged-IsIndex p codec crypto s' t index' f;
                  }))))
      ]
