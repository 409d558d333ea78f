-- ===== src/Lib.antt =====
-- pqfs is an encrypted file system in user space. A backend directory holds a volume header, whose key
-- slots wrap the master key, an encrypted index of all entries, and one data file per inode, whose
-- blocks are sealed under a key of the file. This library models the parts that decide what is on disk.
--
-- How the parts interact: a command or a mount resolves credentials (src/cli.rs), opens the header and the
-- master key (src/crypto/volume.rs) and derives the keys of `Crypto` (src/crypto/keys.rs). Mounted, the
-- handlers of src/fs/ops.rs look names up in the index (src/fs/inner.rs), change it and save it, and read
-- and write data files block by block (src/fs/blocks.rs). `rekey` re-encrypts the index and swaps it in
-- together with a new header; `recover`, which every reader of the header runs first, finishes the swap.
-- The wrapper (src/fs/wrapper.rs) runs most handlers at once, under the lock of the index; reads, writes and
-- changes of a file's size are jobs, which worker threads do under a lock of the inode.
--
-- Files:
--   Common         numbers, lists, byte strings (Splice), maps (SortedMap), results, and Exec, a state
--                  with a result, where what was changed before an error stays changed
--   Backend        the backend's files by path, and changes that are counted until the process dies
--   Crypto         Primitives: the crates that src/crypto calls, as parameters with the behaviour that they
--                  document; Header (src/crypto/header.rs, mod.rs), Aead (aead.rs), Keys (keys.rs),
--                  Identity (identity.rs, kem.rs), Volume (volume.rs: Slots and Store have its functions)
--   Blocks         src/fs/blocks.rs: Layout has sizes and offsets, Ops the routines
--   Index          src/fs/entry.rs, src/fs/inner.rs and src/crypto/filename.rs: State has the tables, Names
--                  the encrypted names, Persist the index on disk, Tree the entries as a tree,
--                  Crash and Remount what a crash and the next mount find
--   Ops            src/fs/ops.rs: Data, Tree and Attrs have the handlers, Ancestors, Moving, Rooted and Placed the
--                  tree of entries, Applied and Emptied what setattr and rmdir do, the other modules what else they
--                  keep
--   Wrapper        src/fs/wrapper.rs: State has the queue, the workers and the locks, Requests what is answered
--                  at once, Jobs what the workers do, Steps how the two interleave, Isolation what the
--                  locks keep apart
--   Commands       src/cli.rs (Credentials) and src/commands.rs (Keygen, Slots, Rekey); Share, Revoke, Issue,
--                  Rewrapped and Reindexed have what they do
--   Cli            the arguments of src/cli.rs, src/main.rs, and the options of a mount
--   Tests          a cipher and a codec that meet the hypotheses, and runs at concrete inputs
-- A function has the name that it has in the code, in the module of its file; a method takes its object
-- last, as a state. The mutable self of a handler is the state of Exec, and so are the backend and the
-- count of draws from the random generator, of which each draw gives other bytes.
--
-- Bounds and fuel: numbers are exact; Blocks.Bounds shows that those of the block layer fit a u64 for sizes
-- below 2 ^ 63. A message of a block is far below the cipher's limit, 2 ^ 37 bytes here. Loops recurse on
-- their lists or on the count of rounds that the code computes before the loop, and `climb` on the bound
-- of hops that the code has itself, so no fuel is added. A step of Wrapper is one operation under the lock of
-- the index, one lock gained, or all that a job does to its data file.
--
-- Not modelled: the session with the kernel, which hands requests to src/fs/wrapper.rs, the system call
-- behind statfs, the parsing of arguments, log messages, the mode of a private file, the buffer that
-- limits a readdir reply, and the order in which a disk makes writes durable: a sync changes no byte here,
-- whether it fails is given, and a crash keeps the changes made before it. Changes of data files are not
-- counted among those that a crash interrupts. A path that is not valid Unicode is given past its lossy conversion.
-- The hash of a name is the bytes that the keyed hash gives, whose length, 32 in the code, is not fixed here: the
-- theorems that ask for names with different hashes can hold for all names only so. Offsets and sizes are
-- not cut to 64 bits.
pub mod Common
pub mod Backend
pub mod Crypto
pub mod Blocks
pub mod Index
pub mod Commands
pub mod Cli
pub mod Ops
pub mod Wrapper
pub mod Tests
