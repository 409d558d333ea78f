-- ===== src/Backend.antt =====
-- The backend directory: its files by path, as `std::fs` changes them. Each change counts against
-- `power`, the changes left until the process dies: then every further change fails, and the files
-- stay as they are. So one definition gives the run to its end and what a crash leaves.
use pqfs.Common.{
  ℕ, zero, suc, Bytes, [], Option, none, some, Bool, true, false, ◌&&◌, Result, ok, err,
  missing_file, crashed, if◌then◌else◌, ◌==◌,
}
use pqfs.Common.Exec.{Exec, ◌>>◌}

-- A name in the backend: a stem (`pqfs`, `pqfs.header`, `pqfs.index`) and an extension, as `Path::with_extension` splits it at the last dot.
pub data Stem : Type 0 where
  base base_header base_index : Stem

pub data Extension : Type 0 where
  header index tmp rekey new : Extension

pub data FilePath : Type 0 where
  top : Stem → Extension → FilePath
  -- data/<ino>
  data_file : ℕ → FilePath

same_stem : Stem → Stem → Bool
same_stem base base = true
same_stem base_header base_header = true
same_stem base_index base_index = true
same_stem _ _ = false

same_extension : Extension → Extension → Bool
same_extension header header = true
same_extension index index = true
same_extension tmp tmp = true
same_extension rekey rekey = true
same_extension new new = true
same_extension _ _ = false

unfoldable pub same_path : FilePath → FilePath → Bool
unfolding same_stem same_extension
same_path (top s e) (top s' e') = same_stem s s' && same_extension e e'
same_path (data_file i) (data_file j) = i == j
same_path _ _ = false

unfoldable pub with_extension : FilePath → Extension → FilePath
with_extension (top s e) e' = top s e'
with_extension (data_file i) e' = data_file i

-- `Crypto::HEADER_FILE`, `INDEX_FILE`, `REKEY_MARKER`, `HEADER_STAGING`, `INDEX_STAGING`
abbrev pub header_file : FilePath
header_file = top base header

abbrev pub index_file : FilePath
index_file = top base index

abbrev pub rekey_marker : FilePath
rekey_marker = top base rekey

abbrev pub header_staging : FilePath
header_staging = top base_header new

abbrev pub index_staging : FilePath
index_staging = top base_index new

pub record Backend : Type 0 where
  pub files : FilePath → Option Bytes
  -- draws from the random generator so far
  pub draws : ℕ
  -- changes that the process still makes before it dies
  pub power : ℕ

unfoldable pub update :
    (FilePath → Option Bytes) → FilePath → Option Bytes → FilePath → Option Bytes
unfolding same_path
update files path v q = if same_path path q then v else files q

unfoldable pub exists : FilePath → Backend → Bool
exists path b = elim (b.files path) [ none ↦ false | some x ↦ true ]

unfoldable pub read_file : FilePath → Backend → Result Bytes
read_file path b = elim (b.files path) [ none ↦ err missing_file | some x ↦ ok x ]

-- What a change leaves, by the power that is left.
spend : ℕ → (FilePath → Option Bytes) → Backend → Result (Unit {0}) × Backend
spend zero files b = (err crashed, b)
spend (suc n) files b = (ok tt, record b { files = files; power = n })

-- A change of the files, if the process is still alive.
unfoldable pub change :
    ((FilePath → Option Bytes) → FilePath → Option Bytes) → Exec Backend (Unit {0})
unfolding spend
change f b = spend b.power (f b.files) b

-- `File::create` truncates a file or makes an empty one.
unfoldable pub create_file : FilePath → Exec Backend (Unit {0})
unfolding change update
create_file path = change (λ files. update files path (some []))

-- `write_all` on the file that was just created
unfoldable pub write_all : FilePath → Bytes → Exec Backend (Unit {0})
unfolding change update
write_all path bytes = change (λ files. update files path (some bytes))

unfoldable pub rename : FilePath → FilePath → Exec Backend (Unit {0})
unfolding change update exists
rename from to b =
    if exists from b
    then change (λ files. update (update files to (files from)) from none) b
    else (err missing_file, b)

unfoldable pub remove_file : FilePath → Exec Backend (Unit {0})
unfolding change update exists
remove_file path b =
    if exists path b then change (λ files. update files path none) b else (err missing_file, b)

-- `File::create` with `write_all` and `sync_all`. Syncing changes no file, and a crash is not taken
-- to undo a write, so the model leaves it out here and where a directory is synced.
unfoldable pub write_synced : FilePath → Bytes → Exec Backend (Unit {0})
unfolding create_file write_all
write_synced path bytes = do create_file path; write_all path bytes
