-- ===== src/Updater/Install.antt =====
-- internal/updater/updater.go: CheckVersion and SelfUpdate. What the network answers, what is in the
-- downloaded archive and which calls to the file system fail are arguments. Of the files only three
-- count: the executable, the new one beside it and the old one that Windows keeps.
pub mod Laws
use sdd_hoffy.Common.{
  ℕ, zero, suc, ◌+◌, String, List, [], ◌∷◌, ◌++◌, Option, none, some, Bool, true, false, not, ◌&&◌,
  ◌||◌, ◌==◌, text_eq, nat_eq, string_eq, if◌then◌else◌,
}
use sdd_hoffy.Common.Result.{Result, ok, err, ◌>>=◌, ◌>>◌, require}
use sdd_hoffy.Common.Text.{Text, codes, is_empty}
use sdd_hoffy.Updater.Version.{normalize_version, is_newer, build_asset_name}

pub data Error : Type 0 where
  request_failed bad_release already_latest no_asset download_failed : Error
  bad_status : ℕ → Error
  bad_archive binary_missing zip_unsupported : Error
  no_executable write_failed backup_failed replace_failed : Error

pub record Asset : Type 0 where
  pub name : Text
  pub browser_download_url : Text

pub record ReleaseInfo : Type 0 where
  pub tag_name : Text
  pub html_url : Text
  pub assets : List Asset

-- The answer to a request: its status and its body, if it can be decoded.
pub record Response (B : Type 0) : Type 0 where
  pub status : ℕ
  pub body : Option B

-- What reading the members of a tar archive gives, one after the other: a base name and its data.
pub data Tar : Type 0 where
  ended broken : Tar
  member : Text → Option Text → Tar → Tar

pub record UpdateResult : Type 0 where
  pub current_version : Text
  pub latest_version : Text
  pub update_available : Bool
  pub release_url : Text

abbrev pub release_of : Option (Response ReleaseInfo) → Result Error ReleaseInfo
release_of none = err request_failed
release_of (some r) =
    if r.status == 200
    then elim r.body [ none ↦ err bad_release | some release ↦ ok release ]
    else err (bad_status r.status)

-- `CheckVersion` has no error; where the request fails the result says nothing of the latest version.
abbrev checked_result : Text → Result Error ReleaseInfo → UpdateResult
checked_result current (err e) = record {
  current_version = current;
  latest_version = [];
  update_available = false;
  release_url = [];
}
checked_result current (ok release) = record {
  current_version = current;
  latest_version = normalize_version release.tag_name;
  update_available = is_newer current (normalize_version release.tag_name);
  release_url = release.html_url;
}

unfoldable pub check_version : Text → Option (Response ReleaseInfo) → UpdateResult
unfolding normalize_version is_newer
check_version current answer = checked_result (normalize_version current) (release_of answer)

-- The URL of the first asset of the name, or "".
unfoldable pub download_url : Text → List Asset → Text
download_url name [] = []
download_url name (a ∷ assets) =
    if a.name == name then a.browser_download_url else download_url name assets

abbrev is_binary : Text → Bool
is_binary name = name == codes "hoofy" || name == codes "hoofy.exe"

abbrev data_of : Option Text → Result Error Text
data_of none = err bad_archive
data_of (some s) = ok s

-- `none` is an archive that is no gzip file.
unfoldable pub extract_member : Tar → Result Error Text
extract_member ended = err binary_missing
extract_member broken = err bad_archive
extract_member (member name content rest) =
    let later = extract_member rest in if is_binary name then data_of content else later

abbrev extract_from_tar_gz : Option Tar → Result Error Text
extract_from_tar_gz none = err bad_archive
extract_from_tar_gz (some archive) = extract_member archive

-- `strings.HasSuffix`
unfoldable pub has_suffix : Text → Text → Bool
has_suffix suffix [] = is_empty suffix
has_suffix suffix (c ∷ s) = let later = has_suffix suffix s in (c ∷ s) == suffix || later

-- The zip archives of Windows are copied to a temporary file, and then refused.
unfoldable pub extract_binary : Text → Option Tar → Result Error Text
unfolding extract_member has_suffix
extract_binary asset archive =
    if has_suffix (codes ".zip") asset then err zip_unsupported else extract_from_tar_gz archive

pub record Disk : Type 0 where
  pub executable : Option Text
  pub staged : Option Text
  pub backup : Option Text

-- What the calls meet. `write` is the text that a failed write of the new file leaves, if it fails.
pub record Surroundings : Type 0 where
  pub os : String
  pub arch : String
  pub release : Option (Response ReleaseInfo)
  pub download : Text → Option (Response Tar)
  pub executable_found : Bool
  pub write : Option (Option Text)
  pub remove_staged : Bool
  pub remove_backup : Bool
  pub back_up : Bool
  pub replace : Bool

abbrev pub staged_by : Option (Option Text) → Text → Option Text
staged_by none content = some content
staged_by (some left) content = left

abbrev pub removed : Bool → Option Text → Option Text
removed fails f = if fails then f else none

-- The last rename.
abbrev pub replace_binary : Surroundings → Disk → Disk × Result Error (Unit {0})
replace_binary w d =
    if w.replace
    then (record d { staged = removed w.remove_staged d.staged }, err replace_failed)
    else (record d { executable = d.staged; staged = none }, ok tt)

-- On Windows the running executable is moved away first.
abbrev pub back_up_binary : Surroundings → Disk → Disk × Result Error (Unit {0})
back_up_binary w d =
    if w.back_up
    then (
      record d {
        staged = removed w.remove_staged d.staged;
        backup = removed w.remove_backup d.backup;
      },
      err backup_failed,
    )
    else replace_binary w (record d { executable = none; backup = d.executable })

abbrev pub swap_binary : Surroundings → Disk → Disk × Result Error (Unit {0})
swap_binary w d = if w.os == "windows" then back_up_binary w d else replace_binary w d

abbrev write_result : Option (Option Text) → Result Error (Unit {0})
write_result none = ok tt
write_result (some left) = err write_failed

abbrev pub swap_written :
    Surroundings → Result Error (Unit {0}) → Disk → Disk × Result Error (Unit {0})
swap_written w (err e) d = (d, err e)
swap_written w (ok u) d = swap_binary w d

-- From the path of the executable on.
abbrev pub install : Surroundings → Text → Disk → Disk × Result Error (Unit {0})
install w binary d =
    if w.executable_found
    then swap_written w (write_result w.write) (record d { staged = staged_by w.write binary })
    else (d, err no_executable)

abbrev archive_of : Option (Response Tar) → Result Error (Option Tar)
archive_of none = err download_failed
archive_of (some r) = if r.status == 200 then ok r.body else err (bad_status r.status)

-- The part of `SelfUpdate` that touches no file: the binary of the latest release.
unfoldable pub fetch_binary : Surroundings → Text → ReleaseInfo → Result Error Text
unfolding normalize_version is_newer build_asset_name download_url extract_binary
fetch_binary w current release = do
  let latest = normalize_version release.tag_name
  require (is_newer (normalize_version current) latest) already_latest
  let asset = build_asset_name w.os w.arch latest
  let url = download_url asset release.assets
  require (not (is_empty url)) no_asset
  archive ← archive_of (w.download url)
  extract_binary asset archive

abbrev pub install_fetched :
    Surroundings → Result Error Text → Disk → Disk × Result Error (Unit {0})
install_fetched w (err e) d = (d, err e)
install_fetched w (ok binary) d = install w binary d

abbrev pub update_to :
    Surroundings → Text → Result Error ReleaseInfo → Disk → Disk × Result Error (Unit {0})
update_to w current (err e) d = (d, err e)
update_to w current (ok release) d = install_fetched w (fetch_binary w current release) d

unfoldable pub self_update : Surroundings → Text → Disk → Disk × Result Error (Unit {0})
unfolding fetch_binary
self_update w current d = update_to w current (release_of w.release) d
