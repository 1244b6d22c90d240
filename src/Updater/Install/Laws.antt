-- ===== src/Updater/Install/Laws.antt =====
-- internal/updater/updater.go: what SelfUpdate does to the executable.
use sdd_hoffy.Common.{
  ◌≡◌, inl, inr, refl, String, [], ◌∷◌, ◌++◌, Option, none, some, Bool, true, false, ◌==◌, text_beq,
  text_eq, nat_eq, string_eq, ==_iff, arith, Bool-cases, if◌then◌else◌,
}
use sdd_hoffy.Common.Result.{Result, ok, err, Result-cases}
use sdd_hoffy.Common.Text.{Text, codes, is_empty}
use sdd_hoffy.Updater.Version.{normalize_version, is_newer, build_asset_name}
use sdd_hoffy.Updater.Install.{
  Error, ReleaseInfo, Disk, Surroundings, zip_unsupported, release_of, has_suffix, extract_binary,
  Tar, download_url, archive_of, removed, replace_failed, back_up_binary, staged_by, write_result,
  no_executable, replace_binary, swap_written, install, fetch_binary, self_update,
}

has_suffix-after :
    (suffix a s : Text) → has_suffix suffix s ≡ true → has_suffix suffix (a ++ s) ≡ true
unfolding has_suffix
has_suffix-after suffix [] s h = h
has_suffix-after suffix (d ∷ a) s h = ground (arith, has_suffix-after suffix a s h)

asset_windows :
    (arch : String) (version : Text)
    → has_suffix (codes ".zip") (build_asset_name "windows" arch version) ≡ true
unfolding build_asset_name has_suffix text_beq
asset_windows arch version =
    has_suffix-after (codes ".zip") (codes "hoofy_")
      (version ++ (codes "_windows_" ++ (codes arch ++ codes ".zip")))
      (has_suffix-after (codes ".zip") version (codes "_windows_" ++ (codes arch ++ codes ".zip")) (
        has_suffix-after (codes ".zip") (codes "_windows_") (codes arch ++ codes ".zip")
          (has_suffix-after (codes ".zip") (codes arch) (codes ".zip") refl)))

-- What `fetch_binary` knows of the release when it succeeds.
record IsFetched (w : Surroundings) (current : Text) (release : ReleaseInfo) : Type 0 where
  pub newer : is_newer (normalize_version current) (normalize_version release.tag_name) ≡ true
  pub no_windows : (w.os == "windows") ≡ false

not_ok : {A : Type 0} (e : Error) (a : A) {r : Result Error A} → r ≡ err e → ¬ (r ≡ ok a)
not_ok e a h k = cc

windows_refused :
    (os arch : String) (version : Text) (archive : Option Tar)
    → (os == "windows") ≡ true
    → extract_binary (build_asset_name os arch version) archive ≡ err zip_unsupported
unfolding extract_binary
windows_refused os arch version archive h =
    rw ((==_iff os "windows").0 h, asset_windows arch version) refl

fetch_windows :
    (w : Surroundings) (current : Text) (release : ReleaseInfo) (binary : Text)
    → (w.os == "windows") ≡ true
    → ¬ (fetch_binary w current release ≡ ok binary)
unfolding fetch_binary
fetch_windows w current release binary win e =
    let latest = normalize_version release.tag_name in
    let asset = build_asset_name w.os w.arch latest in
    let url = download_url asset release.assets in
    elim (Bool-cases (is_newer (normalize_version current) latest)) [
      | inr old ↦ let g = rw old at e in cc
      | inl new ↦ elim (Bool-cases (is_empty url)) [
        | inl empty ↦ let g = rw (new, empty) at e in cc
        | inr there ↦ elim (Result-cases (archive_of (w.download url))) [
          | inr (x, f) ↦ let g = rw (new, there, f) at e in cc
          | inl (archive, f) ↦
              let g = rw (new, there, f) at e in
              not_ok zip_unsupported binary (windows_refused w.os w.arch latest archive win) g
        ]
      ]
    ]

fetch_binary-IsFetched :
    (w : Surroundings) (current : Text) (release : ReleaseInfo) (binary : Text)
    → fetch_binary w current release ≡ ok binary
    → IsFetched w current release
unfolding fetch_binary
fetch_binary-IsFetched w current release binary e = record {
  newer =
      elim (Bool-cases
        (is_newer (normalize_version current) (normalize_version release.tag_name))) [
          | inr old ↦ absurd (let g = rw old at e in cc)
          | inl new ↦ new
        ];
  no_windows = elim (Bool-cases (w.os == "windows")) [
    | inl win ↦ absurd (fetch_windows w current release binary win e)
    | inr other ↦ other
  ];
}

-- What an update leaves behind: an error, with the executable and its backup as they were, or the
-- binary of a release that is newer, whole, in the place of the executable.
pub data IsUpdate (w : Surroundings) (current : Text) (d : Disk)
    : Disk × Result Error (Unit {0}) → Type 0 where
  failed :
      {d' : Disk} {e : Error}
      → (d'.executable ≡ d.executable)
      → (d'.backup ≡ d.backup)
      → IsUpdate w current d (d', err e)
  updated :
      {d' : Disk} (release : ReleaseInfo) (binary : Text)
      → (release_of w.release ≡ ok release)
      → (is_newer (normalize_version current) (normalize_version release.tag_name) ≡ true)
      → (fetch_binary w current release ≡ ok binary)
      → (d'.executable ≡ some binary)
      → (d'.staged ≡ none)
      → (d'.backup ≡ d.backup)
      → IsUpdate w current d (d', ok tt)

install-IsUpdate :
    (w : Surroundings) (current : Text) (d : Disk) (release : ReleaseInfo) (binary : Text)
    → release_of w.release ≡ ok release
    → fetch_binary w current release ≡ ok binary
    → IsUpdate w current d (install w binary d)
install-IsUpdate w current d release binary r f =
    found (fetch_binary-IsFetched w current release binary f) w.executable_found
  where
    replaced :
        (fails : Bool)
        → is_newer (normalize_version current) (normalize_version release.tag_name) ≡ true
        → IsUpdate w current d (
            if fails
            then (record d { staged = removed w.remove_staged (some binary) }, err replace_failed)
            else (record d { executable = some binary; staged = none }, ok tt))
    replaced true newer = failed refl refl
    replaced false newer = updated release binary r newer f refl refl refl

    swapped :
        (windows : Bool)
        → windows ≡ false
        → is_newer (normalize_version current) (normalize_version release.tag_name) ≡ true
        → IsUpdate w current d (
            if windows
            then back_up_binary w (record d { staged = some binary })
            else replace_binary w (record d { staged = some binary }))
    swapped true h newer = absurd cc
    swapped false h newer = replaced w.replace newer

    written :
        IsFetched w current release
        → (fault : Option (Option Text))
        → IsUpdate w current d
            (swap_written w (write_result fault) (record d { staged = staged_by fault binary }))
    written k none = swapped (w.os == "windows") k.no_windows k.newer
    written k (some left) = failed refl refl

    found :
        IsFetched w current release
        → (is_found : Bool)
        → IsUpdate w current d (
            if is_found
            then swap_written w
                (write_result w.write)
                (record d { staged = staged_by w.write binary })
            else (d, err no_executable))
    found k true = written k w.write
    found k false = failed refl refl

-- Whatever the network answers, the archive holds and the file system refuses, SelfUpdate either fails
-- and leaves the executable and its backup as they were, or it succeeds, and then the executable is the
-- whole binary of a release that is newer than the current version, and no new file is left beside it.
pub self_update-IsUpdate :
    (w : Surroundings) (current : Text) (d : Disk) → IsUpdate w current d (self_update w current d)
unfolding self_update
self_update-IsUpdate w current d = elim (Result-cases (release_of w.release)) [
  | inr (e, h) ↦ rw h (failed refl refl)
  | inl (release, h) ↦ elim (Result-cases (fetch_binary w current release)) [
    | inr (e, f) ↦ rw (h, f) (failed refl refl)
    | inl (binary, f) ↦ rw (h, f) (install-IsUpdate w current d release binary h f)
  ]
]
