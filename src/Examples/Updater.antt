-- ===== src/Examples/Updater.antt =====
-- Concrete versions and releases for the theorems on the updater.
use sdd_hoffy.Common.{text_beq, ◌≡◌, ◌↔◌, refl, [], ◌∷◌, none, some, true, false, arith}
use sdd_hoffy.Common.Text.{codes}
use sdd_hoffy.Updater.Version.{is_newer}
use sdd_hoffy.Updater.Version.Printed.{version, IsLater, is_newer-version}
use sdd_hoffy.Updater.Install.{Surroundings, Disk, ReleaseInfo, Tar, ended, member, self_update}
use sdd_hoffy.Updater.Install.Laws.{IsUpdate, self_update-IsUpdate}

is_newer-version_example :
    (is_newer (version 0 9 12) (version 0 10 0) ≡ true) ↔ IsLater 0 9 12 0 10 0
is_newer-version_example =
    is_newer-version 0 9 12 0 10 0 (omega arith) (omega arith) (omega arith) (omega arith)
      (omega arith) (omega arith)

two_is_newer : is_newer (codes "0.2") (codes "0.10.1") ≡ true
unfolding is_newer text_beq
two_is_newer = refl

ten_is_newer : is_newer (codes "0.10.1") (codes "1.0.0-rc1") ≡ true
unfolding is_newer text_beq
ten_is_newer = refl

abbrev new_release : ReleaseInfo
new_release = record {
  tag_name = codes "v0.10.1";
  html_url = codes "https://example.org/release";
  assets =
      record {
        name = codes "hoofy_0.10.1_linux_amd64.tar.gz";
        browser_download_url = codes "https://example.org/archive";
      }
      ∷ [];
}

abbrev archive : Tar
archive =
    member (codes "README.md") (some (codes "read me"))
      (member (codes "hoofy") (some (codes "new binary")) ended)

abbrev linux : Surroundings
linux = record {
  os = "linux";
  arch = "amd64";
  release = some record { status = 200; body = some new_release };
  download = λ url. some record { status = 200; body = some archive };
  executable_found = true;
  write = none;
  remove_staged = false;
  remove_backup = false;
  back_up = false;
  replace = false;
}

abbrev old_disk : Disk
old_disk = record { executable = some (codes "old binary"); staged = none; backup = none }

self_update_replaces :
    (self_update linux (codes "0.2.0") old_disk).0.executable ≡ some (codes "new binary")
unfolding self_update text_beq
self_update_replaces = refl

self_update-IsUpdate_example :
    IsUpdate linux (codes "0.2.0") old_disk (self_update linux (codes "0.2.0") old_disk)
self_update-IsUpdate_example = self_update-IsUpdate linux (codes "0.2.0") old_disk
