-- ===== src/Vhost/Files.antt =====
-- src/vhost.rs: what a static site gives out.
use amail_bridge.Common.{◌≡◌, ◌⊎◌, true, false, some, arith}
use amail_bridge.Std.Text.{Text, str, contains, trim_start_matches}
use amail_bridge.Vhost.{FileSystem, handle_static, serve_file, file_path}

-- A body with status 200 is the content of a file under the site's directory, as far as the path
-- operations tell, or of its `index.html`, and the request's path has no `..` behind its slashes.
pub handle_static-inside :
    (F : FileSystem) (root path : Text)
    → (handle_static F root path).status ≡ 200
    → (contains (str "..") (trim_start_matches b'/' path) ≡ false)
      × (F.path_starts_with root (file_path F root path) ≡ true)
      × ((F.read (file_path F root path) ≡ some (handle_static F root path).body)
          ⊎ (F.read (F.join root (str "index.html")) ≡ some (handle_static F root path).body))
unfolding handle_static serve_file
handle_static-inside F root path h = ground arith
