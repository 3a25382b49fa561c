-- ===== src/Tests/Text.antt =====
-- The standard library's functions on paths.
use net_drive.Prelude.{◌≡◌, refl}
use net_drive.Prelude.Text.{codes, trim}
use net_drive.Prelude.Text.Paths.{clean, join_path, dir, base}

clean_test : clean (codes "a//b/./c/../d/") ≡ codes "a/b/d"
unfolding clean
clean_test = refl

clean_up_test : clean (codes "../../a/..") ≡ codes "../.."
unfolding clean
clean_up_test = refl

clean_root_test : clean (codes "/../a") ≡ codes "/a"
unfolding clean
clean_root_test = refl

dir_test : dir (codes "a/b") ≡ codes "a"
unfolding dir
dir_test = refl

dir_top_test : dir (codes "a") ≡ codes "."
unfolding dir
dir_top_test = refl

base_test : base (codes "a/b//") ≡ codes "b"
unfolding base
base_test = refl

join_path_test : join_path (codes "a/b") (codes "c") ≡ codes "a/b/c"
unfolding join_path
join_path_test = refl

trim_test : trim (codes "//a/b/") ≡ codes "a/b"
unfolding trim
trim_test = refl
