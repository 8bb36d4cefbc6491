-- ===== src/Tests/Paths.antt =====
-- Paths of a user whose name is replaced in part, and of a function of a provider.
use qiskit_serverless.Base.{List, String, all, none, refl, some, true, ◌≡◌}
use qiskit_serverless.Base.Text.{join, split}
use qiskit_serverless.Paths.{
  malformed, parse_title_and_provider, refused, sanitize_file_name, sanitize_file_path,
  sanitize_name, sanitize_sub_path, sub_path, titled, user_storage,
}
use qiskit_serverless.Paths.Safe.{IsSafe, sanitize_file_name-agrees, sanitize_file_path-IsSafe}
use qiskit_serverless.Paths.Segments.{is_segment, sanitize_sub_path-segments}
use qiskit_serverless.Paths.Layout.{folders, laid_out, sub_path-folders, users_apart}

climbing_path : sanitize_file_path "../a++b/...c" ≡ "_/a_b/_.c"
unfolding sanitize_file_path
climbing_path = refl

climbing_folder : sanitize_sub_path (some "/../../x//y/") ≡ "_/_/x/y"
unfolding sanitize_sub_path split join
climbing_folder = refl

wheel_name : sanitize_file_name (some "torch-2.1+cu121.whl") ≡ some "torch-2.1_cu121.whl"
unfolding sanitize_file_name
wheel_name = refl

title_of_two_slashes : parse_title_and_provider "a/b/c" none ≡ refused malformed
unfolding parse_title_and_provider split
title_of_two_slashes = refl

title_with_provider : parse_title_and_provider "acme/my fn" none ≡ titled "myfn" (some "acme")
unfolding parse_title_and_provider split sanitize_name
title_with_provider = refl

sanitize_file_path-IsSafe_example : IsSafe (sanitize_file_path "../a++b")
sanitize_file_path-IsSafe_example = sanitize_file_path-IsSafe "../a++b"

sanitize_file_name-agrees_example :
    sanitize_file_name (some "a..+b.whl") ≡ some (sanitize_file_path "a..+b.whl")
sanitize_file_name-agrees_example = sanitize_file_name-agrees "a..+b.whl" refl

sanitize_sub_path-segments_example :
    (parts : List String) × (sanitize_sub_path (some "/../x") ≡ join "/" parts)
    × (all is_segment parts ≡ true)
sanitize_sub_path-segments_example = sanitize_sub_path-segments (some "/../x")

sub_path-folders_example :
    sub_path user_storage "ann@x" "fn" (some "acme") (some "results")
    ≡ laid_out (folders user_storage "ann@x" "fn" (some "acme") (some "results"))
sub_path-folders_example =
    sub_path-folders user_storage "ann@x" "fn" (some "acme") (some "results") refl

users_apart_example : sanitize_file_path "a+b" ≡ sanitize_file_path "a b"
unfolding sub_path
users_apart_example =
    users_apart "a+b" "fn" (some "acme") none "a b" "fn" (some "acme") none refl refl refl
