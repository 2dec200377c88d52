-- ===== src/Http/Files.antt =====
-- The files that are served to their owner: serveProtectedFile and isOwnedUserFileURL of
-- handler/user_handler.go, with the paths of internal/platform/storage/local.go.
use olympiad_next.Prelude.{
  ℕ, Bool, false, not, ◌&&◌, ◌||◌, Option, none, some, List, [], ◌∷◌, ◌++◌, any, ◌==◌, nat_eq,
  if◌then◌else◌,
}
use olympiad_next.Text.{Text, text_eq, lit, codes, trim_prefix}
use olympiad_next.Text.Path.{base, has_slash}
use olympiad_next.Postgres
use olympiad_next.Auth.Outside.{Outside}
use olympiad_next.Auth.Jwt.{Manager, parse_access_token}
use olympiad_next.Http.{Handler, answer, refuse, call}
use olympiad_next.Http.Gates.{extract_bearer_token, is_admin_role}

abbrev pub is_separator : ℕ → Bool
is_separator c = c == b'/' || c == b'\\'

-- isCleanSegment
unfoldable pub is_clean_segment : Text → Bool
unfolding base
is_clean_segment s =
    not (s == [])
    && s == base s
    && not (s == codes ".")
    && not (s == codes "..")
    && not (any is_separator s)

-- LocalStorage.ProtectedFilePath: the elements that are joined below the directory of the uploads.
unfoldable pub protected_file_path : Text → Text → Text → Option (List Text)
unfolding is_clean_segment
protected_file_path top_dir owner name =
    if not (is_clean_segment top_dir) || not (is_clean_segment owner) || not (is_clean_segment name)
    then none
    else some (top_dir ∷ owner ∷ name ∷ [])

-- http.ServeFile, of a path that is found.
abbrev pub serve_path : Option (List Text) → Handler (List Text)
serve_path none = refuse 404 (lit "file not found")
serve_path (some path) = answer 200 path

module _ (o : Outside) (m : Manager) where
  -- UserHandler.serveProtectedFile: the answer is the path of the file.
  unfoldable pub serve_protected_file : Text → Text → Text → Text → Handler (List Text)
  unfolding extract_bearer_token protected_file_path
  serve_protected_file top_dir authorization owner name =
      call (parse_access_token o m (extract_bearer_token authorization))
        (λ _. refuse 401 (lit "missing or invalid access token"))
        λ claims.
          if claims.user_id == owner
          then serve_path (protected_file_path top_dir owner name)
          else call (Postgres.Users.get_role claims.user_id)
              (λ _. refuse 500 (lit "internal server error"))
              λ role.
                if not (is_admin_role role)
                then refuse 403 (lit "not authorized to view this file")
                else serve_path (protected_file_path top_dir owner name)

-- storage.URLPrefix + "/" + userFileSubdir + "/" + userID + "/"
abbrev pub user_file_prefix : Text → Text
user_file_prefix user = codes "/uploads/users/" ++ user ++ codes "/"

-- isOwnedUserFileURL
unfoldable pub is_owned_user_file_url : Text → Text → Bool
unfolding trim_prefix base
is_owned_user_file_url raw_url user = elim (trim_prefix (user_file_prefix user) raw_url) [
  | none ↦ false
  | some rest ↦ not (rest == []) && not (has_slash rest) && rest == base rest
]
