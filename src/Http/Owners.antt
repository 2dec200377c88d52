-- ===== src/Http/Owners.antt =====
-- Who is served a protected file, and which paths are served.
use olympiad_next.Prelude.{
  ℕ, ◌≡◌, ◌≢◌, ◌↔◌, sym, ap, ◌∙◌, Bool, true, false, not, some, List, [], ◌∷◌, find, any,
  any-weaken, arith, inl, inr, ◌⊎◌, ==_iff, nat_eq,
}
use olympiad_next.Text.{Text, text_eq, codes}
use olympiad_next.Text.Path.{base, base_id, is_slash}
use olympiad_next.Errors.{ok, of_user, UserError}
use olympiad_next.Domain.User.{User}
use olympiad_next.Store.{Tables, World, pure}
use olympiad_next.Store.Answers.{Ensures, Ensures-bind, found-row}
use olympiad_next.Postgres.Users.{by_id, find_by_id, get_role}
use olympiad_next.Auth.Outside.{Outside}
use olympiad_next.Auth.Jwt.{Manager, AccessClaims, parse_access_token}
use olympiad_next.Http.{done, refuse, answer, Delivers, Delivers-call, Delivers-refuse, Delivers-if}
use olympiad_next.Http.Gates.{extract_bearer_token, is_admin_role}
use olympiad_next.Http.Files.{
  is_separator, is_clean_segment, protected_file_path, serve_path, serve_protected_file,
}
use olympiad_next.Http.Device.{parse-left}

-- One element of a path: not empty, not a reference to a directory, and without a separator.
pub record IsSegment (s : Text) : Type 0 where
  pub filled : s ≢ []
  pub not_here : s ≢ codes "."
  pub not_parent : s ≢ codes ".."
  pub single : any is_separator s ≡ false

-- isCleanSegment accepts exactly the single elements of a path: its comparison with filepath.Base asks
-- for nothing more.
pub is_clean_segment_iff : (s : Text) → (is_clean_segment s ≡ true) ↔ IsSegment s
unfolding is_clean_segment
is_clean_segment_iff s = (
  λ h. record {
    filled = λ e. ground (arith, ==_iff s []);
    not_here = λ e. ground (arith, ==_iff s (codes "."));
    not_parent = λ e. ground (arith, ==_iff s (codes ".."));
    single = ground arith;
  },
  λ k.
      let same =
        base_id s k.filled (any-weaken is_separator is_slash s (λ c e. ground arith) k.single) in
      ground (
        arith,
        ==_iff s [],
        ==_iff s (codes "."),
        ==_iff s (codes ".."),
        ==_iff s (base s),
        same,
        k.filled,
        k.not_here,
        k.not_parent,
        k.single,
      ),
)

pub not-false : (b : Bool) → not b ≡ false → b ≡ true
not-false b h = ground arith

-- The path names a file of the owner.
pub record IsFileOf (top_dir owner name : Text) (path : List Text) : Type 0 where
  pub elements : path ≡ top_dir ∷ owner ∷ name ∷ []
  pub owner_segment : IsSegment owner
  pub name_segment : IsSegment name

module _ (o : Outside) (m : Manager) where
  pub role-Ensures :
      (id : Text) (w : World)
      → Ensures
          (get_role id)
          w
          (λ r _. (u : User) × (find (by_id id) w.db.users ≡ some u) × (u.role ≡ r))
  unfolding get_role find_by_id pure
  role-Ensures id w = Ensures-bind _ _ w λ u e. record {
    of = λ r h.
        let (there, left) =
          found-row (λ db. find (by_id id) db.users) (of_user UserError.not_found) w u e in
        (u, there, ground arith);
  }

  path-Delivers :
      (top_dir owner name : Text) (w : World)
      → Delivers
          (serve_path (protected_file_path top_dir owner name))
          w
          (λ _ path _. IsFileOf top_dir owner name path)
  unfolding protected_file_path answer refuse
  path-Delivers top_dir owner name w = record {
    of = λ s path h. record {
      elements = ground arith;
      owner_segment = (is_clean_segment_iff owner).0 (ground arith);
      name_segment = (is_clean_segment_iff name).0 (ground arith);
    };
  }

  -- The owner, or an account that is an administrator's in the tables.
  abbrev pub MaySee : Tables → AccessClaims → Text → Type 0
  MaySee db claims owner =
      (claims.user_id ≡ owner)
      ⊎ ((u : User) × (find (by_id claims.user_id) db.users ≡ some u)
          × (is_admin_role u.role ≡ true))

  serve-Delivers :
      (top_dir authorization owner name : Text) (w : World)
      → Delivers (serve_protected_file o m top_dir authorization owner name) w λ _ path _.
        (claims : AccessClaims) × ((parse_access_token o m (extract_bearer_token authorization) w).0
          ≡ ok claims)
        × MaySee w.db claims owner
        × IsFileOf top_dir owner name path
  unfolding serve_protected_file
  serve-Delivers top_dir authorization owner name w =
      Delivers-call _ _ _ w (λ _ _. Delivers-refuse _ _ _)
        λ claims signed.
          let raw = extract_bearer_token authorization in
          let w1 : World = (parse_access_token o m raw w).1 in
          let same : w1 ≡ w = parse-left o m raw w in
          Delivers-if _ _ _ _
            (λ own. record {
              of = λ s path h. (
                claims,
                signed,
                inl ((==_iff claims.user_id owner).0 own),
                (path-Delivers top_dir owner name _).of s path h,
              );
            })
            λ _.
              Delivers-call _ _ _ _ (λ _ _. Delivers-refuse _ _ _)
                λ role read.
                  Delivers-if _ _ _ _ (λ _. Delivers-refuse _ _ _)
                    λ admin. record {
                      of = λ s path h.
                          let (u, known, is) = (role-Ensures claims.user_id w1).of role read in
                          let granted : is_admin_role u.role ≡ true =
                            ap is_admin_role is ∙ not-false (is_admin_role role) admin in
                          (
                            claims,
                            signed,
                            inr (
                              u,
                              ap (λ v. find (by_id claims.user_id) v.db.users) (sym same) ∙ known,
                              granted,
                            ),
                            (path-Delivers top_dir owner name _).of s path h,
                          );
                    }

  -- serveProtectedFile, whatever the server does: a file is served only for a token that is good and
  -- names its owner or an administrator, and the path has three elements, of which the owner and the name
  -- are neither empty nor a reference to a directory, and have no separator.
  pub serve_protected_file-MaySee :
      (top_dir authorization owner name : Text) (w : World) (s : ℕ) (path : List Text)
      → (serve_protected_file o m top_dir authorization owner name w).0 ≡ done s path
      → (claims : AccessClaims) × ((parse_access_token o m (extract_bearer_token authorization) w).0
          ≡ ok claims)
        × MaySee w.db claims owner
        × IsFileOf top_dir owner name path
  serve_protected_file-MaySee top_dir authorization owner name w s path h =
      (serve-Delivers top_dir authorization owner name w).of s path h
